-- ===== src/Info/Names.antt =====
-- `ota_state_name` and `chip_model_name` of device_info.c. A C text is the list of its bytes,
-- without the terminating zero.
use Prim.Native.Char.{code}
use Prim.Native.String.{String}
use esp32_ota_link.Base.{ℕ, List, [], ◌∷◌}
use esp32_ota_link.Idf.{
  ImgState, img_new, img_pending_verify, img_valid, img_invalid, img_aborted, img_undefined,
  img_other, ChipModel, esp32, esp32s2, esp32s3, esp32c2, esp32c3, esp32c5, esp32c6, esp32c61,
  esp32h2, esp32h21, esp32h4, esp32p4, esp32s31, posix_linux, chip_other,
}

abbrev pub text : String → List ℕ
text String.[] = []
text (String.◌∷◌ c s) = code c ∷ text s

unfoldable pub ota_state_name : ImgState → List ℕ
ota_state_name img_new = text "NEW"
ota_state_name img_pending_verify = text "PENDING_VERIFY"
ota_state_name img_valid = text "VALID"
ota_state_name img_invalid = text "INVALID"
ota_state_name img_aborted = text "ABORTED"
ota_state_name img_undefined = text "UNDEFINED"
ota_state_name img_other = text "UNKNOWN"

unfoldable pub chip_model_name : ChipModel → List ℕ
chip_model_name esp32 = text "ESP32"
chip_model_name esp32s2 = text "ESP32-S2"
chip_model_name esp32s3 = text "ESP32-S3"
chip_model_name esp32c2 = text "ESP32-C2"
chip_model_name esp32c3 = text "ESP32-C3"
chip_model_name esp32c5 = text "ESP32-C5"
chip_model_name esp32c6 = text "ESP32-C6"
chip_model_name esp32c61 = text "ESP32-C61"
chip_model_name esp32h2 = text "ESP32-H2"
chip_model_name esp32h21 = text "ESP32-H21"
chip_model_name esp32h4 = text "ESP32-H4"
chip_model_name esp32p4 = text "ESP32-P4"
chip_model_name esp32s31 = text "ESP32-S31"
chip_model_name posix_linux = text "POSIX-Linux"
chip_model_name chip_other = text "unknown"
