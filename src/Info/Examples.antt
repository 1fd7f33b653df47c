-- ===== src/Info/Examples.antt =====
-- Tests of the device information.
use esp32_ota_link.Base.{
  ℕ, ◌≤◌, ◌≡◌, refl, [], ◌∷◌, some, arith, length, replicate, length-replicate,
}
use esp32_ota_link.Demo.{demo_env}
use esp32_ota_link.Protocol.Wire.{max_payload}
use esp32_ota_link.Info.Build.{build_payload, info_texts, slot_state, partition_is_ota_slot}
use esp32_ota_link.Info.Names.{ota_state_name, chip_model_name}
use esp32_ota_link.Info.Version.{parse_app_version}
use esp32_ota_link.Info.Version.Triples.{lower_v, parse_app_version_lem}
use esp32_ota_link.Info.Layout.{Holds}
use esp32_ota_link.Info.Reference.{info_bytes, fixed_bytes, ota_slots, slot_names}
use esp32_ota_link.Info.Fits.{Gives, IsReportable, build_payload-Gives}
use esp32_ota_link.Info.Bounds.{IfSome, IsWithin, build_payload-IsWithin}

build_payload-IsWithin_example :
    IfSome
      (IsWithin 17 max_payload (length (replicate {A = ℕ} max_payload 0)))
      (build_payload demo_env [] 3 (replicate max_payload 0) max_payload)
build_payload-IsWithin_example =
    build_payload-IsWithin demo_env [] 3 (replicate max_payload 0) max_payload

demo-IsReportable : IsReportable demo_env []
unfolding info_texts slot_names ota_slots partition_is_ota_slot slot_state ota_state_name
    chip_model_name
demo-IsReportable = record {
  short = omega arith;
  slots_short = omega arith;
  slots_few = omega arith;
}

demo_fits : length (info_bytes demo_env [] 3) ≤ max_payload
unfolding info_bytes fixed_bytes info_texts slot_names ota_slots partition_is_ota_slot slot_state
    ota_state_name chip_model_name
demo_fits = omega arith

build_payload-Gives_example :
    Gives
      (Holds (length (replicate {A = ℕ} max_payload 0)) (info_bytes demo_env [] 3))
      (build_payload demo_env [] 3 (replicate max_payload 0) max_payload)
build_payload-Gives_example =
    build_payload-Gives demo_env [] 3 (replicate max_payload 0) max_payload
      (omega (arith, length-replicate {A = ℕ} max_payload 0)) demo-IsReportable demo_fits

-- `v1.02.30-rc`
parse_app_version_lem_example :
    parse_app_version (some (b'v' ∷ b'1' ∷ b'.' ∷ b'0' ∷ b'2' ∷ b'.' ∷ b'3' ∷ b'0' ∷ b'-' ∷ []))
    ≡ (1, 2, 30)
parse_app_version_lem_example =
    parse_app_version_lem lower_v (1 ∷ []) (0 ∷ 2 ∷ []) (3 ∷ 0 ∷ []) (b'-' ∷ []) (omega arith, tt)
      (omega arith, (omega arith, tt)) (omega arith, (omega arith, tt)) refl
