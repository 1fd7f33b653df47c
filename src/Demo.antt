-- ===== src/Demo.antt =====
-- A concrete platform for the tests: every call succeeds, there is one update partition of 4096
-- bytes, each partition has the same digest, and the digest of a message is 32 times its length.
pub mod Facts
use esp32_ota_link.Base.{ℕ, List, [], ◌∷◌, none, some, true, replicate, length, u8}
use esp32_ota_link.Idf.{Env, Partition, esp_ok, esp_err_nvs_not_found, img_valid, ChipModel}

abbrev pub update_partition : Partition
update_partition = record {
  label = 111 ∷ 116 ∷ 97 ∷ 49 ∷ [];
  kind = 0;
  subtype = 0x11;
  size = 4096;
}

abbrev pub image_digest : List ℕ
image_digest = replicate 32 7

abbrev pub demo_env : Env
demo_env = record {
  sha = λ bytes. replicate 32 (u8 (length bytes));
  fill_random = λ h n. replicate n 9;
  next_update_partition = λ h. some update_partition;
  ota_begin = λ h p n. (esp_ok, 1);
  ota_write = λ h k bytes. esp_ok;
  ota_end = λ h k. esp_ok;
  ota_abort = λ h k. esp_ok;
  partition_sha256 = λ h p. (esp_ok, image_digest);
  set_boot_partition = λ h p. esp_ok;
  rollback_possible = λ h. true;
  mark_invalid_and_reboot = λ h. esp_ok;
  mark_valid = λ h. esp_ok;
  running_partition = λ h. some update_partition;
  boot_partition = λ h. some update_partition;
  state_partition = λ h p. (esp_ok, some img_valid);
  app_description = λ h. none;
  chip_model = λ h. ChipModel.esp32;
  timer_us = λ h. 0;
  free_heap = λ h. 0;
  app_partitions = λ h. some update_partition ∷ [];
  partition_type_app = 0;
  ota_subtype_min = 0x10;
  ota_subtype_max = 0x20;
  nvs_flash_init = λ h. esp_ok;
  nvs_open = λ h. (esp_ok, 2);
  nvs_get_u32 = λ h k. (esp_err_nvs_not_found, none);
  nvs_set_u32 = λ h k v. esp_ok;
  nvs_commit = λ h k. esp_ok;
  uart_num_0 = 0;
  uart_pin_no_change = 0xffffffff;
  uart_driver_install = λ h port n. esp_ok;
  uart_param_config = λ h port baud. esp_ok;
  uart_set_pin = λ h port pins. esp_ok;
  task_create = λ h t. (true, 3);
}
