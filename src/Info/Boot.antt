-- ===== src/Info/Boot.antt =====
-- `device_info_init` of device_info.c: the boot counter `s_boot_count` in NVS.
use esp32_ota_link.Base.{ℕ, ◌+◌, ◌∷◌, Option, none, some, not, if◌then◌else◌, u32}
use esp32_ota_link.Idf.{Env, History, is_ok, nvs_stored, nvs_committed, nvs_closed}

abbrev pub or_zero : Option ℕ → ℕ
or_zero none = 0
or_zero (some n) = n

module _ (env : Env) where
  -- From `nvs_set_u32` on; the results of the stores only reach the log.
  unfoldable pub store_count : History → ℕ → ℕ → ℕ × History
  store_count h nvs boot_count =
      let set_err = env.nvs_set_u32 h nvs boot_count in
      let stored = nvs_stored nvs boot_count set_err ∷ h in
      let commit_err = env.nvs_commit stored nvs in
      if is_ok set_err
      then (boot_count, nvs_closed nvs ∷ nvs_committed nvs commit_err ∷ stored)
      else (boot_count, nvs_closed nvs ∷ stored)

  -- `device_info_init`, given the counter before it (0 after a reset).
  unfoldable pub init : History → ℕ → ℕ × History
  unfolding store_count
  init h old =
      let (open_err, nvs) = env.nvs_open h in
      let (_, stored) = env.nvs_get_u32 h nvs in
      if not (is_ok (env.nvs_flash_init h))
      then (old, h)
      else if not (is_ok open_err)
      then (old, h)
      else store_count h nvs (u32 (or_zero stored + 1))
