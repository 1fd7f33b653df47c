-- ===== src/Link/Validate.antt =====
-- The confirmation of the running image in ota_link.c: `running_app_needs_validation`,
-- `ota_link_mark_app_valid` and `ota_link_mark_app_invalid_and_reboot`.
use esp32_ota_link.Base.{◌∷◌, Option, none, some, Bool, true, false, not, if◌then◌else◌}
use esp32_ota_link.Idf.{
  Env, History, EspErr, is_ok, esp_err_invalid_state, ImgState, img_new, img_pending_verify,
  img_undefined, marked_valid, rolled_back,
}

-- `state == ESP_OTA_IMG_NEW || state == ESP_OTA_IMG_PENDING_VERIFY`.
abbrev pub is_unconfirmed : ImgState → Bool
is_unconfirmed img_new = true
is_unconfirmed img_pending_verify = true
is_unconfirmed _ = false

abbrev pub or_undefined : Option ImgState → ImgState
or_undefined none = img_undefined
or_undefined (some s) = s

module _ (env : Env) where
  unfoldable pub running_app_needs_validation : History → Bool
  running_app_needs_validation h =
      let (err, state) = env.state_partition h (env.running_partition h) in
      if not (is_ok err) then false else is_unconfirmed (or_undefined state)

  -- `ota_link_mark_app_valid`.
  unfoldable pub mark_app_valid : History → History × EspErr
  mark_app_valid h =
      let (err, state) = env.state_partition h (env.running_partition h) in
      let mark_err = env.mark_valid h in
      if not (is_ok err)
      then (h, err)
      else if not (is_unconfirmed (or_undefined state))
      then (h, esp_err_invalid_state)
      else (marked_valid mark_err ∷ h, mark_err)

  -- `ota_link_mark_app_invalid_and_reboot`.
  unfoldable pub mark_app_invalid_and_reboot : History → History × EspErr
  mark_app_invalid_and_reboot h =
      let err = env.mark_invalid_and_reboot h in (rolled_back err ∷ h, err)
