-- ===== src/Example.antt =====
-- The example application: firmware/main/main.c. The options of its Kconfig are parameters, and so
-- is the key, a text of the build.
pub mod Locked
pub mod Examples
use esp32_ota_link.Base.{
  ℕ, List, [], ◌∷◌, Option, none, some, Bool, true, false, not, if◌then◌else◌, length,
}
use esp32_ota_link.Idf.{Env, EspErr, is_ok, app_health_task, delayed, task_created, task_deleted}
use esp32_ota_link.Link.{Link, Config, with_history, start_with_config}
use esp32_ota_link.Link.Reset.{default_config}
use esp32_ota_link.Link.Validate.{mark_app_valid, mark_app_invalid_and_reboot}

-- CONFIG_ESP32_OTA_LINK_EXAMPLE_…: FORCE_INVALID, and AUTH_KEY where REQUIRE_AUTH is set (the
-- bytes of the text without the terminating zero).
pub record Options : Type 0 where
  pub force_invalid : Bool
  pub auth_key : Option (List ℕ)

-- How `app_main` or a task goes on: `ESP_ERROR_CHECK` aborts on an error.
pub data Course : Type 0 where
  aborted running : Link → Course

module _ (env : Env) where
  -- The configuration of `app_main`.
  unfoldable pub app_config : Options → Config
  app_config o = elim o.auth_key [
    | none ↦ record (default_config env) { auto_mark_app_valid = false }
    | some key ↦ record (default_config env) {
      auto_mark_app_valid = false;
      auth_key = some key;
      auth_key_len = length key;
      require_authentication = true;
    }
  ]

  -- `app_main` up to its endless loop, which only sleeps.
  unfoldable pub app_main : Options → Link → Course
  unfolding app_config
  app_main o l =
      let (l', err) = start_with_config env l (some (app_config o)) in
      let h = l'.app.history in
      let (created, handle) = env.task_create h app_health_task in
      if not (is_ok err)
      then aborted l'
      else running (with_history l' (task_created app_health_task created ∷ h))

  -- `app_health_task`.
  unfoldable pub app_health : Options → Link → Course
  app_health o l =
      let h = delayed 5000 ∷ l.app.history in
      let (invalid, err) = mark_app_invalid_and_reboot env h in
      let (valid, _) = mark_app_valid env h in
      if o.force_invalid
      then (if not (is_ok err)
          then aborted (with_history l invalid)
          else running (with_history l invalid))
      else running (with_history l (task_deleted app_health_task ∷ valid))
