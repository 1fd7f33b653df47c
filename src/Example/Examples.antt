-- ===== src/Example/Examples.antt =====
-- A test of the example application's property, on the platform of `Demo`.
use esp32_ota_link.Base.{[], ◌∷◌, some, false, refl, arith}
use esp32_ota_link.Demo.{demo_env}
use esp32_ota_link.Link.Reset.{at_reset}
use esp32_ota_link.Example.{app_main}
use esp32_ota_link.Example.Locked.{Locks, app_main-Locks}

app_main-Locks_example : Locks (1 ∷ 2 ∷ []) (
    app_main demo_env
      (record { force_invalid = false; auth_key = some (1 ∷ 2 ∷ []) })
      (at_reset demo_env []))
app_main-Locks_example =
    app_main-Locks demo_env false (1 ∷ 2 ∷ []) (at_reset demo_env []) (omega arith) (omega arith)
      refl
