-- ===== src/Example/Locked.antt =====
-- The example application with a key: how `app_main` of firmware/main/main.c leaves the component.
use esp32_ota_link.Base.{
  ℕ, ◌<◌, ◌≤◌, ◌≡◌, refl, sym, ap, subst, ◌∙◌, inl, inr, List, ◌∷◌, none, some, Bool, true, false,
  not, ◌||◌, arith, ltb, ◌==◌, if◌then◌else◌, length, take, take_all, overwrite, length-replicate,
  take-overwrite, replicate,
}
use esp32_ota_link.Idf.{Env, EspErr, esp_ok, is_ok, app_health_task, task_created}
use esp32_ota_link.Auth.State.{AuthState, configure, cleared, key_max_size}
use esp32_ota_link.Link.{Link, with_history, start_with_config}
use esp32_ota_link.Link.Start.{EndsFor, start_with_config-EndsFor}
use esp32_ota_link.Example.{Options, Course, aborted, running, app_config, app_main}

-- The key is in place and required, and no session is open.
pub record IsLocked (key : List ℕ) (s : AuthState) : Type 0 where
  pub required : s.required ≡ true
  pub closed : s.authenticated ≡ false
  pub sized : s.key_len ≡ length key
  pub key_is : take (length key) s.key ≡ key

-- See the theorem.
abbrev pub Locks : List ℕ → Course → Type 0
Locks key (aborted l) = l.task_handle ≡ none
Locks key (running l) = ((task : ℕ) × (l.task_handle ≡ some task)) × IsLocked key l.app.auth

configure-IsLocked :
    (key : List ℕ)
    → 0 < length key
    → length key ≤ key_max_size
    → IsLocked key (configure (some key) (length key) true)
unfolding configure cleared
configure-IsLocked key some_key fits =
    let accepted : (length key == 0 || ltb key_max_size (length key)) ≡ false = ground arith in
    rw accepted (record {
      required = refl;
      closed = refl;
      sized = refl;
      key_is =
          ap (λ t. take (length key) (overwrite (replicate key_max_size 0) 0 t))
            (take_all key (length key) (omega arith))
          ∙ take-overwrite (replicate {A = ℕ} key_max_size 0) 0 key (length key) (omega arith)
              (omega (arith, length-replicate {A = ℕ} key_max_size 0));
    })

module _ (env : Env) (force_invalid : Bool) (key : List ℕ) where
  abbrev options : Options
  options = record { force_invalid = force_invalid; auth_key = some key }

  abbrev after_start : Link × EspErr → Course
  after_start (l, err) =
      let h = l.app.history in
      let (created, handle) = env.task_create h app_health_task in
      if not (is_ok err)
      then aborted l
      else running (with_history l (task_created app_health_task created ∷ h))

  after_start-Locks :
      (before : Link) (r : Link × EspErr)
      → IsLocked key (configure (some key) (length key) true)
      → EndsFor env before (app_config env options) (app_config env options) r
      → Locks key (after_start r)
  unfolding app_config
  after_start-Locks before (l, esp_ok) locked (inl (ok, s, again)) =
      ((s.task, s.runs), subst (IsLocked key) (sym s.keyed) locked)
  after_start-Locks before (l, esp_ok) locked (inr (bad, refused)) = absurd (bad refl)
  after_start-Locks before (l, _) locked (inl (ok, s, again)) = absurd (cc)
  after_start-Locks before (l, _) locked (inr (bad, refused)) = refused.idle

  -- `app_main` of the example application, built with a key of at most the size that the component
  -- takes, while no command task runs: it either aborts, and then no command task runs, or it goes
  -- on with the command task running, that key in place and required, and no session open.
  pub app_main-Locks :
      (l : Link)
      → 0 < length key
      → length key ≤ key_max_size
      → l.task_handle ≡ none
      → Locks key (app_main env (record { force_invalid = force_invalid; auth_key = some key }) l)
  unfolding app_main
  app_main-Locks l some_key fits idle =
      after_start-Locks l (start_with_config env l (some (app_config env options)))
        (configure-IsLocked key some_key fits)
        (start_with_config-EndsFor env l (app_config env options) (app_config env options) idle)
