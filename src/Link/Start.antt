-- ===== src/Link/Start.antt =====
-- `ota_link_start_with_config` of ota_link.c: what a start leaves, on success and on each failure.
use esp32_ota_link.Base.{
  ℕ, ◌≡◌, ◌≢◌, refl, sym, ap, subst, ◌∙◌, ◌⊎◌, inl, inr, [], ◌∷◌, Option, none, some, Bool, true,
  false, not, ◌&&◌, arith, if_cases,
}
use esp32_ota_link.Idf.{
  Env, History, EspErr, esp_ok, esp_err_invalid_state, is_ok, Writer, ota_link_task,
  mark_valid_task, link_uart, custom, uart_installed, uart_deleted,
}
use esp32_ota_link.Auth.State.{configure}
use esp32_ota_link.Protocol.Sender.{set_writer}
use esp32_ota_link.Info.Boot.{init, store_count}
use esp32_ota_link.Link.Validate.{running_app_needs_validation}
use esp32_ota_link.Link.Cases.{install_err, config_err, pin_err, connected, start_uart_cases}
use esp32_ota_link.Link.{
  Link, Config, Transport, uart_transport, custom_transport, key_is_invalid, writer_of,
  start_mark_valid, start_task, install_writer, release_uart, start_uart, start_transport,
  start_configured, start_with_config,
}

-- Whether the UART driver is installed after these calls.
abbrev pub installed : History → Bool
installed [] = false
installed (uart_installed port n esp_ok ∷ h) = true
installed (uart_deleted port ∷ h) = false
installed (e ∷ h) = installed h

-- The writer that a configuration asks for.
abbrev pub wanted_writer : Config → Option Writer
wanted_writer c = elim c.transport [
  | none ↦ some (link_uart c.uart_port)
  | some t ↦ writer_of c (some t)
]

-- A start that succeeded: the command task runs, the answers go where the configuration says, the
-- key is in place, and the UART driver is there if it is used.
pub record IsStarted (c : Config) (l : Link) : Type 0 where
  pub task : ℕ
  pub runs : l.task_handle ≡ some task
  pub writes : l.app.sender.write ≡ wanted_writer c
  pub keyed : l.app.auth ≡ configure c.auth_key c.auth_key_len c.require_authentication
  pub driver : c.transport ≡ none → installed l.app.history ≡ true

-- A start that failed: no task runs, and the UART driver is as it was.
pub record IsRefused (before l : Link) : Type 0 where
  pub idle : l.task_handle ≡ none
  pub released : installed before.app.history ≡ false → installed l.app.history ≡ false

abbrev Ends : Link → Config → Link × EspErr → Type 0
Ends before c r = ((r.1 ≡ esp_ok) × IsStarted c r.0) ⊎ ((r.1 ≢ esp_ok) × IsRefused before r.0)

module _ (env : Env) where
  init-installed : (h : History) (old : ℕ) → installed (init env h old).1 ≡ installed h
  unfolding init store_count
  init-installed h old =
      if_cases Same (not (is_ok (env.nvs_flash_init h))) (λ e. refl)
        (λ e.
          if_cases Same (not (is_ok (env.nvs_open h).0)) (λ e. refl)
            (λ e. if_cases Same (is_ok (env.nvs_set_u32 h _ _)) (λ e. refl) (λ e. refl)))
    where
      Same : ℕ × History → Type 0
      Same r = installed r.1 ≡ installed h

  start_mark_valid-Ends :
      (before : Link) (c : Config) (l : Link)
      → IsStarted c l
      → Ends before c (start_mark_valid env l)
  unfolding start_mark_valid
  start_mark_valid-Ends before c l s =
      if_cases (Ends before c)
        (l.config.auto_mark_app_valid && running_app_needs_validation env l.app.history)
        (λ wanted. inl (
          refl,
          if_cases (IsStarted c) (env.task_create l.app.history mark_valid_task).0
              (λ made. record {
                task = s.task;
                runs = s.runs;
                writes = s.writes;
                keyed = s.keyed;
                driver = s.driver;
              })
              (λ failed. record {
                task = s.task;
                runs = s.runs;
                writes = s.writes;
                keyed = s.keyed;
                driver = s.driver;
              }),
        ))
        (λ other. inl (refl, s))

  -- What the release needs to know where it leaves the driver alone.
  abbrev Kept : Option Transport → Bool → Bool → Type 0
  Kept none before now = Unit
  Kept (some t) before now = before ≡ false → now ≡ false

  release_uart-installed :
      (before : Bool) (l : Link) (given : Option Transport)
      → Kept given before (installed l.app.history)
      → before ≡ false
      → installed (release_uart env l given).app.history ≡ false
  unfolding release_uart
  release_uart-installed before l none kept e = refl
  release_uart-installed before l (some t) kept e = kept e

  start_task-Ends :
      (before : Link) (c : Config) (l : Link) (given : Option Transport) (w : Writer)
      → writer_of l.config l.config.transport ≡ some w
      → some w ≡ wanted_writer c
      → l.app.auth ≡ configure c.auth_key c.auth_key_len c.require_authentication
      → (c.transport ≡ none → installed l.app.history ≡ true)
      → Kept given (installed before.app.history) (installed l.app.history)
      → Ends before c (start_task env l given)
  unfolding start_task install_writer set_writer
  start_task-Ends before c l given w e wanted keyed driver kept = rw e (
      if_cases (Ends before c) (not (env.task_create l.app.history ota_link_task).0)
        (λ failed. inr (
          λ q. absurd (cc),
          record {
            idle = refl;
            released = release_uart-installed (installed before.app.history) _ given kept;
          },
        ))
        (λ made. start_mark_valid-Ends before c _ (record {
          task = (env.task_create l.app.history ota_link_task).1;
          runs = refl;
          writes = wanted;
          keyed = keyed;
          driver = driver;
        })))

  -- A failed installation leaves the driver as it was.
  install_failed :
      (port n : ℕ) (e : EspErr) (h : History)
      → is_ok e ≡ false
      → installed (uart_installed port n e ∷ h) ≡ installed h
  install_failed port n esp_ok h bad = absurd (cc)
  install_failed port n _ h bad = refl

  installed_ok :
      (port n : ℕ) (e : EspErr) (h : History)
      → is_ok e ≡ true
      → installed (uart_installed port n e ∷ h) ≡ true
  installed_ok port n esp_ok h ok = refl
  installed_ok port n _ h ok = absurd (cc)

  not_ok : (e : EspErr) → not (is_ok e) ≡ true → e ≢ esp_ok
  not_ok e bad q = absurd (cc)

  writer_of_uart :
      (c : Config) (port : ℕ)
      → c.uart_port ≡ port
      → c.transport ≡ none
      → some (link_uart port) ≡ wanted_writer c
  writer_of_uart c port e none_given = rw (none_given, e) refl

  start_uart-Ends :
      (before : Link) (c : Config) (l : Link)
      → l.config ≡ c
      → c.transport ≡ none
      → l.task_handle ≡ none
      → installed before.app.history ≡ installed l.app.history
      → l.app.auth ≡ configure c.auth_key c.auth_key_len c.require_authentication
      → Ends before c (start_uart env l)
  unfolding writer_of
  start_uart-Ends before c l same none_given idle as_before keyed =
      start_uart_cases env l (Ends before c)
        (λ bad. inr (
          not_ok (install_err env l) bad,
          record {
            idle = idle;
            released = λ e.
                install_failed l.config.uart_port l.config.rx_buffer_size (install_err env l)
                  l.app.history (ground arith)
                ∙ sym as_before
                ∙ e;
          },
        ))
        (λ good bad.
          inr (not_ok (config_err env l) bad, record { idle = idle; released = λ e. refl }))
        (λ good good2 bad.
          inr (not_ok (pin_err env l) bad, record { idle = idle; released = λ e. refl }))
        (λ good.
          start_task-Ends before c (connected env l) none (link_uart l.config.uart_port) refl
            (writer_of_uart c l.config.uart_port (ap (λ (k : Config). k.uart_port) (sym same))
              none_given)
            keyed
            (λ e.
              installed_ok l.config.uart_port l.config.rx_buffer_size (install_err env l)
                l.app.history (ground arith))
            tt)

  start_transport-Ends :
      (before : Link) (c : Config) (l : Link) (given : Option Transport)
      → c.transport ≡ given
      → l.config ≡ c
      → l.task_handle ≡ none
      → installed before.app.history ≡ installed l.app.history
      → l.app.auth ≡ configure c.auth_key c.auth_key_len c.require_authentication
      → Ends before c (start_transport env l given)
  unfolding start_transport writer_of
  start_transport-Ends before c l none given same idle as_before keyed =
      start_uart-Ends before c l same given idle as_before keyed
  start_transport-Ends before c l (some uart_transport) given same idle as_before keyed =
      start_task-Ends before c l (some uart_transport) (link_uart c.transport_context)
        (rw (same, given) refl) (rw given refl) keyed (λ e. absurd (cc)) (λ e. sym as_before ∙ e)
  start_transport-Ends before c l (some (custom_transport none write)) given same idle as_before
        keyed =
      inr (λ q. absurd (cc), record { idle = idle; released = λ e. sym as_before ∙ e })
  start_transport-Ends before c l (some (custom_transport (some read) none)) given same idle
        as_before keyed =
      inr (λ q. absurd (cc), record { idle = idle; released = λ e. sym as_before ∙ e })
  start_transport-Ends before c l (some (custom_transport (some read) (some write))) given same idle
        as_before keyed =
      start_task-Ends before c l (some (custom_transport (some read) (some write)))
        (custom write c.transport_context) (rw (same, given) refl) (rw given refl) keyed
        (λ e. absurd (cc)) (λ e. sym as_before ∙ e)

  start_configured-Ends :
      (l : Link) (c : Config) → l.task_handle ≡ none → Ends l c (start_configured env l c)
  unfolding start_configured
  start_configured-Ends l c idle =
      if_cases (Ends l c) (key_is_invalid c)
        (λ bad. inr (λ q. absurd (cc), record { idle = idle; released = λ e. e }))
        (λ good.
          start_transport-Ends l c _ c.transport refl refl idle
            (sym (init-installed l.app.history l.app.boot_count)) refl)

  pub start_idle :
      (l : Link) (c : Config)
      → l.task_handle ≡ none
      → start_with_config env l (some c) ≡ start_configured env l c
  unfolding start_with_config
  start_idle l c idle = rw idle refl

  pub start_running :
      (l : Link) (c : Config) (task : ℕ)
      → l.task_handle ≡ some task
      → start_with_config env l (some c) ≡ (l, esp_err_invalid_state)
  unfolding start_with_config
  start_running l c task runs = rw runs refl

  -- How a start with the configuration `c` ends, and what a second one gives: see the theorem.
  abbrev pub EndsFor : Link → Config → Config → Link × EspErr → Type 0
  EndsFor before c again r =
      ((r.1 ≡ esp_ok)
        × IsStarted c r.0
        × (start_with_config env r.0 (some again) ≡ (r.0, esp_err_invalid_state)))
      ⊎ ((r.1 ≢ esp_ok) × IsRefused before r.0)

  refused_again :
      (before : Link) (c again : Config) (r : Link × EspErr)
      → Ends before c r
      → EndsFor before c again r
  refused_again before c again r (inl (ok, s)) = inl (ok, s, start_running r.0 again s.task s.runs)
  refused_again before c again r (inr bad) = inr bad

  -- `ota_link_start_with_config` with a configuration, while no command task runs, ends in one of
  -- two ways. It says ESP_OK: then the command task runs, answers go to the writer that the
  -- configuration asks for, the key and the requirement are those of the configuration, and the
  -- UART driver is installed where the configuration gives no transport; and any further start is
  -- refused with ESP_ERR_INVALID_STATE and changes nothing. Or it says an error: then no command
  -- task runs, and a UART driver that was not installed before is not installed after.
  pub start_with_config-EndsFor :
      (l : Link) (c again : Config)
      → l.task_handle ≡ none
      → EndsFor l c again (start_with_config env l (some c))
  start_with_config-EndsFor l c again idle =
      refused_again l c again _
        (subst (Ends l c) (sym (start_idle l c idle)) (start_configured-Ends l c idle))
