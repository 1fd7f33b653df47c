-- ===== src/Link/Untouched.antt =====
-- What `ota_link_start_with_config` leaves alone: the OTA session, the parser and the packet. So a
-- device that starts after a reset meets the invariant of its tasks.
use esp32_ota_link.Base.{
  ℕ, ◌≡◌, refl, sym, ap, subst, ◌∙◌, ◌∷◌, Option, none, some, Option-cases, inl, inr, not, ◌&&◌,
  if_cases, length, length-replicate,
}
use esp32_ota_link.Idf.{task_created, Env, History, EspErr, ota_link_task, mark_valid_task, Writer}
use esp32_ota_link.Protocol.Wire.{Packet, buffer_size, max_payload}
use esp32_ota_link.Protocol.Parser.{Parser, parser_init}
use esp32_ota_link.Protocol.Parser.Safety.{feed-IsWellFormed}
use esp32_ota_link.Ota.Invariant.{OtaInv, SmallPartitions, cleared-OtaInv}
use esp32_ota_link.Link.Validate.{running_app_needs_validation}
use esp32_ota_link.Link.{
  Link, Config, Transport, uart_transport, custom_transport, with_history, key_is_invalid,
  writer_of, install_writer, start_mark_valid, start_task, release_uart, start_uart,
  start_transport, start_configured, start_with_config,
}
use esp32_ota_link.Link.Cases.{installing, connected, start_uart_cases}
use esp32_ota_link.Link.Start.{start_idle, start_running}
use esp32_ota_link.Link.Reset.{at_reset}
use esp32_ota_link.Link.Run.{DeviceInv}
use esp32_ota_link.Link.Tasks.{Device, MarkPc, Reach}
use esp32_ota_link.Link.Concurrent.{Reach-DeviceInv}

record IsSame (l r : Link) : Type 0 where
  ota : r.app.ota ≡ l.app.ota
  parser : r.parser ≡ l.parser
  packet : r.packet ≡ l.packet

module _ (env : Env) (l0 : Link) where
  abbrev Keeps : Link × EspErr → Type 0
  Keeps r = IsSame l0 r.0

  abbrev moved :
      (l r : Link)
      → IsSame l0 l
      → r.app.ota ≡ l.app.ota
      → r.parser ≡ l.parser
      → r.packet ≡ l.packet
      → IsSame l0 r
  moved l r s o p k = record { ota = o ∙ s.ota; parser = p ∙ s.parser; packet = k ∙ s.packet }

  start_mark_valid-IsSame : (l : Link) → IsSame l0 l → Keeps (start_mark_valid env l)
  unfolding start_mark_valid
  start_mark_valid-IsSame l s =
      if_cases Keeps
        (l.config.auto_mark_app_valid && running_app_needs_validation env l.app.history)
        (λ e.
          if_cases (IsSame l0) (env.task_create l.app.history mark_valid_task).0
            (λ f. moved l _ s refl refl refl) (λ f. moved l _ s refl refl refl))
        (λ e. s)

  install_writer-IsSame :
      (l : Link) (w : Option Writer) → IsSame l0 l → IsSame l0 (install_writer l w)
  unfolding install_writer
  install_writer-IsSame l w s = moved l _ s refl refl refl

  release_uart-IsSame :
      (l : Link) (given : Option Transport) → IsSame l0 l → IsSame l0 (release_uart env l given)
  unfolding release_uart
  release_uart-IsSame l none s = moved l _ s refl refl refl
  release_uart-IsSame l (some t) s = s

  start_task-IsSame :
      (l : Link) (given : Option Transport) → IsSame l0 l → Keeps (start_task env l given)
  unfolding start_task
  start_task-IsSame l given s =
      if_cases Keeps (not (env.task_create l1.app.history ota_link_task).0)
        (λ e.
          moved _ _ (release_uart-IsSame l2 given (moved l1 l2 s1 refl refl refl)) refl refl refl)
        (λ e.
          let l3 = record l2 {
            task_handle = some (env.task_create l1.app.history ota_link_task).1;
          } in
          start_mark_valid-IsSame l3 (moved l1 l3 s1 refl refl refl))
    where
      l1 : Link
      l1 = install_writer l (writer_of l.config l.config.transport)

      l2 : Link
      l2 = with_history l1 (
          task_created ota_link_task (env.task_create l1.app.history ota_link_task).0
          ∷ l1.app.history)

      s1 : IsSame l0 l1
      s1 = install_writer-IsSame l (writer_of l.config l.config.transport) s

  start_uart-IsSame : (l : Link) → IsSame l0 l → Keeps (start_uart env l)
  start_uart-IsSame l s =
      start_uart_cases env l Keeps
        (λ e. moved l (with_history l (installing env l)) s refl refl refl)
        (λ e1 e2. moved l _ s refl refl refl) (λ e1 e2 e3. moved l _ s refl refl refl)
        (λ e. start_task-IsSame (connected env l) none (moved l (connected env l) s refl refl refl))

  start_transport-IsSame :
      (l : Link) (given : Option Transport) → IsSame l0 l → Keeps (start_transport env l given)
  unfolding start_transport
  start_transport-IsSame l none s = start_uart-IsSame l s
  start_transport-IsSame l (some uart_transport) s = start_task-IsSame l (some uart_transport) s
  start_transport-IsSame l (some (custom_transport none write)) s = s
  start_transport-IsSame l (some (custom_transport (some read) none)) s = s
  start_transport-IsSame l (some (custom_transport (some read) (some write))) s =
      start_task-IsSame l (some (custom_transport (some read) (some write))) s

  start_configured-IsSame : (c : Config) → Keeps (start_configured env l0 c)
  unfolding start_configured
  start_configured-IsSame c =
      if_cases Keeps (key_is_invalid c) (λ e. record { ota = refl; parser = refl; packet = refl })
        (λ e.
          start_transport-IsSame _ c.transport
            (record { ota = refl; parser = refl; packet = refl }))

-- A reset, then a start.
module _ (env : Env) where
  start-IsSame : (l : Link) (c : Option Config) → IsSame l (start_with_config env l c).0
  unfolding start_with_config
  start-IsSame l none = record { ota = refl; parser = refl; packet = refl }
  start-IsSame l (some c) = elim (Option-cases l.task_handle) [
    | inl idle ↦
        subst (λ r. IsSame l r.0) (sym (start_idle env l c idle)) (start_configured-IsSame env l c)
    | inr (t, runs) ↦
        subst (λ r. IsSame l r.0) (sym (start_running env l c t runs))
          (record { ota = refl; parser = refl; packet = refl })
  ]

  -- `protocol_parser_init` at the head of `ota_link_task`.
  abbrev pub entered : Link → Link
  entered l = record l { parser = parser_init l.parser }

  IsSame-DeviceInv : (h : History) (l : Link) → IsSame (at_reset env h) l → DeviceInv (entered l)
  IsSame-DeviceInv h l s = record {
    parses =
        (feed-IsWellFormed l.parser 0 l.packet).0
          (ap (λ (p : Parser). length p.buffer) s.parser ∙ length-replicate {A = ℕ} buffer_size 0);
    array = ap (λ (p : Packet). length p.payload) s.packet ∙ length-replicate {A = ℕ} max_payload 0;
    app_inv = subst (λ o. OtaInv o l.app.history) (sym s.ota) (cleared-OtaInv l.app.history);
  }

  -- From the statics after a reset, over `ota_link_start_with_config` with any configuration and
  -- the entry of the command task, and then over any interleaving of the command task (with any
  -- bytes, timeouts and errors from the transport) and `mark_valid_task`: the parser is
  -- well-formed, the packet's array has its size, and the OTA session agrees with what was written
  -- to the flash, where the update partition leaves room below 4 GB.
  pub from_reset-DeviceInv :
      (h : History) (c : Option Config) (m : MarkPc) {d : Device}
      → SmallPartitions env
      → Reach env
          (record { link = entered (start_with_config env (at_reset env h) c).0; marker = m })
          d
      → DeviceInv d.link
  from_reset-DeviceInv h c m small steps =
      Reach-DeviceInv env small
        (IsSame-DeviceInv h (start_with_config env (at_reset env h) c).0
          (start-IsSame (at_reset env h) c))
        steps
