-- ===== src/Commands/Cases.antt =====
-- The cases of `commands_handle_packet`, as one principle for proofs.
use esp32_ota_link.Base.{
  ℕ, ◌≡◌, ◌≢◌, refl, ap, Bool, true, false, ◌||◌, arith, ◌==◌, ==_iff, ◌!=◌, if◌then◌else◌,
  if_cases, ◌∙◌, not,
}
use esp32_ota_link.Idf.{Env}
use esp32_ota_link.Protocol.Wire.{
  Packet, err_invalid_packet, err_auth_required, err_unknown_command, version_1, cmd_ping,
  cmd_get_info, cmd_auth, cmd_reboot, cmd_rollback, cmd_ota_begin, cmd_ota_data, cmd_ota_end,
  cmd_ota_abort,
}
use esp32_ota_link.Ota
use esp32_ota_link.Auth.State.{command_is_protected}
use esp32_ota_link.Auth.State.{ReplayEntry}
use esp32_ota_link.Auth.Replay.{Scan, fresh, clash, hit, Checked, resend, check_replay}
use esp32_ota_link.Commands.{
  App, is_err_ok, nack, handle_authenticated_replay, plain_ack, plain_nack, handle_get_info,
  handle_auth, reboot_fresh, rollback_fresh, with_payload_fresh, without_payload_fresh, guarded,
  dispatch, handle,
}

-- The commands behind the gate, and what each does when it is let through.
pub data GatedCommand : Type 0 where
  reboots rollbacks begins aborts writes ends : GatedCommand

abbrev pub fresh_of : Env → GatedCommand → App → Packet → App
fresh_of env reboots = reboot_fresh env
fresh_of env rollbacks = rollback_fresh env
fresh_of env begins = with_payload_fresh env (Ota.begin env)
fresh_of env aborts = without_payload_fresh env (Ota.abort env)
fresh_of env writes = with_payload_fresh env (Ota.write_data env)
fresh_of env ends = without_payload_fresh env (Ota.finish env)

any_of :
    (a b c d e f : Bool)
    → a ≡ false
    → b ≡ false
    → c ≡ false
    → d ≡ false
    → e ≡ false
    → f ≡ false
    → (a || b || c || d || e || f) ≡ false
any_of a b c d e f p q r s t u = ground arith

same_gate : (c d : ℕ) → (c == d) ≡ true → command_is_protected c ≡ command_is_protected d
same_gate c d same = ap command_is_protected ((==_iff c d).0 same)

module _ (env : Env) (a : App) (p : Packet) where
  pub handle_cases :
      (P : App → Type 0)
      → (p.version ≢ version_1 → P (plain_nack a p err_invalid_packet))
      → (command_is_protected p.command ≡ false → P (plain_ack a p))
      → (command_is_protected p.command ≡ false → P (handle_get_info env a p))
      → (command_is_protected p.command ≡ false → P (handle_auth env a p))
      → (command_is_protected p.command ≡ false → P (plain_nack a p err_unknown_command))
      → ((o : GatedCommand)
          → command_is_protected p.command ≡ true
          → P (guarded env (fresh_of env o) a p))
      → P (handle env a p)
  unfolding handle dispatch command_is_protected
  handle_cases P invalid ping info auth unknown gated =
      if_cases P (p.version != version_1) (λ other. invalid (ground arith))
        (λ one.
          if_cases P (p.command == cmd_ping) (λ t. ping (same_gate _ cmd_ping t))
            (λ t.
              if_cases P (p.command == cmd_get_info) (λ t. info (same_gate _ cmd_get_info t))
                (λ t.
                  if_cases P (p.command == cmd_auth) (λ t. auth (same_gate _ cmd_auth t))
                    (λ t. others))))
    where
      gate :
          (o : GatedCommand) (c : ℕ)
          → command_is_protected c ≡ true
          → (p.command == c) ≡ true
          → P (guarded env (fresh_of env o) a p)
      gate o c prot same = gated o (same_gate p.command c same ∙ prot)

      others : P (
          if p.command == cmd_reboot
          then guarded env (reboot_fresh env) a p
          else if p.command == cmd_rollback
          then guarded env (rollback_fresh env) a p
          else if p.command == cmd_ota_begin
          then guarded env (with_payload_fresh env (Ota.begin env)) a p
          else if p.command == cmd_ota_abort
          then guarded env (without_payload_fresh env (Ota.abort env)) a p
          else if p.command == cmd_ota_data
          then guarded env (with_payload_fresh env (Ota.write_data env)) a p
          else if p.command == cmd_ota_end
          then guarded env (without_payload_fresh env (Ota.finish env)) a p
          else plain_nack a p err_unknown_command)
      others = if_cases P (p.command == cmd_reboot) (gate reboots cmd_reboot refl) (λ t1.
          if_cases P (p.command == cmd_rollback) (gate rollbacks cmd_rollback refl) (λ t2.
            if_cases P (p.command == cmd_ota_begin) (gate begins cmd_ota_begin refl) (λ t3.
              if_cases P (p.command == cmd_ota_abort) (gate aborts cmd_ota_abort refl) (λ t4.
                if_cases P (p.command == cmd_ota_data) (gate writes cmd_ota_data refl) (λ t5.
                  if_cases P (p.command == cmd_ota_end) (gate ends cmd_ota_end refl)
                    (λ t6. unknown (any_of _ _ _ _ _ _ t1 t2 t3 t5 t6 t4)))))))

-- The ways through the gate of a protected command: the request is refused, it is new, or it was
-- answered before.
module _ (env : Env) (a : App) (p : Packet) where
  abbrev pub resent : ReplayEntry → App
  resent e =
      let r = resend a.sender a.history p (hit e) in
      record a { sender = r.sender; history = r.history }

  abbrev pub after_check : (App → Packet → App) → Checked → App
  after_check fresh_handler c =
      let a' = record a { sender = c.sender; history = c.history } in
      let r : App × Bool =
        if not (is_err_ok c.result) then (nack env a' p c.result, true) else (a', c.replayed) in
      if r.1 then r.0 else fresh_handler r.0 p

  resend_cases :
      (fresh_handler : App → Packet → App) (P : App → Type 0) (o : Scan)
      → P (nack env a p err_auth_required)
      → P (fresh_handler a p)
      → ((e : ReplayEntry) → P (resent e))
      → P (after_check fresh_handler (resend a.sender a.history p o))
  unfolding resend
  resend_cases fresh_handler P fresh refused new again = new
  resend_cases fresh_handler P clash refused new again = refused
  resend_cases fresh_handler P (hit e) refused new again = again e

  pub guarded_cases :
      (fresh_handler : App → Packet → App) (P : App → Type 0)
      → P (nack env a p err_auth_required)
      → P (fresh_handler a p)
      → ((e : ReplayEntry) → P (resent e))
      → P (guarded env fresh_handler a p)
  unfolding guarded handle_authenticated_replay check_replay
  guarded_cases fresh_handler P refused new again =
      if_cases (λ c. P (after_check fresh_handler c))
        (not a.auth.required || not (command_is_protected p.command)) (λ e. new)
        (λ e.
          if_cases (λ c. P (after_check fresh_handler c)) (not a.auth.authenticated) (λ e. refused)
            (λ e. resend_cases fresh_handler P _ refused new again))
