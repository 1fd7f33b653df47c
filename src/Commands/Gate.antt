-- ===== src/Commands/Gate.antt =====
-- The gate of the protected commands: what `commands_handle_packet` does for a host that has not
-- authenticated, and what it takes to reach the OTA session.
use esp32_ota_link.Base.{
  ◌≡◌, refl, sym, subst, Bool, true, false, not, ◌&&◌, ◌||◌, arith, if◌then◌else◌,
}
use esp32_ota_link.Idf.{Env}
use esp32_ota_link.Protocol.Sender.{send_nack}
use esp32_ota_link.Protocol.Wire.{Packet, ProtocolError, err_auth_required, version_1}
use esp32_ota_link.Auth.State.{command_is_protected}
use esp32_ota_link.Auth.Replay.{check_replay, respond_nack, send_response, Checked}
use esp32_ota_link.Commands.Cases.{fresh_of, handle_cases}
use esp32_ota_link.Commands.{
  App, is_err_ok, plain_nack, nack, handle_authenticated_replay, guarded, handle,
}

module _ (env : Env) (a : App) (p : Packet) where
  -- Without a session a response is sent as it is.
  nack_plain :
      (e : ProtocolError) → a.auth.authenticated ≡ false → nack env a p e ≡ plain_nack a p e
  unfolding nack plain_nack respond_nack send_response send_nack
  nack_plain e idle =
      let plain : (a.auth.required && a.auth.authenticated && command_is_protected p.command)
          ≡ false =
        ground arith in
      rw plain refl

  check_rejected :
      a.auth.required ≡ true
      → a.auth.authenticated ≡ false
      → command_is_protected p.command ≡ true
      → check_replay env a.auth a.sender a.history p ≡ record {
        sender = a.sender;
        history = a.history;
        result = err_auth_required;
        replayed = false;
      }
  unfolding check_replay
  check_rejected req idle prot =
      let open_command : (not a.auth.required || not (command_is_protected p.command)) ≡ false =
        ground arith in
      let closed : not a.auth.authenticated ≡ true = ground arith in rw (open_command, closed) refl

  guarded_rejected :
      (fresh : App → Packet → App)
      → a.auth.required ≡ true
      → a.auth.authenticated ≡ false
      → command_is_protected p.command ≡ true
      → guarded env fresh a p ≡ plain_nack a p err_auth_required
  unfolding guarded handle_authenticated_replay
  guarded_rejected fresh req idle prot =
      subst (λ c. after_check c ≡ plain_nack a p err_auth_required)
        (sym (check_rejected req idle prot)) (nack_plain err_auth_required idle)
    where
      after_check : Checked → App
      after_check c =
          let a' = record a { sender = c.sender; history = c.history } in
          let r : App × Bool =
            if not (is_err_ok c.result) then (nack env a' p c.result, true) else (a', c.replayed) in
          if r.1 then r.0 else fresh r.0 p

  -- Where a key is required and no session is open, a protected command is answered with one plain
  -- NACK that says ERR_AUTH_REQUIRED, and nothing else happens: no OTA call, no restart, no
  -- rollback, and no change of the session or of the replay cache.
  pub handle_unauthenticated :
      a.auth.required ≡ true
      → a.auth.authenticated ≡ false
      → command_is_protected p.command ≡ true
      → p.version ≡ version_1
      → handle env a p ≡ plain_nack a p err_auth_required
  handle_unauthenticated req idle prot v =
      handle_cases env a p (λ r. r ≡ plain_nack a p err_auth_required) (λ other. absurd (other v))
        (λ free. absurd (cc)) (λ free. absurd (cc)) (λ free. absurd (cc)) (λ free. absurd (cc))
        (λ o prot'. guarded_rejected (fresh_of env o) req idle prot)
