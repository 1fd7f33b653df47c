-- ===== src/Commands/Authority.antt =====
-- What it takes to reach the OTA session, a restart or a rollback when a key is required.
use esp32_ota_link.Base.{
  ℕ, ◌≡◌, refl, ◌⊎◌, inl, inr, List, [], ◌∷◌, true, not, ◌||◌, arith, ◌!=◌, if_cases, Bool-cases,
  false, sym, subst,
}
use esp32_ota_link.Idf.{Env, History}
use esp32_ota_link.Protocol.Wire.{Packet, ProtocolError, err_ok, error_code, cmd_ack, cmd_nack}
use esp32_ota_link.Ota.{OtaState, OtaRun}
use esp32_ota_link.Ota
use esp32_ota_link.Auth.State.{command_is_protected, unwrap_packet}
use esp32_ota_link.Auth.Replay.{Checked, check_replay, respond_ack, respond_nack}
use esp32_ota_link.Auth.Quiet.{
  check_replay-effects, IsAuthorised, unwrap_packet-IsAuthorised, IsDelivered, IsSameSession,
  same_session, send_response-IsSameSession,
}
use esp32_ota_link.Auth.Cache.{ShaSized}
use esp32_ota_link.Commands.Cases.{
  GatedCommand, reboots, rollbacks, begins, aborts, writes, ends, fresh_of, handle_cases,
}
use esp32_ota_link.Commands.{
  App, is_err_ok, plain_nack, ack, nack, answer, handle_authenticated_replay, guarded, handle,
  reboot_fresh, rollback_fresh, with_payload_fresh, without_payload_fresh,
}
use esp32_ota_link.Commands.Quiet.{
  is_err_ok_lem, IsQuiet, IsQuiet-after, plain_nack-IsQuiet, plain_ack-IsQuiet, nack-IsQuiet,
  ack-IsQuiet, handle_auth-IsQuiet, get_info-IsQuiet,
}

-- A refused request, besides, leaves the session as it was.
pub record IsRefused (a r : App) : Type 0 where
  pub quiet : IsQuiet a r
  pub session : IsSameSession a.auth r.auth

plain_nacked :
    (p : Packet) (a : App) (e : ProtocolError) → IsSameSession a.auth (plain_nack a p e).auth
unfolding plain_nack
plain_nacked p a e = same_session a.auth

module _ (env : Env) (p : Packet) where
  IsRefused-after : {a b r : App} → a.auth ≡ b.auth → IsQuiet a b → IsRefused b r → IsRefused a r
  IsRefused-after {b = b} {r = r} same q t = record {
    quiet = IsQuiet-after env p q t.quiet;
    session = subst (λ s. IsSameSession s r.auth) (sym same) t.session;
  }

  nack-IsRefused : (a : App) (e : ProtocolError) → IsRefused a (nack env a p e)
  unfolding nack respond_nack
  nack-IsRefused a e = record {
    quiet = nack-IsQuiet env p a e;
    session =
        send_response-IsSameSession env a.auth a.sender a.history p cmd_nack (error_code e ∷ []) 1;
  }

  ack-IsRefused : (a : App) → IsRefused a (ack env a p)
  unfolding ack respond_ack
  ack-IsRefused a = record {
    quiet = ack-IsQuiet env p a;
    session =
        send_response-IsSameSession env a.auth a.sender a.history p cmd_ack (error_code err_ok ∷ [])
          1;
  }

  answer-IsRefused : (a : App) (e : ProtocolError) → IsRefused a (answer env a p e)
  unfolding answer
  answer-IsRefused a e =
      if_cases (IsRefused a) (is_err_ok e) (λ ok. ack-IsRefused a) (λ bad. nack-IsRefused a e)

  -- The result of a gated command: it was refused, or the request was authorised.
  abbrev Passes : App → App → Type 0
  Passes a r = IsRefused a r ⊎ IsAuthorised env a.auth p

  module _ (sized : ShaSized env) (d : IsDelivered p) where
    authorised :
        (a : App)
        → a.auth.required ≡ true
        → command_is_protected p.command ≡ true
        → is_err_ok (unwrap_packet env a.auth p).0 ≡ true
        → IsAuthorised env a.auth p
    authorised a req prot ok =
        unwrap_packet-IsAuthorised env a.auth a.sender a.history p sized d req prot
          (is_err_ok_lem _ ok)

    with_payload-Passes :
        (operation : OtaState → History → List ℕ → ℕ → OtaRun) (a : App)
        → a.auth.required ≡ true
        → command_is_protected p.command ≡ true
        → Passes a (with_payload_fresh env operation a p)
    unfolding with_payload_fresh
    with_payload-Passes operation a req prot =
        if_cases (Passes a) (is_err_ok (unwrap_packet env a.auth p).0)
          (λ ok. inr (authorised a req prot ok)) (λ bad. inl (answer-IsRefused a _))

    without_payload-Passes :
        (operation : OtaState → History → OtaRun) (a : App)
        → a.auth.required ≡ true
        → command_is_protected p.command ≡ true
        → Passes a (without_payload_fresh env operation a p)
    unfolding without_payload_fresh
    without_payload-Passes operation a req prot =
        if_cases (Passes a) (not (is_err_ok (unwrap_packet env a.auth p).0))
          (λ bad. inl (answer-IsRefused a _)) (λ good. inr (authorised a req prot (ground arith)))

    fresh_of-Passes :
        (o : GatedCommand) (a : App)
        → a.auth.required ≡ true
        → command_is_protected p.command ≡ true
        → Passes a (fresh_of env o a p)
    unfolding reboot_fresh rollback_fresh
    fresh_of-Passes reboots a req prot =
        if_cases (Passes a)
          (not (is_err_ok (unwrap_packet env a.auth p).0) || (unwrap_packet env a.auth p).1 != 0)
          (λ bad. inl (nack-IsRefused a _)) (λ good. inr (authorised a req prot (ground arith)))
    fresh_of-Passes rollbacks a req prot =
        if_cases (Passes a)
          (not (is_err_ok (unwrap_packet env a.auth p).0) || (unwrap_packet env a.auth p).1 != 0)
          (λ bad. inl (nack-IsRefused a _)) (λ good. inr (authorised a req prot (ground arith)))
    fresh_of-Passes begins a req prot = with_payload-Passes (Ota.begin env) a req prot
    fresh_of-Passes aborts a req prot = without_payload-Passes (Ota.abort env) a req prot
    fresh_of-Passes writes a req prot = with_payload-Passes (Ota.write_data env) a req prot
    fresh_of-Passes ends a req prot = without_payload-Passes (Ota.finish env) a req prot

    guarded-Passes :
        (o : GatedCommand) (a : App)
        → a.auth.required ≡ true
        → command_is_protected p.command ≡ true
        → Passes a (guarded env (fresh_of env o) a p)
    unfolding guarded handle_authenticated_replay
    guarded-Passes o a req prot = elim (Bool-cases (is_err_ok checked.result)) [
      | inl ok ↦ rw ok (
          if_cases (Passes a) checked.replayed
            (λ again. inl (record { quiet = seen; session = same_session a.auth }))
            (λ first. elim (fresh_of-Passes o a' req prot) [
              | inl quiet ↦ inl (IsRefused-after refl seen quiet)
              | inr can ↦ inr can
            ]))
      | inr bad ↦ rw bad (inl (IsRefused-after refl seen (nack-IsRefused a' checked.result)))
    ]
      where
        checked : Checked
        checked = check_replay env a.auth a.sender a.history p

        a' : App
        a' = record a { sender = checked.sender; history = checked.history }

        seen : IsQuiet a a'
        seen = record {
          ota_same = refl;
          effects_same = check_replay-effects env a.auth a.sender a.history p;
        }

    -- Where a key is required, a packet that comes with the payload in an array of bytes and is no
    -- request of an open session whose payload ends in the tag under the session key, has these
    -- effects at most: the OTA session is as it was, and no call was made but those that send or
    -- draw random numbers, so none that writes to flash, changes the boot partition, restarts the
    -- device or rolls it back; and where its command is a protected one, the key, the handshake and
    -- the session are as they were too. It is assumed that digests have 32 bytes.
    pub handle-IsAuthorised :
        (a : App)
        → a.auth.required ≡ true
        → (IsQuiet a (handle env a p)
            × ((command_is_protected p.command ≡ false)
                ⊎ IsSameSession a.auth (handle env a p).auth))
          ⊎ IsAuthorised env a.auth p
    handle-IsAuthorised a req =
        handle_cases env a p Ends
          (λ other. inl (plain_nack-IsQuiet env p a _, inr (plain_nacked p a _)))
          (λ un. free un (plain_ack-IsQuiet env p a)) (λ un. free un (get_info-IsQuiet env p a))
          (λ un. free un (handle_auth-IsQuiet env p a))
          (λ un. free un (plain_nack-IsQuiet env p a _))
          (λ o prot. elim (guarded-Passes o a req prot) [
            | inl k ↦ inl (k.quiet, inr k.session)
            | inr can ↦ inr can
          ])
      where
        Ends : App → Type 0
        Ends r =
            (IsQuiet a r × ((command_is_protected p.command ≡ false) ⊎ IsSameSession a.auth r.auth))
            ⊎ IsAuthorised env a.auth p

        free : {r : App} → command_is_protected p.command ≡ false → IsQuiet a r → Ends r
        free un quiet = inl (quiet, inl un)
