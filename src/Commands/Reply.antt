-- ===== src/Commands/Reply.antt =====
-- How `commands_handle_packet` answers, and when it restarts the device.
use esp32_ota_link.Base.{
  ℕ, suc, ◌≡◌, refl, ap, subst, ◌∙◌, ◌⊎◌, inl, inr, List, [], ◌∷◌, Option, none, some, false, not,
  ◌||◌, ◌!=◌, if_cases, if◌then◌else◌,
}
use esp32_ota_link.Idf.{Env, History}
use esp32_ota_link.Idf.Traffic.{writes, resets, IsSilent}
use esp32_ota_link.Protocol.Wire.{
  Packet, ProtocolError, err_ok, err_busy, err_auth_required, err_invalid_length,
  err_rollback_not_available, error_code, cmd_ack, cmd_nack, cmd_info, max_payload,
}
use esp32_ota_link.Protocol.Sender.{send_ack, send_nack}
use esp32_ota_link.Protocol.Sent.{IsReply, IsReply-after, send_packet-IsReply, sent_bytes}
use esp32_ota_link.Ota.{OtaState, OtaRun}
use esp32_ota_link.Ota
use esp32_ota_link.Ota.Silent.{begin-IsSilent, write_data-IsSilent, abort-IsSilent, finish-IsSilent}
use esp32_ota_link.Auth.State.{ReplayEntry, AuthRun, handle_packet, unwrap_packet}
use esp32_ota_link.Auth.Replay.{respond_ack, respond_nack, resend}
use esp32_ota_link.Auth.Reply.{send_response-IsReply, Shakes, handle_packet-Shakes}
use esp32_ota_link.Info.Build.{Out, build_payload}
use esp32_ota_link.Commands.Quiet.{is_err_ok_lem}
use esp32_ota_link.Commands.Cases.{
  GatedCommand, reboots, rollbacks, begins, aborts, ends, fresh_of, handle_cases, guarded_cases,
  resent,
}
use esp32_ota_link.Commands.{
  App, is_err_ok, plain_ack, plain_nack, ack, nack, answer, sent_info, handle_get_info, handle_auth,
  handle, reboot_fresh, rollback_fresh, with_payload_fresh, without_payload_fresh, with_ota,
}

module _ (env : Env) (p : Packet) where
  -- One reply, to the application's state before.
  abbrev Replies : App → App → Type 0
  Replies a r = IsReply a.sender p.sequence a.history r.history

  plain_nack-Replies : (a : App) (e : ProtocolError) → Replies a (plain_nack a p e)
  unfolding plain_nack send_nack
  plain_nack-Replies a e =
      send_packet-IsReply a.sender cmd_nack p.sequence (some (error_code e ∷ [])) 1 a.history

  plain_ack-Replies : (a : App) → Replies a (plain_ack a p)
  unfolding plain_ack send_ack
  plain_ack-Replies a =
      send_packet-IsReply a.sender cmd_ack p.sequence (some (error_code err_ok ∷ [])) 1 a.history

  nack-Replies : (a : App) (e : ProtocolError) → Replies a (nack env a p e)
  unfolding nack respond_nack
  nack-Replies a e =
      send_response-IsReply env p a.auth a.sender a.history cmd_nack (error_code e ∷ []) 1

  ack-Replies : (a : App) → Replies a (ack env a p)
  unfolding ack respond_ack
  ack-Replies a =
      send_response-IsReply env p a.auth a.sender a.history cmd_ack (error_code err_ok ∷ []) 1

  answer-Replies : (a : App) (e : ProtocolError) → Replies a (answer env a p e)
  unfolding answer
  answer-Replies a e =
      if_cases (Replies a) (is_err_ok e) (λ ok. ack-Replies a) (λ bad. nack-Replies a e)

  sent_info-Replies : (a : App) (o : Option Out) → Replies a (sent_info env a p o)
  unfolding sent_info
  sent_info-Replies a none = plain_nack-Replies a err_invalid_length
  sent_info-Replies a (some o) =
      send_packet-IsReply a.sender cmd_info p.sequence (some o.buffer) o.offset a.history

  get_info-Replies : (a : App) → Replies a (handle_get_info env a p)
  unfolding handle_get_info
  get_info-Replies a =
      sent_info-Replies a (build_payload env a.history a.boot_count a.info_payload max_payload)

  after_shake :
      (a : App) (r : AuthRun)
      → Shakes env p a.sender a.history r
      → Replies a (
          let a' = record a { auth = r.auth; sender = r.sender; history = r.history } in
          if is_err_ok r.result then a' else plain_nack a' p r.result)
  after_shake a r (inl (ok, reply)) = rw ok reply
  after_shake a r (inr (bad, same, silent)) =
      let a' = record a { auth = r.auth; sender = r.sender; history = r.history } in
      if_cases (Replies a) (is_err_ok r.result) (λ ok. absurd (bad (is_err_ok_lem r.result ok)))
        (λ no. IsReply-after a.sender p.sequence a.history r.history _ silent (
          subst (λ t. IsReply t p.sequence r.history (plain_nack a' p r.result).history) same
            (plain_nack-Replies a' r.result)))

  handle_auth-Replies : (a : App) → Replies a (handle_auth env a p)
  unfolding handle_auth
  handle_auth-Replies a =
      after_shake a (handle_packet env a.auth a.sender a.history p)
        (handle_packet-Shakes env p a.auth a.sender a.history)

  -- See the theorems at the end.
  pub record IsAnswered (a r : App) : Type 0 where
    pub command : ℕ
    pub payload : Option (List ℕ)
    pub size : ℕ
    pub said :
        writes r.history ≡ sent_bytes a.sender command p.sequence payload size ∷ writes a.history
    pub safe :
        (resets r.history ≡ resets a.history)
        ⊎ ((resets r.history ≡ suc (resets a.history)) × (a.ota.active ≡ false))

  Replies-IsAnswered : (a r : App) → Replies a r → IsAnswered a r
  Replies-IsAnswered a r q = record {
    command = q.command;
    payload = q.payload;
    size = q.size;
    said = q.said;
    safe = inl q.no_reset;
  }

  -- An answer after an OTA operation.
  ran-IsAnswered :
      (a : App) (run : OtaRun) (e : ProtocolError)
      → IsSilent a.history run.history
      → IsAnswered a (answer env (with_ota a run) p e)
  ran-IsAnswered a run e silent = Replies-IsAnswered a _ (
      IsReply-after a.sender p.sequence a.history run.history _ silent
        (answer-Replies (with_ota a run) e))

  with_payload-IsAnswered :
      (operation : OtaState → History → List ℕ → ℕ → OtaRun)
      → ((s : OtaState) (h : History) (payload : List ℕ) (n : ℕ)
          → IsSilent h (operation s h payload n).history)
      → (a : App) → IsAnswered a (with_payload_fresh env operation a p)
  unfolding with_payload_fresh
  with_payload-IsAnswered operation silent a =
      if_cases (IsAnswered a) (is_err_ok (unwrap_packet env a.auth p).0)
        (λ ok.
          let n = (unwrap_packet env a.auth p).1 in
          let run = operation a.ota a.history p.payload n in
          ran-IsAnswered a run run.result (silent a.ota a.history p.payload n))
        (λ bad. Replies-IsAnswered a _ (answer-Replies a _))

  without_payload-IsAnswered :
      (operation : OtaState → History → OtaRun)
      → ((s : OtaState) (h : History) → IsSilent h (operation s h).history)
      → (a : App) → IsAnswered a (without_payload_fresh env operation a p)
  unfolding without_payload_fresh
  without_payload-IsAnswered operation silent a =
      if_cases (IsAnswered a) (not (is_err_ok (unwrap_packet env a.auth p).0))
        (λ bad. Replies-IsAnswered a _ (answer-Replies a _))
        (λ ok.
          if_cases (IsAnswered a) ((unwrap_packet env a.auth p).1 != 0)
            (λ long. Replies-IsAnswered a _ (answer-Replies a err_invalid_length))
            (λ empty.
              let run = operation a.ota a.history in
              ran-IsAnswered a run run.result (silent a.ota a.history)))

  -- An acknowledgement and then a restart.
  reset-IsAnswered :
      (a : App) (h : History)
      → a.ota.active ≡ false
      → writes h ≡ writes (ack env a p).history
      → resets h ≡ suc (resets (ack env a p).history)
      → IsAnswered a (record (ack env a p) { history = h })
  reset-IsAnswered a h idle same one =
      let q = ack-Replies a in
      record {
        command = q.command;
        payload = q.payload;
        size = q.size;
        said = same ∙ q.said;
        safe = inr (one ∙ ap suc q.no_reset, idle);
      }

  fresh_of-IsAnswered : (o : GatedCommand) (a : App) → IsAnswered a (fresh_of env o a p)
  unfolding reboot_fresh rollback_fresh Ota.is_active
  fresh_of-IsAnswered reboots a =
      if_cases (IsAnswered a)
        (not (is_err_ok (unwrap_packet env a.auth p).0) || (unwrap_packet env a.auth p).1 != 0)
        (λ bad. Replies-IsAnswered a _ (nack-Replies a _))
        (λ good.
          if_cases (IsAnswered a) a.ota.active
            (λ busy. Replies-IsAnswered a _ (nack-Replies a err_busy))
            (λ idle. reset-IsAnswered a _ idle refl refl))
  fresh_of-IsAnswered rollbacks a =
      if_cases (IsAnswered a)
        (not (is_err_ok (unwrap_packet env a.auth p).0) || (unwrap_packet env a.auth p).1 != 0)
        (λ bad. Replies-IsAnswered a _ (nack-Replies a _))
        (λ good.
          if_cases (IsAnswered a) a.ota.active
            (λ busy. Replies-IsAnswered a _ (nack-Replies a err_busy))
            (λ idle.
              if_cases (IsAnswered a) (not (env.rollback_possible a.history))
                (λ no. Replies-IsAnswered a _ (nack-Replies a err_rollback_not_available))
                (λ yes. reset-IsAnswered a _ idle refl refl)))
  fresh_of-IsAnswered begins a = with_payload-IsAnswered (Ota.begin env) (begin-IsSilent env) a
  fresh_of-IsAnswered GatedCommand.writes a =
      with_payload-IsAnswered (Ota.write_data env) (write_data-IsSilent env) a
  fresh_of-IsAnswered aborts a = without_payload-IsAnswered (Ota.abort env) (abort-IsSilent env) a
  fresh_of-IsAnswered ends a = without_payload-IsAnswered (Ota.finish env) (finish-IsSilent env) a

  resent-Replies : (a : App) (e : ReplayEntry) → Replies a (resent env a p e)
  unfolding resend
  resent-Replies a e =
      send_packet-IsReply a.sender e.response_command p.sequence (some e.response_payload)
        e.response_length a.history

  -- Whatever packet arrives, `commands_handle_packet` answers it: exactly one frame is written, by
  -- one `protocol_send_packet` that carries the packet's own sequence number. And it restarts or
  -- rolls back the device at most once, and only if no OTA session is active.
  pub handle-IsAnswered : (a : App) → IsAnswered a (handle env a p)
  handle-IsAnswered a =
      handle_cases env a p (IsAnswered a) (λ other. Replies-IsAnswered a _ (plain_nack-Replies a _))
        (λ free. Replies-IsAnswered a _ (plain_ack-Replies a))
        (λ free. Replies-IsAnswered a _ (get_info-Replies a))
        (λ free. Replies-IsAnswered a _ (handle_auth-Replies a))
        (λ free. Replies-IsAnswered a _ (plain_nack-Replies a _))
        (λ o prot.
          guarded_cases env a p (fresh_of env o) (IsAnswered a)
            (Replies-IsAnswered a _ (nack-Replies a err_auth_required)) (fresh_of-IsAnswered o a)
            (λ e. Replies-IsAnswered a _ (resent-Replies a e)))
