-- ===== src/Commands/Signed.antt =====
-- The OTA commands of `commands_handle_packet` of commands.c, sent with a tag in an open session.
use esp32_ota_link.Base.{
  ℕ, ◌+◌, ◌-◌, ◌≡◌, refl, sym, ap, subst, ◌∙◌, List, [], ◌∷◌, some, true, false, not, ◌||◌, arith,
  length, take_all, if◌then◌else◌, ◌!=◌,
}
use esp32_ota_link.Idf.{Env, History, wrote}
use esp32_ota_link.Protocol.Wire.{
  Packet, ProtocolError, err_ok, error_code, version_1, cmd_ack, cmd_nack, err_invalid_length,
}
use esp32_ota_link.Protocol.Frame.{frame, writer_in_use, IsReady}
use esp32_ota_link.Protocol.Sender.{send_packet}
use esp32_ota_link.Ota.{OtaState, OtaRun}
use esp32_ota_link.Ota
use esp32_ota_link.Auth.Hmac.{tag_size, compute_request_digest}
use esp32_ota_link.Auth.State.{command_is_protected}
use esp32_ota_link.Auth.Replay.{
  Responded, scan, fresh, resend, check_replay, signed_response, remember, respond_ack,
  respond_nack, send_response,
}
use esp32_ota_link.Auth.Cache.{ShaSized, length-signed_response, sent_signed, sent_frame}
use esp32_ota_link.Auth.Accept.{IsSigned, unwrap_packet_signed}
use esp32_ota_link.Commands.Cases.{fresh_of, after_check}
use esp32_ota_link.Commands.Route.{
  code_of, code_of-protected, handle-guarded, OtaRequest, begin_request, data_request, end_request,
  abort_request, gated, operation, HasShape,
}
use esp32_ota_link.Commands.{
  App, is_err_ok, ack, nack, answer, with_ota, guarded, handle_authenticated_replay,
  with_payload_fresh, without_payload_fresh, handle,
}

-- The response to an operation with this result.
abbrev pub reply_command : ProtocolError → ℕ
reply_command e = if is_err_ok e then cmd_ack else cmd_nack

-- A request that the device serves: signed, in an open session, with a command and a sequence
-- number that the replay cache does not know.
pub record IsServable (env : Env) (a : App) (p : Packet) : Type 0 where
  pub required : a.auth.required ≡ true
  pub session : a.auth.authenticated ≡ true
  pub signed : IsSigned env a.auth p
  pub new : scan a.auth.replay_cache p.command p.sequence (compute_request_digest env.sha p) ≡ fresh
  pub version : p.version ≡ version_1
  pub ready : IsReady a.sender

-- The operation was run, and its result answered under the session.
pub record IsSignedAnswer (env : Env) (a : App) (p : Packet) (run : OtaRun) (r : App) : Type 0 where
  pub ota_is : r.ota ≡ run.state
  pub history_is :
      r.history
      ≡ wrote (writer_in_use a.sender) (
          frame (reply_command run.result) p.sequence (
            signed_response env a.auth p (reply_command run.result) (error_code run.result ∷ []) 1))
        ∷ run.history
  pub auth_is :
      r.auth
      ≡ remember env a.auth p
          (reply_command run.result)
          (signed_response env a.auth p (reply_command run.result) (error_code run.result ∷ []) 1)
          (1 + tag_size)
  pub ready : IsReady r.sender

module _ (env : Env) (sized : ShaSized env) (a : App) (p : Packet) (k : IsServable env a p) where
  check_new :
      command_is_protected p.command ≡ true
      → check_replay env a.auth a.sender a.history p
        ≡ record { sender = a.sender; history = a.history; result = err_ok; replayed = false }
  unfolding check_replay resend
  check_new prot =
      let gate : (not a.auth.required || not (command_is_protected p.command)) ≡ false =
        ground (arith, k.required) in
      let live : not a.auth.authenticated ≡ false = ground (arith, k.session) in
      rw (gate, live) (ap (resend a.sender a.history p) k.new)

  guarded_new :
      (fresh_handler : App → Packet → App)
      → command_is_protected p.command ≡ true
      → guarded env fresh_handler a p ≡ fresh_handler a p
  unfolding guarded handle_authenticated_replay
  guarded_new fresh_handler prot = ap (after_check env a p fresh_handler) (check_new prot)

  with_payload_signed :
      (operation : OtaState → History → List ℕ → ℕ → OtaRun)
      → command_is_protected p.command ≡ true
      → let run = operation a.ota a.history p.payload (p.length - tag_size) in
        with_payload_fresh env operation a p ≡ answer env (with_ota a run) p run.result
  unfolding with_payload_fresh
  with_payload_signed operation prot =
      ap after (unwrap_packet_signed env a.auth p sized k.required k.session prot k.signed)
    where
      after : ProtocolError × ℕ → App
      after r =
          let run = operation a.ota a.history p.payload r.1 in
          if is_err_ok r.0 then answer env (with_ota a run) p run.result else answer env a p r.0

  without_payload_signed :
      (operation : OtaState → History → OtaRun)
      → command_is_protected p.command ≡ true
      → p.length - tag_size ≡ 0
      → let run = operation a.ota a.history in
        without_payload_fresh env operation a p ≡ answer env (with_ota a run) p run.result
  unfolding without_payload_fresh
  without_payload_signed operation prot empty = ap after (
      unwrap_packet_signed env a.auth p sized k.required k.session prot k.signed
      ∙ ap (λ n. (err_ok, n)) empty)
    where
      after : ProtocolError × ℕ → App
      after r =
          let run = operation a.ota a.history in
          if not (is_err_ok r.0)
          then answer env a p r.0
          else if r.1 != 0
          then answer env a p err_invalid_length
          else answer env (with_ota a run) p run.result

  -- The response under the session: signed, sent as one frame, and remembered.
  signed_sent :
      (command code : ℕ) (h : History)
      → command_is_protected p.command ≡ true
      → let r = send_response env a.auth a.sender h p command (code ∷ []) 1 in
        let response = signed_response env a.auth p command (code ∷ []) 1 in
        (r.history ≡ wrote (writer_in_use a.sender) (frame command p.sequence response) ∷ h)
        × (r.auth ≡ remember env a.auth p command response (1 + tag_size))
        × IsReady r.sender
  signed_sent command code h prot =
      subst
        (λ (r : Responded).
          (r.history ≡ wrote (writer_in_use a.sender) (frame command p.sequence response) ∷ h)
          × (r.auth ≡ remember env a.auth p command response (1 + tag_size))
          × IsReady r.sender)
        (sym (
          sent_signed env a.auth a.sender h p command 1 (code ∷ []) k.required k.session prot
            (omega arith)))
        (sent.0, refl, sent.1)
    where
      response : List ℕ
      response = signed_response env a.auth p command (code ∷ []) 1

      len : length response ≡ 1 + tag_size
      len = length-signed_response env sized a.auth p command (code ∷ []) 1 (omega arith)

      sent :
          let r = send_packet a.sender command p.sequence (some response) (1 + tag_size) h in
          (r.1 ≡ wrote (writer_in_use a.sender) (frame command p.sequence response) ∷ h)
          × IsReady r.0
      sent =
          sent_frame a.sender command p.sequence (1 + tag_size) response response h k.ready
            (omega arith) (omega (arith, len))
            (take_all response (1 + tag_size) (omega (arith, len)))

  answered_signed :
      (s : OtaState) (h : History) (e : ProtocolError)
      → command_is_protected p.command ≡ true
      → IsSignedAnswer env a p (Ota.ran s h e) (answer env (with_ota a (Ota.ran s h e)) p e)
  unfolding answer ack nack respond_ack respond_nack
  answered_signed s h err_ok prot =
      let sent = signed_sent cmd_ack (error_code err_ok) h prot in
      record { ota_is = refl; history_is = sent.0; auth_is = sent.1; ready = sent.2 }
  answered_signed s h e prot =
      let sent = signed_sent cmd_nack (error_code e) h prot in
      record { ota_is = refl; history_is = sent.0; auth_is = sent.1; ready = sent.2 }

-- What the OTA manager makes of the request without its tag.
abbrev pub served : Env → OtaRequest → App → Packet → OtaRun
served env o a p = operation env o a.ota a.history p.payload (p.length - tag_size)

module _ (env : Env) (sized : ShaSized env) (a : App) (p : Packet) where
  fresh_of_signed :
      (o : OtaRequest)
      → IsServable env a p
      → command_is_protected p.command ≡ true
      → HasShape o (p.length - tag_size)
      → fresh_of env (gated o) a p
        ≡ answer env (with_ota a (served env o a p)) p (served env o a p).result
  fresh_of_signed begin_request k prot shape =
      with_payload_signed env sized a p k (Ota.begin env) prot
  fresh_of_signed data_request k prot shape =
      with_payload_signed env sized a p k (Ota.write_data env) prot
  fresh_of_signed end_request k prot shape =
      without_payload_signed env sized a p k (Ota.finish env) prot shape
  fresh_of_signed abort_request k prot shape =
      without_payload_signed env sized a p k (Ota.abort env) prot shape

  -- A request to the OTA manager that the host signed, in an open session and with a command and a
  -- sequence number that the replay cache does not know: the operation runs once, on the payload
  -- without the tag, and its result is answered by one frame, ACK or NACK with the error code, with
  -- the request's sequence number and the device's tag; the response is stored for repetitions.
  pub handle-IsSignedAnswer :
      (o : OtaRequest)
      → IsServable env a p
      → p.command ≡ code_of (gated o)
      → HasShape o (p.length - tag_size)
      → IsSignedAnswer env a p (served env o a p) (handle env a p)
  handle-IsSignedAnswer o k c shape =
      let prot : command_is_protected p.command ≡ true =
        ap command_is_protected c ∙ code_of-protected (gated o) in
      let run = served env o a p in
      subst (IsSignedAnswer env a p run)
        (sym (
          handle-guarded env a (gated o) p k.version c
          ∙ guarded_new env sized a p k (fresh_of env (gated o)) prot
          ∙ fresh_of_signed o k prot shape))
        (answered_signed env sized a p k run.state run.history run.result prot)
