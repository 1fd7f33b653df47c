-- ===== src/Commands/Keyless.antt =====
-- The OTA commands of `commands_handle_packet` on a device without a key: the request goes to the
-- OTA manager as it is, and an operation that succeeds is acknowledged.
use esp32_ota_link.Base.{ℕ, ◌≡◌, refl, subst, sym, [], ◌∷◌, List, false, some, arith}
use esp32_ota_link.Idf.{Env, History, wrote}
use esp32_ota_link.Protocol.Wire.{
  Packet, err_ok, error_code, version_1, cmd_ack, cmd_ota_begin, cmd_ota_data, cmd_ota_end,
  cmd_ota_abort,
}
use esp32_ota_link.Protocol.Frame.{frame, writer_in_use, IsReady, send_packet_lem}
use esp32_ota_link.Protocol.Sender.{send_packet}
use esp32_ota_link.Ota.{OtaState, OtaRun, ran}
use esp32_ota_link.Ota
use esp32_ota_link.Auth.State.{unwrap_packet}
use esp32_ota_link.Auth.Replay.{check_replay, respond_ack, send_response}
use esp32_ota_link.Commands.Route.{
  code_of, OtaRequest, begin_request, data_request, end_request, abort_request, gated, operation,
  HasShape,
}
use esp32_ota_link.Commands.{
  App, ack, answer, with_ota, guarded, handle_authenticated_replay, with_payload_fresh,
  without_payload_fresh, dispatch, handle,
}

-- The acknowledgement of a request.
abbrev pub ack_frame : ℕ → List ℕ
ack_frame sequence = frame cmd_ack sequence (error_code err_ok ∷ [])

-- What an acknowledged operation leaves: its state and its calls, and then the acknowledgement.
pub record IsServed (a : App) (sequence : ℕ) (s : OtaState) (h : History) (r : App) : Type 0 where
  pub ota_is : r.ota ≡ s
  pub history_is : r.history ≡ wrote (writer_in_use a.sender) (ack_frame sequence) ∷ h
  pub auth_same : r.auth ≡ a.auth
  pub ready : IsReady r.sender

-- The answer to an operation that was run on the request.
abbrev pub answered : Env → App → Packet → OtaRun → App
answered env a p run = answer env (with_ota a run) p run.result

module _ (env : Env) (a : App) (p : Packet) where
  -- A property of the dispatcher where no key is required, on a packet with this command.
  keyless_at :
      (P : App → Packet → Type 0) (c : ℕ)
      → a.auth.required ≡ false
      → p.version ≡ version_1
      → p.command ≡ c
      → P
          (record a { auth = record a.auth { required = false } })
          (record p { version = version_1; command = c })
      → P a p
  keyless_at P c k v e t =
      subst (λ r. P (record a { auth = record a.auth { required = r } }) p) (sym k)
        (subst
          (λ n.
            P (record a { auth = record a.auth { required = false } }) (record p { version = n }))
          (sym v)
          (subst
            (λ n.
              P (record a { auth = record a.auth { required = false } })
                (record p { version = version_1; command = n }))
            (sym e) t))

  -- A request to the OTA manager, where no key is required.
  pub handle_keyless :
      (o : OtaRequest)
      → a.auth.required ≡ false
      → p.version ≡ version_1
      → p.command ≡ code_of (gated o)
      → HasShape o p.length
      → handle env a p ≡ answered env a p (operation env o a.ota a.history p.payload p.length)
  unfolding handle dispatch guarded handle_authenticated_replay check_replay with_payload_fresh
      without_payload_fresh unwrap_packet
  handle_keyless begin_request k v e shape =
      keyless_at
        (λ a p.
          handle env a p
          ≡ answered env a p (operation env begin_request a.ota a.history p.payload p.length))
        cmd_ota_begin k v e refl
  handle_keyless data_request k v e shape =
      keyless_at
        (λ a p.
          handle env a p
          ≡ answered env a p (operation env data_request a.ota a.history p.payload p.length))
        cmd_ota_data k v e refl
  handle_keyless end_request k v e shape =
      keyless_at
        (λ a p. p.length ≡ 0 → handle env a p ≡ answered env a p (Ota.finish env a.ota a.history))
        cmd_ota_end k v e (λ z. rw z refl) shape
  handle_keyless abort_request k v e shape =
      keyless_at
        (λ a p. p.length ≡ 0 → handle env a p ≡ answered env a p (Ota.abort env a.ota a.history))
        cmd_ota_abort k v e (λ z. rw z refl) shape

  pub acked_IsServed :
      (s : OtaState) (h : History)
      → a.auth.required ≡ false
      → IsReady a.sender
      → IsServed a p.sequence s h (answered env a p (ran s h err_ok))
  unfolding answer ack respond_ack send_response
  acked_IsServed s h keyless ready =
      subst
        (λ r.
          let a' = record a { auth = record a.auth { required = r } } in
          IsServed a' p.sequence s h (answered env a' p (ran s h err_ok)))
        (sym keyless)
        (record { ota_is = refl; history_is = out.0; auth_same = refl; ready = out.1 })
    where
      out :
          let r = send_packet a.sender cmd_ack p.sequence (some (error_code err_ok ∷ [])) 1 h in
          (r.1 ≡ wrote (writer_in_use a.sender) (ack_frame p.sequence) ∷ h) × IsReady r.0
      out =
          send_packet_lem a.sender cmd_ack p.sequence 1 (error_code err_ok ∷ []) h ready
            (omega arith) (omega arith)
