-- ===== src/Auth/Retry.antt =====
-- Requests that repeat a command and a sequence number in a session: the same request gets the
-- response of the first time, another one is refused.
use esp32_ota_link.Base.{
  ℕ, ◌+◌, ◌≤◌, ◌≡◌, refl, sym, ap, subst, ◌∙◌, List, ◌∷◌, some, true, false, not, arith,
  if◌then◌else◌, length, take, take_all, length-overwrite, get_or,
}
use esp32_ota_link.Idf.{Env, History, wrote}
use esp32_ota_link.Protocol.Wire.{Packet, err_ok, err_auth_required, max_payload}
use esp32_ota_link.Protocol.Sender.{Sender, send_packet}
use esp32_ota_link.Protocol.Frame.{frame, writer_in_use, IsReady}
use esp32_ota_link.Auth.Hmac.{tag_size, constant_time_equal, compute_request_digest}
use esp32_ota_link.Auth.State.{AuthState, ReplayEntry, empty_entry, command_is_protected}
use esp32_ota_link.Auth.Replay.{
  fresh, clash, hit, scan, resend, Checked, Responded, check_replay, signed_response, remember,
  send_response,
}
use esp32_ota_link.Auth.Cache.{
  ShaSized, IsCache, length-signed_response, digest_self, stored, stored_response, check_remembered,
  sent_signed, sent_frame,
}

-- A protected request in a session that is answered for the first time: the bytes sent are the
-- signed response, and the same request once more is answered with the same bytes and reaches
-- no operation, whatever the response was.
pub retry_same_bytes :
    (env : Env) (s : AuthState) (t : Sender) (h : History) (p : Packet) (command n : ℕ)
    (payload : List ℕ)
    → ShaSized env
    → IsCache s
    → IsReady t
    → s.required ≡ true
    → s.authenticated ≡ true
    → command_is_protected p.command ≡ true
    → n ≤ length payload
    → n + tag_size ≤ max_payload
    → scan s.replay_cache p.command p.sequence (compute_request_digest env.sha p) ≡ fresh
    → let response = frame command p.sequence (signed_response env s p command payload n) in
      let first = send_response env s t h p command payload n in
      let second = check_replay env first.auth first.sender first.history p in
      (first.history ≡ wrote (writer_in_use t) response ∷ h)
      × (second.history ≡ wrote (writer_in_use first.sender) response ∷ first.history)
      × (second.result ≡ err_ok)
      × (second.replayed ≡ true)
unfolding resend
retry_same_bytes env s t h p command n payload sized c ready req session prot enough small new =
    subst Same (sym (sent_signed env s t h p command n payload req session prot small))
      (sent.0, replayed.0, replayed.1, replayed.2)
  where
    response : List ℕ
    response = signed_response env s p command payload n

    run : Sender × History
    run = send_packet t command p.sequence (some response) (n + tag_size) h

    Replayed : Checked → Type 0
    Replayed second =
        (second.history ≡ wrote (writer_in_use run.0) (frame command p.sequence response) ∷ run.1)
        × (second.result ≡ err_ok)
        × (second.replayed ≡ true)

    Same : Responded → Type 0
    Same first =
        let second = check_replay env first.auth first.sender first.history p in
        (first.history ≡ wrote (writer_in_use t) (frame command p.sequence response) ∷ h)
        × (second.history
            ≡ wrote (writer_in_use first.sender) (frame command p.sequence response)
              ∷ first.history)
        × (second.result ≡ err_ok)
        × (second.replayed ≡ true)

    len : length response ≡ n + tag_size
    len = length-signed_response env sized s p command payload n enough

    sent : (run.1 ≡ wrote (writer_in_use t) (frame command p.sequence response) ∷ h) × IsReady run.0
    sent =
        sent_frame t command p.sequence (n + tag_size) response response h ready small
          (omega (arith, len)) (take_all response (n + tag_size) (omega (arith, len)))

    entry : ReplayEntry
    entry = stored env s p command (n + tag_size) response

    resent :
        ((send_packet run.0 command p.sequence (some entry.response_payload) (n + tag_size) run.1).1
          ≡ wrote (writer_in_use run.0) (frame command p.sequence response) ∷ run.1)
        × IsReady
            (send_packet run.0 command p.sequence
              (some entry.response_payload)
              (n + tag_size)
              run.1).0
    resent =
        sent_frame run.0 command p.sequence (n + tag_size) entry.response_payload response run.1
          sent.1 small
          (omega (
            arith,
            length-overwrite
                (get_or s.replay_cache s.next_replay_entry empty_entry).response_payload 0
                (take (n + tag_size) response),
            c.arrays s.next_replay_entry,
          ))
          (stored_response env s p command (n + tag_size) response c small len)

    same :
        (if not (
            constant_time_equal
              (compute_request_digest env.sha p)
              (compute_request_digest env.sha p)
              32)
          then clash
          else hit entry)
        ≡ hit entry
    same = rw (digest_self env sized p) refl

    remembered :
        check_replay env (remember env s p command response (n + tag_size)) run.0 run.1 p
        ≡ resend run.0 run.1 p (
            if not (
              constant_time_equal
                (compute_request_digest env.sha p)
                (compute_request_digest env.sha p)
                32)
            then clash
            else hit entry)
    remembered =
        check_remembered env s p command (n + tag_size) response c req session p refl refl prot new
          run.0 run.1

    replayed :
        Replayed (check_replay env (remember env s p command response (n + tag_size)) run.0 run.1 p)
    replayed =
        subst Replayed (sym (remembered ∙ ap (resend run.0 run.1 p) same)) (resent.0, refl, refl)

-- A protected request that repeats the command and the sequence number of one that was answered in
-- the session, with other bytes (another digest), is refused with ERR_AUTH_REQUIRED before its tag
-- is looked at; nothing is sent by the check. The first request need not have had a valid tag.
pub other_request_refused :
    (env : Env) (s : AuthState) (t : Sender) (h : History) (p q : Packet) (command n : ℕ)
    (payload : List ℕ)
    → IsCache s
    → s.required ≡ true
    → s.authenticated ≡ true
    → p.command ≡ q.command
    → p.sequence ≡ q.sequence
    → command_is_protected q.command ≡ true
    → n + tag_size ≤ max_payload
    → constant_time_equal (compute_request_digest env.sha p) (compute_request_digest env.sha q) 32
      ≡ false
    → scan s.replay_cache q.command q.sequence (compute_request_digest env.sha q) ≡ fresh
    → let first = send_response env s t h p command payload n in
      check_replay env first.auth first.sender first.history q ≡ record {
        sender = first.sender;
        history = first.history;
        result = err_auth_required;
        replayed = false;
      }
unfolding resend
other_request_refused env s t h p q command n payload c req session commands sequences prot small
      differ new =
    subst
      (λ (first : Responded). check_replay env first.auth first.sender first.history q ≡ record {
        sender = first.sender;
        history = first.history;
        result = err_auth_required;
        replayed = false;
      })
      (sym (
        sent_signed env s t h p command n payload req session
          (ap command_is_protected commands ∙ prot) small))
      (check_remembered env s p command (n + tag_size) response c req session q commands sequences
          prot new run.0 run.1
        ∙ ap (resend run.0 run.1 q) refused)
  where
    response : List ℕ
    response = signed_response env s p command payload n

    run : Sender × History
    run = send_packet t command p.sequence (some response) (n + tag_size) h

    refused :
        (if not (
            constant_time_equal
              (compute_request_digest env.sha p)
              (compute_request_digest env.sha q)
              32)
          then clash
          else hit (stored env s p command (n + tag_size) response))
        ≡ clash
    refused = rw differ refl
