-- ===== src/Auth/Reply.antt =====
-- How auth.c answers: a response under a session is one frame, and so is each step of the
-- handshake that succeeds.
use esp32_ota_link.Base.{
  ℕ, ◌+◌, ◌≡◌, ◌≢◌, refl, ◌⊎◌, inl, inr, List, [], ◌∷◌, ◌++◌, Option, none, some, true, false, not,
  ◌&&◌, ltb, ◌==◌, if_cases, take,
}
use esp32_ota_link.Idf.{Env, History, filled_random}
use esp32_ota_link.Idf.Traffic.{IsSilent}
use esp32_ota_link.Protocol.Wire.{
  Packet, err_ok, err_invalid_length, error_code, cmd_ack, cmd_nack, max_payload,
}
use esp32_ota_link.Protocol.Sender.{Sender, send_ack, send_nack}
use esp32_ota_link.Protocol.Sent.{IsReply, IsReply-after, send_packet-IsReply}
use esp32_ota_link.Auth.Hmac.{nonce_size, tag_size, device_proof_prefix, hmac_prefixed_nonce_pair}
use esp32_ota_link.Auth.State.{
  AuthState, AuthRun, command_is_protected, clear_replay_cache, send_challenge, open_session,
  start_challenge, complete_challenge, proof_holds, handle_packet,
}
use esp32_ota_link.Auth.Replay.{Responded, signed_response, respond_signed, send_response}

module _ (env : Env) (p : Packet) where
  -- `auth_send_response` sends once, signed or not, or says that the response is too long.
  pub send_response-IsReply :
      (s : AuthState) (t : Sender) (h : History) (command : ℕ) (payload : List ℕ) (n : ℕ)
      → IsReply t p.sequence h (send_response env s t h p command payload n).history
  unfolding send_response respond_signed send_nack
  send_response-IsReply s t h command payload n =
      if_cases (λ (r : Responded). IsReply t p.sequence h r.history)
        (s.required && s.authenticated && command_is_protected p.command)
        (λ session.
          if_cases (λ (r : Responded). IsReply t p.sequence h r.history)
            (ltb max_payload (n + tag_size))
            (λ large.
              send_packet-IsReply t cmd_nack p.sequence (some (error_code err_invalid_length ∷ []))
                1 h)
            (λ fits.
              send_packet-IsReply t command p.sequence
                (some (signed_response env s p command payload n)) (n + tag_size) h))
        (λ plain. send_packet-IsReply t command p.sequence (some payload) n h)

  -- What the handshake leaves: on success one reply, and on an error none.
  abbrev pub Shakes : Sender → History → AuthRun → Type 0
  Shakes t h r =
      ((r.result ≡ err_ok) × IsReply t p.sequence h r.history)
      ⊎ ((r.result ≢ err_ok) × (r.sender ≡ t) × IsSilent h r.history)

  send_challenge-Shakes :
      (s : AuthState) (t : Sender) (h : History) (bytes : List ℕ) (o : Option (List ℕ))
      → Shakes t h (send_challenge env s t (filled_random bytes ∷ h) p o)
  unfolding send_challenge
  send_challenge-Shakes s t h bytes none =
      inr (λ q. absurd (cc), refl, record { no_write = refl; no_reset = refl })
  send_challenge-Shakes s t h bytes (some proof) = inl (
    refl,
    IsReply-after t p.sequence h (filled_random bytes ∷ h) _
        (record { no_write = refl; no_reset = refl })
        (send_packet-IsReply t cmd_ack p.sequence
          (some (error_code err_ok ∷ (s.server_nonce ++ take tag_size proof))) 33 _),
  )

  open_session-Shakes :
      (s : AuthState) (t : Sender) (h : History) (bytes : List ℕ) (o : Option (List ℕ))
      → Shakes t h (open_session env s t (filled_random bytes ∷ h) p o)
  unfolding open_session
  open_session-Shakes s t h bytes none =
      inr (λ q. absurd (cc), refl, record { no_write = refl; no_reset = refl })
  open_session-Shakes s t h bytes (some key) =
      send_challenge-Shakes
        (clear_replay_cache (record s { session_key = key; pending = true; authenticated = false }))
        t h bytes
        (hmac_prefixed_nonce_pair env.sha device_proof_prefix s.key s.key_len s.client_nonce
          s.server_nonce)

  pub handle_packet-Shakes :
      (s : AuthState) (t : Sender) (h : History) → Shakes t h (handle_packet env s t h p)
  unfolding handle_packet start_challenge complete_challenge send_ack
  handle_packet-Shakes s t h =
      if_cases (Shakes t h) (not s.required)
        (λ e. inr (λ q. absurd (cc), refl, record { no_write = refl; no_reset = refl }))
        (λ e.
          if_cases (Shakes t h) (p.length == nonce_size)
            (λ e.
              open_session-Shakes
                (record s {
                  client_nonce = take nonce_size p.payload;
                  server_nonce = env.fill_random h nonce_size;
                })
                t h (env.fill_random h nonce_size) _)
            (λ e.
              if_cases (Shakes t h) (p.length == 32)
                (λ e.
                  if_cases (Shakes t h) (not (proof_holds env s p))
                    (λ e. inr (λ q. absurd (cc), refl, record { no_write = refl; no_reset = refl }))
                    (λ e. inl (
                      refl,
                      send_packet-IsReply t cmd_ack p.sequence (some (error_code err_ok ∷ [])) 1 h,
                    )))
                (λ e. inr (λ q. absurd (cc), refl, record { no_write = refl; no_reset = refl }))))
