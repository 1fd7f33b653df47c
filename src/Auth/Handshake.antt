-- ===== src/Auth/Handshake.antt =====
-- The handshake of `auth_handle_packet`: what it takes to open a session, and what a new challenge
-- ends.
use esp32_ota_link.Base.{
  ℕ, ◌+◌, ◌≡◌, ◌≢◌, refl, ◌⊎◌, inl, inr, List, Option, none, some, true, false, not, arith, ◌==◌,
  if_cases, Bool-cases, take, drop, ◌∷◌, ◌++◌, sym, ap, subst, ◌∙◌, length, length-append,
  length-take, take_all,
}
use esp32_ota_link.Idf.{Env, History, wrote, filled_random}
use esp32_ota_link.Protocol.Wire.{Packet, err_ok, error_code, cmd_ack}
use esp32_ota_link.Protocol.Sender.{Sender}
use esp32_ota_link.Protocol.Frame.{frame, writer_in_use, IsReady, send_packet_lem}
use esp32_ota_link.Auth.Cache.{ShaSized}
use esp32_ota_link.Auth.Accept.{prefixed-sized}
use esp32_ota_link.Auth.Hmac.{
  nonce_size, tag_size, auth_proof_prefix, device_proof_prefix, hmac_sha256,
  hmac_prefixed_nonce_pair, constant_time_equal,
}
use esp32_ota_link.Auth.State.{
  AuthState, AuthRun, handle_packet, start_challenge, open_session, send_challenge,
  complete_challenge, proof_holds, tag_matches, clear_replay_cache, empty_entry,
}
use esp32_ota_link.Auth.Replay.{scan, fresh}

-- A proof for the challenge in the state: the client's nonce, and the tag that the key gives.
pub record IsProof (env : Env) (s : AuthState) (p : Packet) : Type 0 where
  pub sized : p.length ≡ nonce_size + tag_size
  pub challenged : s.pending ≡ true
  pub nonce : constant_time_equal p.payload s.client_nonce nonce_size ≡ true
  pub tag :
      tag_matches env (drop nonce_size p.payload) (
        hmac_prefixed_nonce_pair env.sha auth_proof_prefix s.key s.key_len s.client_nonce
          s.server_nonce)
      ≡ true

module _ (env : Env) (t : Sender) (p : Packet) where
  abbrev Opens : AuthState → AuthRun → Type 0
  Opens s r = r.auth.authenticated ≡ true → (s.authenticated ≡ true) ⊎ IsProof env s p

  send_challenge-idle :
      (s : AuthState) (h : History) (o : Option (List ℕ))
      → s.authenticated ≡ false
      → (send_challenge env s t h p o).auth.authenticated ≢ true
  unfolding send_challenge
  send_challenge-idle s h none idle e = absurd (cc)
  send_challenge-idle s h (some proof) idle e = absurd (cc)

  open_session-authenticated :
      (s : AuthState) (h : History) (o : Option (List ℕ))
      → (open_session env s t h p o).auth.authenticated ≡ true
      → s.authenticated ≡ true
  unfolding open_session clear_replay_cache
  open_session-authenticated s h none e = e
  open_session-authenticated s h (some key) e = absurd (
      send_challenge-idle
        (clear_replay_cache (record s { session_key = key; pending = true; authenticated = false }))
        h
        (hmac_prefixed_nonce_pair env.sha device_proof_prefix s.key s.key_len s.client_nonce
          s.server_nonce)
        refl e)

  complete_challenge-Opens :
      (s : AuthState) (h : History)
      → p.length ≡ nonce_size + tag_size
      → Opens s (complete_challenge env s t h p)
  unfolding complete_challenge proof_holds
  complete_challenge-Opens s h sized =
      if_cases (Opens s) (not (proof_holds env s p)) (λ bad e. inl e)
        (λ good e. elim (Bool-cases s.authenticated) [
          | inl already ↦ inl already
          | inr idle ↦ inr (record {
            sized = sized;
            challenged = ground arith;
            nonce = ground arith;
            tag = ground arith;
          })
        ])

  -- `auth_handle_packet` leaves a session open only if it was open before, or if the packet is the
  -- proof for the pending challenge: 32 bytes, the nonce that the client sent, and the tag that the
  -- key gives for the two nonces.
  pub handle_packet-IsProof :
      (s : AuthState) (h : History)
      → (handle_packet env s t h p).auth.authenticated ≡ true
      → (s.authenticated ≡ true) ⊎ IsProof env s p
  unfolding handle_packet start_challenge
  handle_packet-IsProof s h =
      if_cases (Opens s) (not s.required) (λ off e. inl e)
        (λ on.
          if_cases (Opens s) (p.length == nonce_size)
            (λ first e. inl (open_session-authenticated (challenged s h) _ _ e))
            (λ later.
              if_cases (Opens s) (p.length == 32)
                (λ second. complete_challenge-Opens s h (ground arith)) (λ other e. inl e)))
    where
      challenged : AuthState → History → AuthState
      challenged q g = record q {
        client_nonce = take nonce_size p.payload;
        server_nonce = env.fill_random g nonce_size;
      }

  -- What the answer to a challenge puts on the line.
  send_challenge-sent :
      (s : AuthState) (h : History) (o : Option (List ℕ)) (proof : List ℕ)
      → o ≡ some proof
      → IsReady t
      → length s.server_nonce ≡ nonce_size
      → length proof ≡ 32
      → (send_challenge env s t h p o).history
        ≡ wrote
            (writer_in_use t)
            (frame cmd_ack p.sequence (error_code err_ok ∷ (s.server_nonce ++ take tag_size proof)))
          ∷ h
  unfolding send_challenge
  send_challenge-sent s h o proof e ready nonce_sized proof_sized =
      let response = error_code err_ok ∷ (s.server_nonce ++ take tag_size proof) in
      let long : length response ≡ 33 = omega (
        arith,
        nonce_sized,
        proof_sized,
        length-append s.server_nonce (take tag_size proof),
        length-take tag_size proof,
      ) in
      subst
        (λ (q : Option (List ℕ)).
          (send_challenge env s t h p q).history
          ≡ wrote (writer_in_use t) (frame cmd_ack p.sequence response) ∷ h)
        (sym e)
        ((send_packet_lem t cmd_ack p.sequence 33 response h ready (omega arith)
            (omega (arith, long))).0
          ∙ ap (λ bytes. wrote (writer_in_use t) (frame cmd_ack p.sequence bytes) ∷ h)
              (take_all response 33 (omega (arith, long))))

  -- A packet of 16 bytes is a new challenge. It is answered with exactly one frame, which repeats
  -- its sequence number and carries ERR_OK, a fresh nonce and the first 16 bytes of the device's
  -- proof, the keyed hash of both nonces; the session that was open is over, the challenge waits
  -- for its proof with the two nonces kept, and the replay cache knows no request. It is assumed
  -- that the digests and the random bytes have the size that was asked for.
  pub new_challenge :
      (s : AuthState) (h : History) (proof : List ℕ)
      → ShaSized env
      → IsReady t
      → length (env.fill_random h nonce_size) ≡ nonce_size
      → s.required ≡ true
      → p.length ≡ nonce_size
      → hmac_prefixed_nonce_pair env.sha device_proof_prefix s.key s.key_len
          (take nonce_size p.payload)
          (env.fill_random h nonce_size)
        ≡ some proof
      → let r = handle_packet env s t h p in
        let server = env.fill_random h nonce_size in
        (r.result ≡ err_ok)
        × (r.history
            ≡ wrote
                (writer_in_use t)
                (frame cmd_ack p.sequence (error_code err_ok ∷ (server ++ take tag_size proof)))
              ∷ filled_random server
              ∷ h)
        × (r.auth.authenticated ≡ false)
        × (r.auth.pending ≡ true)
        × (r.auth.client_nonce ≡ take nonce_size p.payload)
        × (r.auth.server_nonce ≡ server)
        × ((command sequence : ℕ) (digest : List ℕ)
            → scan r.auth.replay_cache command sequence digest ≡ fresh)
  unfolding handle_packet start_challenge open_session send_challenge clear_replay_cache
      hmac_prefixed_nonce_pair hmac_sha256 scan empty_entry
  new_challenge s h proof sized ready random req len e =
      let on : not s.required ≡ false = ground arith in
      let first : (p.length == nonce_size) ≡ true = ground arith in
      let server = env.fill_random h nonce_size in
      let proof_sized =
        (prefixed-sized env sized device_proof_prefix s.key (take nonce_size p.payload) server proof
          s.key_len e).0 in
      rw (on, first)
        (
          refl,
          send_challenge-sent (record s { server_nonce = server }) (filled_random server ∷ h) _
              proof e ready random proof_sized,
          refl,
          refl,
          refl,
          refl,
          λ command sequence digest. refl,
        )
