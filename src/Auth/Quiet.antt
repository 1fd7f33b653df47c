-- ===== src/Auth/Quiet.antt =====
-- The calls that sending and the handshake make, and the test of a request's tag.
use esp32_ota_link.Base.{
  ℕ, ◌+◌, ◌-◌, ◌≤◌, ◌≡◌, refl, inl, inr, List, [], ◌∷◌, Option, none, some, Option-cases, true, not,
  ◌&&◌, ◌||◌, arith, ltb, ◌==◌, if_cases, take, drop, zero, suc, IsBytes, length, length-drop,
}
use esp32_ota_link.Idf.{Env, History, wrote, filled_random}
use esp32_ota_link.Protocol.Wire.{
  Packet, ProtocolError, err_ok, err_auth_required, error_code, cmd_ack, cmd_nack, max_payload,
}
use esp32_ota_link.Protocol.Sender.{
  Sender, ensure_writer, fill_buffer, write_out, send_packet, send_ack, send_nack,
}
use esp32_ota_link.Auth.Hmac.{
  nonce_size, tag_size, session_prefix, compute_packet_tag, hmac_prefixed_nonce_pair,
}
use esp32_ota_link.Auth.Equal.{constant_time_equal_iff}
use esp32_ota_link.Auth.Cache.{ShaSized}
use esp32_ota_link.Auth.Accept.{IsSigned, hmac_sha256-sized}
use esp32_ota_link.Auth.State.{
  AuthState, AuthRun, command_is_protected, send_challenge, open_session, start_challenge,
  complete_challenge, proof_holds, handle_packet, tag_matches, unwrap_packet,
}
use esp32_ota_link.Auth.Replay.{
  Scan, fresh, clash, hit, Checked, Responded, resend, check_replay, respond_signed, send_response,
  remember,
}

-- The calls that change more than what is sent: all but the writer's and the random generator's.
abbrev pub effects : History → History
effects [] = []
effects (wrote w bytes ∷ h) = effects h
effects (filled_random bytes ∷ h) = effects h
effects (e ∷ h) = e ∷ effects h

write_out-effects :
    (s : Sender) (bytes : List ℕ) (h : History) → effects (write_out s bytes h) ≡ effects h
unfolding write_out
write_out-effects s bytes h = elim (Option-cases s.write) [
  | inl e ↦ rw e refl
  | inr (w, e) ↦ rw e refl
]

-- `protocol_send_packet` only writes.
pub send_packet-effects :
    (s : Sender) (command sequence : ℕ) (payload : Option (List ℕ)) (n : ℕ) (h : History)
    → effects (send_packet s command sequence payload n h).1 ≡ effects h
unfolding send_packet
send_packet-effects s command sequence payload n h =
    write_out-effects
      (ensure_writer (record s { tx_buffer = fill_buffer s.tx_buffer command sequence payload n }))
      _ h

pub send_nack-effects :
    (s : Sender) (sequence : ℕ) (e : ProtocolError) (h : History)
    → effects (send_nack s sequence e h).1 ≡ effects h
unfolding send_nack
send_nack-effects s sequence e h =
    send_packet-effects s cmd_nack sequence (some (error_code e ∷ [])) 1 h

pub send_ack-effects :
    (s : Sender) (sequence : ℕ) (h : History) → effects (send_ack s sequence h).1 ≡ effects h
unfolding send_ack
send_ack-effects s sequence h =
    send_packet-effects s cmd_ack sequence (some (error_code err_ok ∷ [])) 1 h

IsBytes-drop : (n : ℕ) (xs : List ℕ) → IsBytes xs → IsBytes (drop n xs)
IsBytes-drop zero xs b = b
IsBytes-drop (suc n) [] b = tt
IsBytes-drop (suc n) (x ∷ xs) b = IsBytes-drop n xs b.1

-- The comparison of a tag accepts no other.
tag_matches_only :
    (env : Env) (field : List ℕ) (o : Option (List ℕ))
    → ((tag : List ℕ) → o ≡ some tag → (length tag ≡ 32) × IsBytes tag)
    → tag_size ≤ length field
    → IsBytes field
    → tag_matches env field o ≡ true
    → (tag : List ℕ) × (o ≡ some tag) × (take tag_size field ≡ take tag_size tag)
unfolding tag_matches
tag_matches_only env field none sized enough bytes good = absurd (cc)
tag_matches_only env field (some tag) sized enough bytes good =
    let of = sized tag refl in
    (
      tag,
      refl,
      (constant_time_equal_iff tag_size field tag enough (omega (arith, of.0)) bytes of.1).0 good,
    )

-- The payload lies within its array, which holds bytes.
pub record IsDelivered (p : Packet) : Type 0 where
  pub enough : p.length ≤ length p.payload
  pub bytes : IsBytes p.payload

-- A request in an open session, whose payload ends in the tag under the session key.
pub record IsAuthorised (env : Env) (s : AuthState) (p : Packet) : Type 0 where
  pub authenticated : s.authenticated ≡ true
  pub signed : IsSigned env s p

-- The key, the handshake and the session are as they were; the replay cache may have changed.
pub record IsSameSession (s r : AuthState) : Type 0 where
  pub required_same : r.required ≡ s.required
  pub pending_same : r.pending ≡ s.pending
  pub authenticated_same : r.authenticated ≡ s.authenticated
  pub key_same : r.key ≡ s.key
  pub key_len_same : r.key_len ≡ s.key_len
  pub client_nonce_same : r.client_nonce ≡ s.client_nonce
  pub server_nonce_same : r.server_nonce ≡ s.server_nonce
  pub session_key_same : r.session_key ≡ s.session_key

pub same_session : (s : AuthState) → IsSameSession s s
same_session s = record {
  required_same = refl;
  pending_same = refl;
  authenticated_same = refl;
  key_same = refl;
  key_len_same = refl;
  client_nonce_same = refl;
  server_nonce_same = refl;
  session_key_same = refl;
}

module _ (env : Env) (s : AuthState) (t : Sender) (h : History) (p : Packet) where
  remember-IsSameSession :
      (command : ℕ) (payload : List ℕ) (n : ℕ)
      → IsSameSession s (remember env s p command payload n)
  unfolding remember
  remember-IsSameSession command payload n = record {
    required_same = refl;
    pending_same = refl;
    authenticated_same = refl;
    key_same = refl;
    key_len_same = refl;
    client_nonce_same = refl;
    server_nonce_same = refl;
    session_key_same = refl;
  }

  -- A response opens and ends no session.
  pub send_response-IsSameSession :
      (command : ℕ) (payload : List ℕ) (n : ℕ)
      → IsSameSession s (send_response env s t h p command payload n).auth
  unfolding send_response respond_signed
  send_response-IsSameSession command payload n =
      if_cases (λ (r : Responded). IsSameSession s r.auth)
        (s.required && s.authenticated && command_is_protected p.command)
        (λ session.
          if_cases (λ (r : Responded). IsSameSession s r.auth) (ltb max_payload (n + tag_size))
            (λ large. same_session s) (λ fits. remember-IsSameSession command _ (n + tag_size)))
        (λ plain. same_session s)

  -- A response makes no other call.
  pub send_response-effects :
      (command : ℕ) (payload : List ℕ) (n : ℕ)
      → effects (send_response env s t h p command payload n).history ≡ effects h
  unfolding send_response respond_signed
  send_response-effects command payload n =
      if_cases (λ (r : Responded). effects r.history ≡ effects h)
        (s.required && s.authenticated && command_is_protected p.command)
        (λ session.
          if_cases (λ (r : Responded). effects r.history ≡ effects h)
            (ltb max_payload (n + tag_size)) (λ large. send_nack-effects t _ _ h)
            (λ fits. send_packet-effects t _ _ _ _ h))
        (λ plain. send_packet-effects t _ _ _ _ h)

  resend-effects : (o : Scan) → effects (resend t h p o).history ≡ effects h
  unfolding resend
  resend-effects fresh = refl
  resend-effects clash = refl
  resend-effects (hit e) = send_packet-effects t _ _ _ _ h

  pub check_replay-effects : effects (check_replay env s t h p).history ≡ effects h
  unfolding check_replay
  check_replay-effects =
      if_cases (λ (r : Checked). effects r.history ≡ effects h)
        (not s.required || not (command_is_protected p.command)) (λ e. refl)
        (λ e.
          if_cases (λ (r : Checked). effects r.history ≡ effects h) (not s.authenticated)
            (λ e. refl) (λ e. resend-effects _))

  IsSigned-checked :
      ShaSized env
      → IsDelivered p
      → tag_size ≤ p.length
      → tag_matches env (drop (p.length - tag_size) p.payload) (
          compute_packet_tag env.sha s.session_key p.command p.sequence p.payload
            (p.length - tag_size))
        ≡ true
      → IsSigned env s p
  unfolding compute_packet_tag
  IsSigned-checked sized d long good =
      let start = p.length - tag_size in
      let found =
        tag_matches_only env (drop start p.payload)
          (compute_packet_tag env.sha s.session_key p.command p.sequence p.payload start)
          (λ tag e. hmac_sha256-sized env sized s.session_key _ tag 32 _ e)
          (omega (arith, long, d.enough, length-drop start p.payload))
          (IsBytes-drop start p.payload d.bytes) good in
      record { long = long; enough = d.enough; tag = found.0; computed = found.1; tag_is = found.2 }

  -- What `auth_unwrap_packet` accepts.
  pub unwrap_packet-IsAuthorised :
      ShaSized env
      → IsDelivered p
      → s.required ≡ true
      → command_is_protected p.command ≡ true
      → (unwrap_packet env s p).0 ≡ err_ok
      → IsAuthorised env s p
  unfolding unwrap_packet
  unwrap_packet-IsAuthorised sized d req prot =
      if_cases P (not s.required || not (command_is_protected p.command))
        (λ e. absurd (ground arith))
        (λ e.
          if_cases P (not s.authenticated || ltb p.length tag_size) (λ e. refused p.length)
            (λ session.
              if_cases P (not (tag_matches env _ _)) (λ e. refused p.length)
                (λ good q. record {
                  authenticated = ground arith;
                  signed = IsSigned-checked sized d (ground arith) (ground arith);
                })))
    where
      P : ProtocolError × ℕ → Type 0
      P r = r.0 ≡ err_ok → IsAuthorised env s p

      refused : (n : ℕ) → P (err_auth_required, n)
      refused n q = absurd (cc)

-- The handshake makes no other call.
module _ (env : Env) (t : Sender) (p : Packet) where
  send_challenge-effects :
      (s : AuthState) (h : History) (o : Option (List ℕ))
      → effects (send_challenge env s t h p o).history ≡ effects h
  unfolding send_challenge
  send_challenge-effects s h none = refl
  send_challenge-effects s h (some proof) = send_packet-effects t _ _ _ _ h

  open_session-effects :
      (s : AuthState) (h : History) (o : Option (List ℕ))
      → effects (open_session env s t h p o).history ≡ effects h
  unfolding open_session
  open_session-effects s h none = refl
  open_session-effects s h (some key) = send_challenge-effects _ h _

  start_challenge-effects :
      (s : AuthState) (h : History) → effects (start_challenge env s t h p).history ≡ effects h
  unfolding start_challenge
  start_challenge-effects s h =
      open_session-effects (record s { client_nonce = client; server_nonce = server })
        (filled_random server ∷ h)
        (hmac_prefixed_nonce_pair env.sha session_prefix s.key s.key_len client server)
    where
      client : List ℕ
      client = take nonce_size p.payload

      server : List ℕ
      server = env.fill_random h nonce_size

  pub handle_packet-effects :
      (s : AuthState) (h : History) → effects (handle_packet env s t h p).history ≡ effects h
  unfolding handle_packet complete_challenge
  handle_packet-effects s h =
      if_cases P (not s.required) (λ e. refl)
        (λ e.
          if_cases P (p.length == nonce_size) (λ e. start_challenge-effects s h)
            (λ e.
              if_cases P (p.length == 32)
                (λ e.
                  if_cases P (not (proof_holds env s p)) (λ e. refl) (λ e. send_ack-effects t _ h))
                (λ e. refl)))
    where
      P : AuthRun → Type 0
      P r = effects r.history ≡ effects h
