-- ===== src/Auth/Host.antt =====
-- The host's side of a session: what it puts behind a payload, what it expects of an
-- acknowledgement, and the numbers that the replay cache of the device has not seen.
use esp32_ota_link.Base.{
  ℕ, zero, suc, ◌+◌, ◌-◌, ◌≤◌, ◌<◌, ◌≡◌, refl, sym, ap, ap₂, ◌∙◌, List, [], ◌∷◌, ◌++◌, append_assoc,
  Option, some, Bool, true, false, not, ◌||◌, arith, ltb, ◌!=◌, if_cases, All, IsBytes, length,
  length-append, length-take, take, drop, take_append, drop_append, take_all, set, bit_and, ◌>>>◌,
}
use esp32_ota_link.Idf.{Env}
use esp32_ota_link.Protocol.Wire.{Packet, err_ok, error_code, cmd_ack, max_payload}
use esp32_ota_link.Auth.Hmac.{tag_size, hmac_sha256, compute_packet_tag, compute_response_tag}
use esp32_ota_link.Auth.State.{AuthState, ReplayEntry}
use esp32_ota_link.Auth.Replay.{scan, fresh, tag_bytes, signed_response, remember}
use esp32_ota_link.Auth.Cache.{ShaSized}
use esp32_ota_link.Auth.Accept.{IsSigned, IsBytes-take, hmac_sha256-sized}

-- The numbers of the requests that were answered in the session.
abbrev pub Below : ℕ → List ReplayEntry → Type 0
Below n es = All (λ e. e.valid ≡ true → e.sequence < n) es

pub Below-weaken : (n : ℕ) (es : List ReplayEntry) → Below n es → Below (n + 1) es
Below-weaken n [] b = tt
Below-weaken n (e ∷ es) b = (λ v. omega (arith, b.0 v), Below-weaken n es b.1)

Below-set :
    (n : ℕ) (es : List ReplayEntry) (i : ℕ) (e : ReplayEntry)
    → (e.valid ≡ true → e.sequence < n)
    → Below n es
    → Below n (set es i e)
Below-set n [] i e h b = tt
Below-set n (x ∷ es) zero e h b = (h, b.1)
Below-set n (x ∷ es) (suc i) e h b = (b.0, Below-set n es i e h b.1)

-- A number that no request had is new, whatever the command.
pub Below-fresh :
    (n : ℕ) (es : List ReplayEntry) (command : ℕ) (digest : List ℕ)
    → Below n es
    → scan es command n digest ≡ fresh
unfolding scan
Below-fresh n [] command digest b = refl
Below-fresh n (e ∷ es) command digest b =
    let skipped : (not e.valid || e.request_command != command || e.sequence != n) ≡ true =
      skips e.valid e.request_command e.sequence command n b.0 in
    rw skipped (Below-fresh n es command digest b.1)
  where
    skips :
        (v : Bool) (c k command n : ℕ)
        → (v ≡ true → k < n)
        → (not v || c != command || k != n) ≡ true
    skips true c k command n h = let small : k < n = h refl in ground (arith, small)
    skips false c k command n h = refl

-- The state after a response with the number `n`.
pub remember-Below :
    (env : Env) (s : AuthState) (p : Packet) (command size n : ℕ) (response : List ℕ)
    → p.sequence ≡ n
    → Below n s.replay_cache
    → Below (n + 1) (remember env s p command response size).replay_cache
unfolding remember
remember-Below env s p command size n response e b =
    Below-set (n + 1) s.replay_cache s.next_replay_entry _ (λ v. omega (arith, e))
      (Below-weaken n s.replay_cache b)

module _ (env : Env) where
  -- The tag of a request, and the payload that carries it.
  abbrev pub host_tag : List ℕ → ℕ → ℕ → List ℕ → List ℕ
  host_tag key command n payload =
      take tag_size (tag_bytes (compute_packet_tag env.sha key command n payload (length payload)))

  abbrev pub signed_payload : List ℕ → ℕ → ℕ → List ℕ → List ℕ
  signed_payload key command n payload = payload ++ host_tag key command n payload

  -- The payload of the acknowledgement that the host expects.
  abbrev pub expected_response : List ℕ → ℕ → ℕ → List ℕ
  expected_response key command n =
      (error_code err_ok ∷ [])
      ++ take tag_size (
          tag_bytes (compute_response_tag env.sha key command cmd_ack n (error_code err_ok ∷ []) 1))

  pub signed_response_expected :
      (s : AuthState) (p : Packet) (key : List ℕ) (command n : ℕ)
      → s.session_key ≡ key
      → p.command ≡ command
      → p.sequence ≡ n
      → signed_response env s p cmd_ack (error_code err_ok ∷ []) 1 ≡ expected_response key command n
  unfolding signed_response
  signed_response_expected s p key command n e c q =
      ap (λ k. expected_response k p.command p.sequence) e ∙ ap₂ (expected_response key) c q

  some_tag :
      (key : List ℕ) (command n k : ℕ) (payload : List ℕ)
      → k ≤ max_payload
      → compute_packet_tag env.sha key command n payload k
        ≡ some (tag_bytes (compute_packet_tag env.sha key command n payload k))
  unfolding compute_packet_tag hmac_sha256 tag_bytes
  some_tag key command n k payload small =
      if_cases (λ o. o ≡ some (tag_bytes o)) (ltb 1036 (3 + k)) (λ large. absurd (ground arith))
        (λ fits. refl)

  packet_tag-sized :
      ShaSized env
      → (key : List ℕ) (command n k : ℕ) (payload : List ℕ) → k ≤ max_payload
      → let tag = tag_bytes (compute_packet_tag env.sha key command n payload k) in
        (length tag ≡ 32) × IsBytes tag
  unfolding compute_packet_tag
  packet_tag-sized sized key command n k payload small =
      hmac_sha256-sized env sized key _ _ 32 (3 + k) (some_tag key command n k payload small)

  -- The tag covers the first `k` bytes.
  packet_tag_prefix :
      (key : List ℕ) (command n k : ℕ) (xs ys : List ℕ)
      → take k xs ≡ take k ys
      → compute_packet_tag env.sha key command n xs k
        ≡ compute_packet_tag env.sha key command n ys k
  unfolding compute_packet_tag
  packet_tag_prefix key command n k xs ys e =
      ap
        (λ t.
          hmac_sha256 env.sha key 32 (command ∷ bit_and n 0xff ∷ bit_and (n >>> 8) 0xff ∷ t)
            (3 + k))
        e

  pub host_tag-sized :
      ShaSized env
      → (key : List ℕ) (command n : ℕ) (payload : List ℕ) → length payload ≤ max_payload
      → (length (host_tag key command n payload) ≡ tag_size)
        × IsBytes (host_tag key command n payload)
  host_tag-sized sized key command n payload small =
      let tag = packet_tag-sized sized key command n (length payload) payload small in
      (
        omega (
          arith,
          tag.0,
          length-take tag_size
              (tag_bytes (compute_packet_tag env.sha key command n payload (length payload))),
        ),
        IsBytes-take tag_size _ tag.1,
      )

  -- What a device gets of such a payload, with anything behind it in the packet's array, it takes.
  pub signed_payload-IsSigned :
      (s : AuthState) (p : Packet) (key : List ℕ) (command n : ℕ) (payload rest : List ℕ)
      → ShaSized env
      → s.session_key ≡ key
      → p.command ≡ command
      → p.sequence ≡ n
      → length payload + tag_size ≤ max_payload
      → p.length ≡ length (signed_payload key command n payload)
      → p.payload ≡ signed_payload key command n payload ++ rest
      → IsSigned env s p
  signed_payload-IsSigned s p key command n payload rest sized e c q small len whole = record {
    long = omega (arith, total);
    enough =
        omega (
          arith,
          total,
          ap (length {A = ℕ}) whole,
          length-append sent rest,
          length-append payload t,
        );
    tag =
        tag_bytes (computed_tag s.session_key p.command p.sequence p.payload (p.length - tag_size));
    computed =
        some_tag s.session_key p.command p.sequence (p.length - tag_size) p.payload
          (omega (arith, total));
    tag_is =
        ap₂ (λ k xs. take tag_size (drop k xs)) cut whole_parts
        ∙ ap (take tag_size) (drop_append payload (t ++ rest) m refl)
        ∙ take_append t rest tag_size t-sized
        ∙ ap (λ o. take tag_size (tag_bytes o)) (sym same);
  }
    where
      m : ℕ
      m = length payload

      t : List ℕ
      t = host_tag key command n payload

      sent : List ℕ
      sent = signed_payload key command n payload

      computed_tag : List ℕ → ℕ → ℕ → List ℕ → ℕ → Option (List ℕ)
      computed_tag k c q xs j = compute_packet_tag env.sha k c q xs j

      t-sized : length t ≡ tag_size
      t-sized = (host_tag-sized sized key command n payload (omega arith)).0

      total : p.length ≡ m + tag_size
      total = omega (arith, len, length-append payload t, t-sized)

      cut : p.length - tag_size ≡ m
      cut = omega (arith, total)

      whole_parts : p.payload ≡ payload ++ (t ++ rest)
      whole_parts = whole ∙ append_assoc payload t rest

      prefix : take m p.payload ≡ take m payload
      prefix =
          ap (take m) whole_parts
          ∙ take_append payload (t ++ rest) m refl
          ∙ sym (take_all payload m (omega arith))

      same :
          computed_tag s.session_key p.command p.sequence p.payload (p.length - tag_size)
          ≡ computed_tag key command n payload m
      same =
          ap (λ k. computed_tag k p.command p.sequence p.payload (p.length - tag_size)) e
          ∙ ap (λ k. computed_tag key k p.sequence p.payload (p.length - tag_size)) c
          ∙ ap (λ k. computed_tag key command k p.payload (p.length - tag_size)) q
          ∙ ap (computed_tag key command n p.payload) cut
          ∙ packet_tag_prefix key command n m p.payload payload prefix
