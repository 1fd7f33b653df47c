-- ===== src/Auth/Cache.antt =====
-- The replay cache of auth.c: what a stored entry says about the requests that follow.
use esp32_ota_link.Base.{
  ℕ, zero, suc, ◌+◌, ◌≤◌, ◌<◌, ◌≡◌, ◌≢◌, refl, ap, subst, ◌∙◌, List, [], ◌∷◌, Option, none, some,
  true, false, not, ◌&&◌, ◌||◌, arith, ltb, ◌!=◌, if◌then◌else◌, if_cases, Bool-cases, inl, inr,
  length, length-append, length-take, take, take_all, take-overwrite, get_or, set, overwrite,
  length-replicate, IsBytes,
}
use esp32_ota_link.Idf.{Env, History, wrote}
use esp32_ota_link.Protocol.Wire.{Packet, max_payload}
use esp32_ota_link.Protocol.Sender.{Sender, send_packet}
use esp32_ota_link.Protocol.Frame.{frame, writer_in_use, IsReady, send_packet_lem}
use esp32_ota_link.Auth.Hmac.{
  tag_size, constant_time_equal, hmac_sha256, compute_request_digest, compute_response_tag,
}
use esp32_ota_link.Auth.Equal.{constant_time_equal_iff}
use esp32_ota_link.Auth.State.{
  AuthState, ReplayEntry, empty_entry, replay_cache_size, command_is_protected,
}
use esp32_ota_link.Auth.Replay.{
  Scan, fresh, clash, hit, scan, resend, check_replay, tag_bytes, signed_response, remember,
  respond_signed, send_response,
}

-- The entry has this command and this sequence number.
pub record IsEntryOf (command sequence : ℕ) (e : ReplayEntry) : Type 0 where
  pub valid : e.valid ≡ true
  pub command_same : e.request_command ≡ command
  pub sequence_same : e.sequence ≡ sequence

-- A request whose command and sequence number no entry had is judged by the entry that is stored
-- for them.
pub scan-set :
    (es : List ReplayEntry) (i : ℕ) (e : ReplayEntry) (command sequence : ℕ) (digest : List ℕ)
    → i < length es
    → IsEntryOf command sequence e
    → scan es command sequence digest ≡ fresh
    → scan (set es i e) command sequence digest
      ≡ (if not (constant_time_equal e.request_digest digest 32) then clash else hit e)
unfolding scan
scan-set [] i e command sequence digest h k q = absurd (omega arith)
scan-set (x ∷ es) zero e command sequence digest h k q =
    let found : (not e.valid || e.request_command != command || e.sequence != sequence) ≡ false =
      ground (arith, k.valid, k.command_same, k.sequence_same) in
    rw found refl
scan-set (x ∷ es) (suc i) e command sequence digest h k q =
    elim (Bool-cases (not x.valid || x.request_command != command || x.sequence != sequence)) [
      | inl skip ↦ rw skip (
          scan-set es i e command sequence digest (omega arith) k (
            subst (λ b. (if b then scan es command sequence digest else found_here) ≡ fresh) skip
              q))
      | inr here ↦ absurd (
          never (
            subst (λ b. (if b then scan es command sequence digest else found_here) ≡ fresh) here
              q))
    ]
  where
    found_here : Scan
    found_here = if not (constant_time_equal x.request_digest digest 32) then clash else hit x

    never : found_here ≢ fresh
    never =
        if_cases (λ (r : Scan). r ≢ fresh) (not (constant_time_equal x.request_digest digest 32))
          (λ t w. absurd (cc)) (λ t w. absurd (cc))

-- SHA-256 gives 32 bytes.
abbrev pub ShaSized : Env → Type 0
ShaSized env = (input : List ℕ) → (length (env.sha input) ≡ 32) × IsBytes (env.sha input)

-- The arrays of the replay cache, and the index of the next entry.
pub record IsCache (s : AuthState) : Type 0 where
  pub entries : length s.replay_cache ≡ replay_cache_size
  pub within : s.next_replay_entry < replay_cache_size
  pub arrays : (i : ℕ) → length (get_or s.replay_cache i empty_entry).response_payload ≡ max_payload

module _ (env : Env) (sized : ShaSized env) where
  tag-sized :
      (o : Option (List ℕ))
      → ((x : List ℕ) → o ≡ some x → length x ≡ 32)
      → length (tag_bytes o) ≡ 32
  unfolding tag_bytes
  tag-sized none h = length-replicate {A = ℕ} 32 0
  tag-sized (some x) h = h x refl

  hmac-sized :
      (key input : List ℕ) (k n : ℕ) → length (tag_bytes (hmac_sha256 env.sha key k input n)) ≡ 32
  unfolding hmac_sha256 tag_bytes
  hmac-sized key input k n =
      if_cases (λ o. length (tag_bytes o) ≡ 32) (ltb 1036 n) (λ e. length-replicate {A = ℕ} 32 0)
        (λ e. (sized _).0)

  response_tag-sized :
      (s : AuthState) (p : Packet) (command : ℕ) (payload : List ℕ) (n : ℕ)
      → length (
          tag_bytes
            (compute_response_tag env.sha s.session_key p.command command p.sequence payload n))
        ≡ 32
  unfolding compute_response_tag
  response_tag-sized s p command payload n = hmac-sized s.session_key _ 32 (12 + n)

  pub length-signed_response :
      (s : AuthState) (p : Packet) (command : ℕ) (payload : List ℕ) (n : ℕ)
      → n ≤ length payload
      → length (signed_response env s p command payload n) ≡ n + tag_size
  unfolding signed_response
  length-signed_response s p command payload n h = omega (
    arith,
    length-append (take n payload) (take tag_size tag),
    length-take n payload,
    length-take tag_size tag,
    response_tag-sized s p command payload n,
  )
    where
      tag : List ℕ
      tag =
          tag_bytes
            (compute_response_tag env.sha s.session_key p.command command p.sequence payload n)

  pub digest_self :
      (p : Packet)
      → constant_time_equal (compute_request_digest env.sha p) (compute_request_digest env.sha p) 32
        ≡ true
  unfolding compute_request_digest
  digest_self p =
      (constant_time_equal_iff 32 _ _ (omega (arith, (sized _).0)) (omega (arith, (sized _).0))
          (sized _).1 (sized _).1).1
        refl

module _ (env : Env) (s : AuthState) (p : Packet) (command n : ℕ) (response : List ℕ) where
  -- The entry that `auth_send_response` stores.
  abbrev pub stored : ReplayEntry
  stored = record {
    valid = true;
    request_command = p.command;
    sequence = p.sequence;
    request_digest = compute_request_digest env.sha p;
    response_command = command;
    response_length = n;
    response_payload =
        overwrite (get_or s.replay_cache s.next_replay_entry empty_entry).response_payload 0
          (take n response);
  }

  pub stored_response :
      IsCache s → n ≤ max_payload → length response ≡ n → take n stored.response_payload ≡ response
  stored_response c small len =
      take-overwrite (get_or s.replay_cache s.next_replay_entry empty_entry).response_payload 0
        (take n response) n (omega (arith, length-take n response))
        (omega (arith, c.arrays s.next_replay_entry))
      ∙ take_all response n (omega arith)

  pub check_remembered :
      IsCache s
      → s.required ≡ true
      → s.authenticated ≡ true
      → (q : Packet) → p.command ≡ q.command
      → p.sequence ≡ q.sequence
      → command_is_protected q.command ≡ true
      → scan s.replay_cache q.command q.sequence (compute_request_digest env.sha q) ≡ fresh
      → (t : Sender) (h : History)
      → check_replay env (remember env s p command response n) t h q
        ≡ resend t h q (
            if not (
              constant_time_equal
                (compute_request_digest env.sha p)
                (compute_request_digest env.sha q)
                32)
            then clash
            else hit stored)
  unfolding check_replay remember
  check_remembered c req session q same_command same_sequence prot new t h =
      rw (gate, live) (ap (resend t h q) found)
    where
      gate : (not s.required || not (command_is_protected q.command)) ≡ false
      gate = ground arith

      live : not s.authenticated ≡ false
      live = ground arith

      found :
          scan
            (set s.replay_cache s.next_replay_entry stored)
            q.command
            q.sequence
            (compute_request_digest env.sha q)
          ≡ (if not (
                constant_time_equal
                  (compute_request_digest env.sha p)
                  (compute_request_digest env.sha q)
                  32)
              then clash
              else hit stored)
      found =
          scan-set s.replay_cache s.next_replay_entry stored q.command q.sequence
            (compute_request_digest env.sha q) (omega (arith, c.entries, c.within))
            (record { valid = refl; command_same = same_command; sequence_same = same_sequence })
            new

pub sent_signed :
    (env : Env) (s : AuthState) (t : Sender) (h : History) (p : Packet) (command n : ℕ)
    (payload : List ℕ)
    → s.required ≡ true
    → s.authenticated ≡ true
    → command_is_protected p.command ≡ true
    → n + tag_size ≤ max_payload
    → let response = signed_response env s p command payload n in
      let r = send_packet t command p.sequence (some response) (n + tag_size) h in
      send_response env s t h p command payload n ≡ record {
        auth = remember env s p command response (n + tag_size);
        sender = r.0;
        history = r.1;
      }
unfolding send_response respond_signed
sent_signed env s t h p command n payload req session prot small =
    let live : (s.required && s.authenticated && command_is_protected p.command) ≡ true =
      ground arith in
    let fits : ltb max_payload (n + tag_size) ≡ false = ground arith in rw (live, fits) refl

-- A packet whose first `n` payload bytes are `b` goes out as the frame of `b`.
pub sent_frame :
    (t : Sender) (command sequence n : ℕ) (payload b : List ℕ) (h : History)
    → IsReady t
    → n ≤ max_payload
    → n ≤ length payload
    → take n payload ≡ b
    → ((send_packet t command sequence (some payload) n h).1
        ≡ wrote (writer_in_use t) (frame command sequence b) ∷ h)
      × IsReady (send_packet t command sequence (some payload) n h).0
sent_frame t command sequence n payload b h ready small enough e =
    let r = send_packet_lem t command sequence n payload h ready small enough in
    (r.0 ∙ ap (λ x. wrote (writer_in_use t) (frame command sequence x) ∷ h) e, r.1)
