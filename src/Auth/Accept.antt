-- ===== src/Auth/Accept.antt =====
-- What auth.c accepts from a host that has the key: the two packets of the handshake, and requests
-- with a tag.
use esp32_ota_link.Base.{
  ℕ, zero, suc, ◌+◌, ◌-◌, ◌≤◌, ◌≡◌, refl, sym, ap, subst, ◌∙◌, List, [], ◌∷◌, Option, none, some,
  true, false, not, ◌||◌, arith, ltb, ◌==◌, IsBytes, length, take, drop, length-take, length-drop,
}
use esp32_ota_link.Base.{if_cases}
use esp32_ota_link.Idf.{Env, History}
use esp32_ota_link.Protocol.Wire.{Packet, err_ok}
use esp32_ota_link.Protocol.Sender.{Sender}
use esp32_ota_link.Auth.Hmac.{
  nonce_size, tag_size, auth_proof_prefix, session_prefix, hmac_sha256, hmac_prefixed_nonce_pair,
  compute_packet_tag, constant_time_equal,
}
use esp32_ota_link.Auth.Equal.{constant_time_equal_same}
use esp32_ota_link.Auth.State.{
  AuthState, handle_packet, start_challenge, open_session, send_challenge, complete_challenge,
  proof_holds, tag_matches, clear_replay_cache, command_is_protected, unwrap_packet,
}
use esp32_ota_link.Auth.Cache.{ShaSized}

pub IsBytes-take : (n : ℕ) (xs : List ℕ) → IsBytes xs → IsBytes (take n xs)
IsBytes-take zero xs b = tt
IsBytes-take (suc n) [] b = tt
IsBytes-take (suc n) (x ∷ xs) b = (b.0, IsBytes-take n xs b.1)

-- A tag, as the keyed hash gives it: 32 bytes.
pub hmac_sha256-sized :
    (env : Env) (sized : ShaSized env) (key input tag : List ℕ) (k n : ℕ)
    → hmac_sha256 env.sha key k input n ≡ some tag
    → (length tag ≡ 32) × IsBytes tag
unfolding hmac_sha256
hmac_sha256-sized env sized key input tag k n =
    if_cases (λ o. o ≡ some tag → (length tag ≡ 32) × IsBytes tag) (ltb 1036 n) (λ e q. absurd (cc))
      (λ e q. subst (λ (o : Option (List ℕ)). Of o) q (sized _))
  where
    Of : Option (List ℕ) → Type 0
    Of none = Unit
    Of (some x) = (length x ≡ 32) × IsBytes x

-- The comparison of a tag accepts the right one.
tag_matches_right :
    (env : Env) (field tag : List ℕ) (o : Option (List ℕ))
    → o ≡ some tag
    → (length tag ≡ 32) × IsBytes tag
    → tag_size ≤ length field
    → take tag_size field ≡ take tag_size tag
    → tag_matches env field o ≡ true
unfolding tag_matches
tag_matches_right env field tag o e sized enough same =
    ap (tag_matches env field) e
    ∙ constant_time_equal_same tag_size field tag enough (omega (arith, sized.0)) sized.1 same

-- A request that the host signed: the last 16 bytes of its payload are the tag under the session
-- key.
pub record IsSigned (env : Env) (s : AuthState) (p : Packet) : Type 0 where
  pub long : tag_size ≤ p.length
  pub enough : p.length ≤ length p.payload
  pub tag : List ℕ
  pub computed :
      compute_packet_tag env.sha s.session_key p.command p.sequence p.payload (p.length - tag_size)
      ≡ some tag
  pub tag_is : take tag_size (drop (p.length - tag_size) p.payload) ≡ take tag_size tag

-- In an open session, `auth_unwrap_packet` accepts every signed request, and takes the tag off.
pub unwrap_packet_signed :
    (env : Env) (s : AuthState) (p : Packet)
    → ShaSized env
    → s.required ≡ true
    → s.authenticated ≡ true
    → command_is_protected p.command ≡ true
    → IsSigned env s p
    → unwrap_packet env s p ≡ (err_ok, p.length - tag_size)
unfolding unwrap_packet compute_packet_tag
unwrap_packet_signed env s p sized req session prot k = rw (gate, live, good) refl
  where
    gate : (not s.required || not (command_is_protected p.command)) ≡ false
    gate = ground arith

    live : (not s.authenticated || ltb p.length tag_size) ≡ false
    live = ground (arith, k.long)

    good :
        tag_matches env (drop (p.length - tag_size) p.payload) (
          compute_packet_tag env.sha s.session_key p.command p.sequence p.payload
            (p.length - tag_size))
        ≡ true
    good =
        tag_matches_right env (drop (p.length - tag_size) p.payload) k.tag _ k.computed
          (hmac_sha256-sized env sized s.session_key _ k.tag 32 _ k.computed)
          (omega (arith, length-drop (p.length - tag_size) p.payload, k.enough, k.long)) k.tag_is

-- The packet with which a host that has the key answers the challenge `client`, `server`.
pub record IsResponse (env : Env) (s : AuthState) (client server : List ℕ) (p : Packet)
    : Type 0 where
  pub two_parts : p.length ≡ nonce_size + tag_size
  pub enough : nonce_size + tag_size ≤ length p.payload
  pub nonce_is : take nonce_size p.payload ≡ take nonce_size client
  pub proof : List ℕ
  pub computed :
      hmac_prefixed_nonce_pair env.sha auth_proof_prefix s.key s.key_len client server ≡ some proof
  pub proof_is : take tag_size (drop nonce_size p.payload) ≡ take tag_size proof

module _ (env : Env) (sized : ShaSized env) where
  pub prefixed-sized :
      (prefix key client server tag : List ℕ) (k : ℕ)
      → hmac_prefixed_nonce_pair env.sha prefix key k client server ≡ some tag
      → (length tag ≡ 32) × IsBytes tag
  unfolding hmac_prefixed_nonce_pair
  prefixed-sized prefix key client server tag k =
      if_cases (λ o. o ≡ some tag → (length tag ≡ 32) × IsBytes tag) (ltb 64 (length prefix + 32))
        (λ e q. absurd (cc)) (λ e q. hmac_sha256-sized env sized key _ tag k _ q)

  proof_holds_right :
      (s : AuthState) (p : Packet)
      → s.pending ≡ true
      → nonce_size ≤ length s.client_nonce
      → IsBytes s.client_nonce
      → IsResponse env s s.client_nonce s.server_nonce p
      → proof_holds env s p ≡ true
  unfolding proof_holds
  proof_holds_right s p waiting enough bytes k = ground (arith, nonce, proof)
    where
      nonce : constant_time_equal p.payload s.client_nonce nonce_size ≡ true
      nonce =
          constant_time_equal_same nonce_size p.payload s.client_nonce (omega (arith, k.enough))
            enough bytes k.nonce_is

      proof :
          tag_matches env (drop nonce_size p.payload) (
            hmac_prefixed_nonce_pair env.sha auth_proof_prefix s.key s.key_len s.client_nonce
              s.server_nonce)
          ≡ true
      proof =
          tag_matches_right env (drop nonce_size p.payload) k.proof _ k.computed
            (prefixed-sized auth_proof_prefix s.key s.client_nonce s.server_nonce k.proof s.key_len
              k.computed)
            (omega (arith, length-drop nonce_size p.payload, k.enough)) k.proof_is

  -- The state after the first packet.
  abbrev challenged : AuthState → History → Packet → List ℕ → AuthState
  challenged s h first session_key = clear_replay_cache (record s {
    client_nonce = take nonce_size first.payload;
    server_nonce = env.fill_random h nonce_size;
    session_key = session_key;
    pending = true;
    authenticated = false;
  })

  first_step :
      (s : AuthState) (t : Sender) (h : History) (first : Packet) (session_key : List ℕ)
      → s.required ≡ true
      → first.length ≡ nonce_size
      → hmac_prefixed_nonce_pair env.sha session_prefix s.key s.key_len
          (take nonce_size first.payload)
          (env.fill_random h nonce_size)
        ≡ some session_key
      → let r = handle_packet env s t h first in
        (r.result ≡ err_ok) × (r.auth ≡ challenged s h first session_key)
  unfolding handle_packet start_challenge open_session send_challenge hmac_prefixed_nonce_pair
      hmac_sha256 clear_replay_cache
  first_step s t h first session_key req len e =
      let on : not s.required ≡ false = ground arith in
      let one : (first.length == nonce_size) ≡ true = ground arith in
      rw (on, one)
        (
          refl,
          ap (λ (o : Option (List ℕ)). challenged s h first (elim o [ none ↦ [] | some x ↦ x ])) e,
        )

  second_step :
      (s : AuthState) (t : Sender) (h : History) (second : Packet)
      → s.required ≡ true
      → second.length ≡ nonce_size + tag_size
      → proof_holds env s second ≡ true
      → let r = handle_packet env s t h second in
        (r.result ≡ err_ok) × (r.auth ≡ record s { pending = false; authenticated = true })
  unfolding handle_packet complete_challenge
  second_step s t h second req len good =
      let on : not s.required ≡ false = ground arith in
      let one : (second.length == nonce_size) ≡ false = ground arith in
      let two : (second.length == 32) ≡ true = ground arith in rw (on, one, two, good) (refl, refl)

  -- The handshake with a host that has the key, on a device that requires one: the packet with the
  -- host's nonce is taken, and then the packet that repeats this nonce and carries the tag of the
  -- two nonces under the key opens a session, whose key is the one that the host derives.
  pub handshake_opens :
      (s : AuthState) (t t' : Sender) (h h' : History) (first second : Packet)
      (session_key : List ℕ)
      → s.required ≡ true
      → first.length ≡ nonce_size
      → nonce_size ≤ length first.payload
      → IsBytes first.payload
      → hmac_prefixed_nonce_pair env.sha session_prefix s.key s.key_len
          (take nonce_size first.payload)
          (env.fill_random h nonce_size)
        ≡ some session_key
      → IsResponse env s (take nonce_size first.payload) (env.fill_random h nonce_size) second
      → let opened = handle_packet env s t h first in
        let r = handle_packet env opened.auth t' h' second in
        (opened.result ≡ err_ok)
        × (r.result ≡ err_ok)
        × (r.auth.authenticated ≡ true)
        × (r.auth.session_key ≡ session_key)
  unfolding clear_replay_cache
  handshake_opens s t t' h h' first second session_key req len enough bytes e k =
      let one = first_step s t h first session_key req len e in
      let s1 = challenged s h first session_key in
      let two = second_step s1 t' h' second req k.two_parts (
        proof_holds_right s1 second refl (omega (arith, length-take nonce_size first.payload))
          (IsBytes-take nonce_size first.payload bytes)
          (record {
            two_parts = k.two_parts;
            enough = k.enough;
            nonce_is = k.nonce_is;
            proof = k.proof;
            computed = k.computed;
            proof_is = k.proof_is;
          })) in
      subst
        (λ a.
          let r = handle_packet env a t' h' second in
          ((handle_packet env s t h first).result ≡ err_ok)
          × (r.result ≡ err_ok)
          × (r.auth.authenticated ≡ true)
          × (r.auth.session_key ≡ session_key))
        (sym one.1) (one.0, two.0, ap (λ a. a.authenticated) two.1, ap (λ a. a.session_key) two.1)
