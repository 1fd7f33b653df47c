-- ===== src/Link/Session.antt =====
-- One request over the link, in an open session: its frame carries the host's tag, and the
-- acknowledgement the device's.
use esp32_ota_link.Base.{
  ℕ, ◌+◌, ◌-◌, ◌≤◌, ◌<◌, ◌≡◌, sym, ap, ap₂, subst, ◌∙◌, List, [], ◌∷◌, ◌++◌, append_assoc, true,
  false, arith, IsBytes, IsBytes-append, length, length-append, drop,
}
use esp32_ota_link.Idf.{Env, History, wrote}
use esp32_ota_link.Idf.Traffic.{is_stopped}
use esp32_ota_link.Protocol.Wire.{Packet, err_ok, max_payload, cmd_ack}
use esp32_ota_link.Protocol.Frame.{frame, writer_in_use, IsReady}
use esp32_ota_link.Protocol.RoundTrip.{IsMessage}
use esp32_ota_link.Protocol.Parser.Refines.{Holds}
use esp32_ota_link.Ota.{OtaState, ran}
use esp32_ota_link.Auth.Hmac.{tag_size, compute_request_digest}
use esp32_ota_link.Auth.State.{AuthState}
use esp32_ota_link.Auth.Replay.{scan, fresh, remember}
use esp32_ota_link.Auth.Cache.{ShaSized}
use esp32_ota_link.Auth.Host.{
  Below, Below-fresh, remember-Below, host_tag, signed_payload, host_tag-sized, expected_response,
  signed_response_expected, signed_payload-IsSigned,
}
use esp32_ota_link.Commands.{handle}
use esp32_ota_link.Commands.Signed.{IsSignedAnswer, served, handle-IsSignedAnswer}
use esp32_ota_link.Commands.Route.{code_of, OtaRequest, gated, operation, HasShape, code_of-byte}
use esp32_ota_link.Link.{Link}
use esp32_ota_link.Link.Channel.{Serves, Channel}
use esp32_ota_link.Link.Arrival.{IsCarried, Delivered, frame-Delivered}
use esp32_ota_link.Link.Loop.{receive}

-- The device runs, waits for a packet, its buffers have their sizes, a session with this key is open, and
-- all requests that it remembers have numbers below `n`.
pub record IsInSession (key : List ℕ) (n : ℕ) (l : Link) : Type 0 where
  pub waits : Holds [] l.parser
  pub array : length l.packet.payload ≡ max_payload
  pub ready : IsReady l.app.sender
  pub required : l.app.auth.required ≡ true
  pub session : l.app.auth.authenticated ≡ true
  pub key_is : l.app.auth.session_key ≡ key
  pub known : Below n l.app.auth.replay_cache
  pub runs : is_stopped l.app.history ≡ false

module _ (env : Env) (sized : ShaSized env) (key : List ℕ) where
  -- What a response under the session leaves of it.
  abbrev Stays : ℕ → AuthState → Type 0
  Stays n s =
      (s.required ≡ true)
      × (s.authenticated ≡ true)
      × (s.session_key ≡ key)
      × Below n s.replay_cache

  remember-Stays :
      (s : AuthState) (p : Packet) (command size n : ℕ) (response : List ℕ)
      → p.sequence ≡ n
      → Stays n s
      → Stays (n + 1) (remember env s p command response size)
  unfolding remember
  remember-Stays s p command size n response e (req, live, same, known) =
      (req, live, same, remember-Below env s p command size n response e known)

  signed-IsMessage :
      (o : OtaRequest) (n : ℕ) (payload : List ℕ)
      → n < 65536
      → IsBytes payload
      → length payload + tag_size ≤ max_payload
      → let command = code_of (gated o) in
        IsMessage command n (signed_payload env key command n payload)
  signed-IsMessage o n payload range bytes small =
      let command = code_of (gated o) in
      let tag = host_tag-sized env sized key command n payload (omega arith) in
      record {
        command_byte = code_of-byte o;
        sequence_word = range;
        bytes = IsBytes-append payload (host_tag env key command n payload) bytes tag.1;
        small = omega (arith, tag.0, length-append payload (host_tag env key command n payload));
      }

  -- What the dispatcher makes of a signed request that the OTA manager takes.
  signed_handled :
      (o : OtaRequest) (l : Link) (n : ℕ) (payload : List ℕ) (s : OtaState) (h : History)
      (q : Packet)
      → IsInSession key n l
      → length payload + tag_size ≤ max_payload
      → HasShape o (length payload)
      → ((rest : List ℕ)
          → operation env o l.app.ota l.app.history (payload ++ rest) (length payload)
            ≡ ran s h err_ok)
      → IsCarried (code_of (gated o)) n (signed_payload env key (code_of (gated o)) n payload) q
      → IsSignedAnswer env l.app q (ran s h err_ok) (handle env l.app q)
  signed_handled o l n payload s h q k small shape runs d =
      subst (λ run. IsSignedAnswer env l.app q run (handle env l.app q)) taken
        (handle-IsSignedAnswer env sized l.app q o
          (record {
            required = k.required;
            session = k.session;
            signed =
                signed_payload-IsSigned env l.app.auth q key command n payload rest sized k.key_is
                  d.command_same d.sequence_same small d.length_same d.payload_is;
            new =
                subst (λ j. scan l.app.auth.replay_cache q.command j digest ≡ fresh)
                  (sym d.sequence_same)
                  (Below-fresh n l.app.auth.replay_cache q.command digest k.known);
            version = d.version;
            ready = k.ready;
          })
          d.command_same (subst (HasShape o) (sym cut) shape))
    where
      command : ℕ
      command = code_of (gated o)

      digest : List ℕ
      digest = compute_request_digest env.sha q

      tag : List ℕ
      tag = host_tag env key command n payload

      rest : List ℕ
      rest = drop (length (payload ++ tag)) q.payload

      cut : q.length - tag_size ≡ length payload
      cut = omega (
        arith,
        d.length_same,
        length-append payload tag,
        (host_tag-sized env sized key command n payload (omega arith)).0,
      )

      taken : served env o l.app q ≡ ran s h err_ok
      taken =
          ap₂ (operation env o l.app.ota l.app.history)
            (d.payload_is ∙ append_assoc payload tag rest) cut
          ∙ runs (tag ++ rest)

  pub signed-Serves :
      (o : OtaRequest) (l : Link) (n : ℕ) (payload : List ℕ) (s : OtaState) (h : History)
      → IsInSession key n l
      → n < 65536
      → IsBytes payload
      → length payload + tag_size ≤ max_payload
      → HasShape o (length payload)
      → ((rest : List ℕ)
          → operation env o l.app.ota l.app.history (payload ++ rest) (length payload)
            ≡ ran s h err_ok)
      → let command = code_of (gated o) in
        Serves
          (IsInSession key (n + 1))
          l
          (frame cmd_ack n (expected_response env key command n))
          s
          h
          (receive env l (frame command n (signed_payload env key command n payload)))
  signed-Serves o l n payload s h k range bytes small shape runs =
      subst (Serves (IsInSession key (n + 1)) l ack s h) (sym d.left) (record {
        listens = record {
          waits = d.waits;
          array = d.array;
          ready = answer.ready;
          required = stays.0;
          session = stays.1;
          key_is = stays.2;
          known = stays.3;
          runs = ap is_stopped answer.history_is;
        };
        ota_is = answer.ota_is;
        history_is =
            answer.history_is
            ∙ ap (λ t. wrote (writer_in_use l.app.sender) t ∷ h)
                (ap₂ (frame cmd_ack) d.carried.sequence_same (
                  signed_response_expected env l.app.auth d.packet key command n k.key_is
                    d.carried.command_same d.carried.sequence_same));
      })
    where
      command : ℕ
      command = code_of (gated o)

      ack : List ℕ
      ack = frame cmd_ack n (expected_response env key command n)

      request : List ℕ
      request = frame command n (signed_payload env key command n payload)

      answer_to :
          (q : Packet)
          → IsCarried command n (signed_payload env key command n payload) q
          → IsSignedAnswer env l.app q (ran s h err_ok) (handle env l.app q)
      answer_to q carried = signed_handled o l n payload s h q k small shape runs carried

      d :
          Delivered env l command n
            (signed_payload env key command n payload)
            (receive env l request)
      d =
          frame-Delivered env l command n (signed_payload env key command n payload) k.waits k.array
            (signed-IsMessage o n payload range bytes small) k.runs
            (λ q carried. ap is_stopped (answer_to q carried).history_is)

      answer : IsSignedAnswer env l.app d.packet (ran s h err_ok) (handle env l.app d.packet)
      answer = answer_to d.packet d.carried

      stays : Stays (n + 1) (handle env l.app d.packet).auth
      stays = subst (Stays (n + 1)) (sym answer.auth_is) (
          remember-Stays l.app.auth d.packet cmd_ack 17 n _ d.carried.sequence_same
            (k.required, k.session, k.key_is, k.known))

  -- The link in a session: requests carry the host's tag, acknowledgements the device's, and the
  -- numbers do not come round.
  abbrev pub session_channel : Channel env
  session_channel = record {
    Listens = λ n l. IsInSession key n l;
    InRange = λ n. n < 65536;
    room = 1008;
    enough = omega arith;
    small = omega arith;
    request = λ o n payload.
        let command = code_of (gated o) in
        frame command n (signed_payload env key command n payload);
    reply = λ o n. frame cmd_ack n (expected_response env key (code_of (gated o)) n);
    serves = λ o l n payload s h k range bytes small shape runs.
        signed-Serves o l n payload s h k range bytes (omega arith) shape runs;
  }
