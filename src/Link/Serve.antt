-- ===== src/Link/Serve.antt =====
-- One request over the link, on a device without a key: its frame, byte by byte through the parser
-- and the dispatcher to the OTA manager, and the acknowledgement back.
use esp32_ota_link.Base.{
  ◌≤◌, u16, IsBytes, arith, ℕ, ◌≡◌, sym, ap, ap₂, subst, ◌∙◌, List, [], ◌∷◌, ◌++◌, false, length,
  drop,
}
use esp32_ota_link.Idf.{Env, History, wrote}
use esp32_ota_link.Idf.Traffic.{is_stopped}
use esp32_ota_link.Protocol.Wire.{Packet, err_ok, version_1, max_payload}
use esp32_ota_link.Protocol.Frame.{frame, writer_in_use, IsReady}
use esp32_ota_link.Protocol.RoundTrip.{IsMessage}
use esp32_ota_link.Protocol.Parser.Refines.{Holds}
use esp32_ota_link.Ota.{OtaState, ran}
use esp32_ota_link.Commands.{handle}
use esp32_ota_link.Commands.Keyless.{ack_frame, IsServed, answered, handle_keyless, acked_IsServed}
use esp32_ota_link.Commands.Route.{code_of, OtaRequest, gated, operation, HasShape, code_of-byte}
use esp32_ota_link.Link.{Link}
use esp32_ota_link.Link.Channel.{Serves, Channel}
use esp32_ota_link.Link.Arrival.{IsCarried, Delivered, frame-Delivered}
use esp32_ota_link.Link.Loop.{receive}

-- The device runs, waits for a packet, its buffers have their sizes, and no key is required.
pub record IsListening (l : Link) : Type 0 where
  pub waits : Holds [] l.parser
  pub array : length l.packet.payload ≡ max_payload
  pub ready : IsReady l.app.sender
  pub keyless : l.app.auth.required ≡ false
  pub runs : is_stopped l.app.history ≡ false

module _ (env : Env) where
  -- The frame of a request that the OTA manager serves.
  frame-Serves :
      (l : Link) (command sequence : ℕ) (payload : List ℕ) (s : OtaState) (h : History)
      → IsListening l
      → IsMessage command sequence payload
      → ((q : Packet)
          → q.version ≡ version_1
          → q.command ≡ command
          → q.length ≡ length payload
          → q.payload ≡ payload ++ drop (length payload) q.payload
          → handle env l.app q ≡ answered env l.app q (ran s h err_ok))
      → Serves IsListening l
          (ack_frame sequence)
          s
          h
          (receive env l (frame command sequence payload))
  frame-Serves l command sequence payload s h k m handled =
      subst (Serves IsListening l (ack_frame sequence) s h) (sym d.left) (record {
        listens = record {
          waits = d.waits;
          array = d.array;
          ready = served.ready;
          keyless = ap (λ t. t.required) served.auth_same ∙ k.keyless;
          runs = ap is_stopped served.history_is;
        };
        ota_is = served.ota_is;
        history_is =
            served.history_is
            ∙ ap (λ n. wrote (writer_in_use l.app.sender) (ack_frame n) ∷ h)
                d.carried.sequence_same;
      })
    where
      served_by :
          (q : Packet)
          → IsCarried command sequence payload q
          → IsServed l.app q.sequence s h (handle env l.app q)
      served_by q c =
          subst (IsServed l.app q.sequence s h)
            (sym (handled q c.version c.command_same c.length_same c.payload_is))
            (acked_IsServed env l.app q s h k.keyless k.ready)

      d : Delivered env l command sequence payload (receive env l (frame command sequence payload))
      d =
          frame-Delivered env l command sequence payload k.waits k.array m k.runs
            (λ q carried. ap is_stopped (served_by q carried).history_is)

      served : IsServed l.app d.packet.sequence s h (handle env l.app d.packet)
      served = served_by d.packet d.carried

  pub request-Serves :
      (o : OtaRequest) (l : Link) (n : ℕ) (payload : List ℕ) (s : OtaState) (h : History)
      → IsListening l
      → IsBytes payload
      → length payload ≤ max_payload
      → HasShape o (length payload)
      → ((rest : List ℕ)
          → operation env o l.app.ota l.app.history (payload ++ rest) (length payload)
            ≡ ran s h err_ok)
      → Serves IsListening l
          (ack_frame (u16 n))
          s
          h
          (receive env l (frame (code_of (gated o)) (u16 n) payload))
  request-Serves o l n payload s h k bytes small shape runs =
      frame-Serves l (code_of (gated o)) (u16 n) payload s h k
        (record {
          command_byte = code_of-byte o;
          sequence_word = omega arith;
          bytes = bytes;
          small = small;
        })
        (λ q v c m t.
          handle_keyless env l.app q o k.keyless v c (subst (HasShape o) (sym m) shape)
          ∙ ap (answered env l.app q) (
              ap₂ (operation env o l.app.ota l.app.history) t m
              ∙ runs (drop (length payload) q.payload)))

  -- The link to a device without a key: requests are plain frames, with sequence numbers that count
  -- up in a `uint16_t`.
  abbrev pub keyless_channel : Channel env
  keyless_channel = record {
    Listens = λ n l. IsListening l;
    InRange = λ n. Unit;
    room = max_payload;
    enough = omega arith;
    small = omega arith;
    request = λ o n payload. frame (code_of (gated o)) (u16 n) payload;
    reply = λ o n. ack_frame (u16 n);
    serves = λ o l n payload s h k range bytes small shape runs.
        request-Serves o l n payload s h k bytes small shape runs;
  }
