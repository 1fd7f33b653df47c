-- ===== src/Link/Arrival.antt =====
-- The frame of a message over the link: the packet that reaches the dispatcher.
use esp32_ota_link.Base.{
  subst, false, ℕ, ◌≡◌, sym, ap, ap₂, ◌∙◌, List, [], ◌++◌, length, drop, take-append-drop,
}
use esp32_ota_link.Idf.{Env}
use esp32_ota_link.Idf.Traffic.{is_stopped}
use esp32_ota_link.Protocol.Wire.{Packet, version_1, max_payload}
use esp32_ota_link.Protocol.Frame.{frame}
use esp32_ota_link.Protocol.RoundTrip.{IsMessage, Arrives, frame-Arrives}
use esp32_ota_link.Protocol.Parser.{Parser}
use esp32_ota_link.Protocol.Parser.Refines.{Holds}
use esp32_ota_link.Protocol.Parser.Run.{feed_all}
use esp32_ota_link.Commands.{handle}
use esp32_ota_link.Link.{Link}
use esp32_ota_link.Link.Loop.{handle_all, receive, settled, Survives, receive_lem}

-- A packet with these fields.
pub record IsCarried (command sequence : ℕ) (payload : List ℕ) (q : Packet) : Type 0 where
  pub version : q.version ≡ version_1
  pub command_same : q.command ≡ command
  pub sequence_same : q.sequence ≡ sequence
  pub length_same : q.length ≡ length payload
  pub payload_is : q.payload ≡ payload ++ drop (length payload) q.payload

-- The dispatcher got one packet with these fields, and the parser waits for the next.
pub record Delivered (env : Env) (l : Link) (command sequence : ℕ) (payload : List ℕ) (r : Link)
    : Type 0 where
  pub packet : Packet
  pub parser : Parser
  pub left : r ≡ record l { parser = parser; packet = packet; app = handle env l.app packet }
  pub carried : IsCarried command sequence payload packet
  pub array : length packet.payload ≡ max_payload
  pub waits : Holds [] parser

module _ (env : Env) (l : Link) (command sequence : ℕ) (payload : List ℕ) where
  Arrives-settled :
      (bytes : List ℕ)
      → (k : Arrives command sequence payload (feed_all l.parser l.packet bytes))
      → settled env l bytes ≡ record l {
        parser = (feed_all l.parser l.packet bytes).0;
        packet = k.packet;
        app = handle env l.app k.packet;
      }
  unfolding handle_all
  Arrives-settled bytes k =
      ap₂
        (λ q ps. record l {
          parser = (feed_all l.parser l.packet bytes).0;
          packet = q;
          app = handle_all env l.app ps;
        })
        k.left k.alone

  Arrives-IsCarried :
      (bytes : List ℕ)
      → (k : Arrives command sequence payload (feed_all l.parser l.packet bytes))
      → IsCarried command sequence payload k.packet
  Arrives-IsCarried bytes k = record {
    version = k.version;
    command_same = k.command_same;
    sequence_same = k.sequence_same;
    length_same = k.length_same;
    payload_is =
        sym (take-append-drop k.packet.length k.packet.payload)
        ∙ ap₂ ◌++◌ k.payload_same (ap (λ n. drop n k.packet.payload) k.length_same);
  }

  -- The frame of a message on which the device does not restart.
  pub frame-Delivered :
      Holds [] l.parser
      → length l.packet.payload ≡ max_payload
      → IsMessage command sequence payload
      → is_stopped l.app.history ≡ false
      → ((q : Packet)
          → IsCarried command sequence payload q
          → is_stopped (handle env l.app q).history ≡ false)
      → Delivered env l command sequence payload (receive env l (frame command sequence payload))
  frame-Delivered waits array m runs survives =
      let bytes = frame command sequence payload in
      let k = frame-Arrives l.parser l.packet command sequence payload waits array m in
      let carried = Arrives-IsCarried bytes k in
      record {
        packet = k.packet;
        parser = (feed_all l.parser l.packet bytes).0;
        left =
            receive_lem env l bytes
              (subst (Survives env l.app) (sym k.alone) (runs, survives k.packet carried))
            ∙ Arrives-settled bytes k;
        carried = carried;
        array = k.array;
        waits = k.ready;
      }
