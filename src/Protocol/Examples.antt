-- ===== src/Protocol/Examples.antt =====
-- Tests of the protocol's properties: a parser, a packet and a sender at start-up, and small
-- messages.
use esp32_ota_link.Base.{
  ℕ, ◌<◌, ◌≡◌, refl, List, [], ◌∷◌, ◌++◌, none, some, arith, length, take, replicate,
  length-replicate,
}
use esp32_ota_link.Idf.{wrote}
use esp32_ota_link.Protocol.Wire.{Packet, buffer_size, max_payload, read_le16}
use esp32_ota_link.Protocol.Crc.Detects.{crc_detects_byte}
use esp32_ota_link.Protocol.Fields.{le16}
use esp32_ota_link.Protocol.Frame.{content, frame, writer_in_use, IsReady, send_packet_lem}
use esp32_ota_link.Protocol.Sender.{Sender, send_packet}
use esp32_ota_link.Protocol.Parser.{Parser, parser_init, feed}
use esp32_ota_link.Protocol.Parser.Stream.{next}
use esp32_ota_link.Protocol.Parser.Refines.{Holds, IsPartial, Agrees, feed-Agrees}
use esp32_ota_link.Protocol.Parser.Safety.{IsWellFormed, feed-IsWellFormed}
use esp32_ota_link.Protocol.Parser.Run.{feed_all}
use esp32_ota_link.Protocol.Resync.{feed_all-resyncs}
use esp32_ota_link.Protocol.RoundTrip.{
  IsMessage, Arrives, frame-Arrives, send-feed, damaged, damaged_dropped,
}

abbrev fresh_parser : Parser
fresh_parser = record { buffer = replicate buffer_size 0; length = 0 }

abbrev fresh_packet : Packet
fresh_packet = record {
  version = 0;
  command = 0;
  sequence = 0;
  length = 0;
  payload = replicate max_payload 0;
}

abbrev fresh_sender : Sender
fresh_sender = record { uart_port = 0; write = none; tx_buffer = replicate buffer_size 0 }

array_sized : length (replicate {A = ℕ} max_payload 0) ≡ max_payload
array_sized = length-replicate {A = ℕ} max_payload 0

fresh-Holds : Holds [] fresh_parser
fresh-Holds = record {
  rest = replicate buffer_size 0;
  buffered = refl;
  counted = refl;
  sized = length-replicate {A = ℕ} buffer_size 0;
}

fresh-IsReady : IsReady fresh_sender
fresh-IsReady = record { sized = length-replicate {A = ℕ} buffer_size 0 }

ping-IsMessage : IsMessage 1 5 (9 ∷ [])
ping-IsMessage = record {
  command_byte = omega arith;
  sequence_word = omega arith;
  bytes = (omega arith, tt);
  small = omega arith;
}

none_seen : IsPartial []
none_seen = record {
  starts = λ h. absurd (h refl);
  header_only = λ h. absurd (omega arith);
  incomplete = λ h. absurd (omega arith);
}

send-feed_example :
    (bytes : List ℕ) × ((send_packet fresh_sender 1 5 (some (9 ∷ [])) 1 []).1
      ≡ wrote (writer_in_use fresh_sender) bytes ∷ [])
    × Arrives 1 5 (9 ∷ []) (feed_all fresh_parser fresh_packet bytes)
send-feed_example =
    send-feed fresh_sender [] fresh_parser fresh_packet 1 5 (9 ∷ []) fresh-IsReady fresh-Holds
      array_sized ping-IsMessage

frame-Arrives_example :
    Arrives 1 5 (9 ∷ []) (feed_all fresh_parser fresh_packet (frame 1 5 (9 ∷ [])))
frame-Arrives_example =
    frame-Arrives fresh_parser fresh_packet 1 5 (9 ∷ []) fresh-Holds array_sized ping-IsMessage

-- The command 1 arrives as 2.
abbrev damaged_ping : List ℕ
damaged_ping = damaged (1 ∷ []) 2 (le16 5 ++ (le16 1 ++ (9 ∷ []))) (content 1 5 (9 ∷ []))

damaged_dropped_example :
    ((feed_all fresh_parser fresh_packet damaged_ping).2 ≡ [])
    × ((feed_all fresh_parser fresh_packet damaged_ping).1 ≡ fresh_packet)
    × Holds [] (feed_all fresh_parser fresh_packet damaged_ping).0
unfolding read_le16
damaged_dropped_example =
    damaged_dropped fresh_parser fresh_packet 1 5 (9 ∷ []) (1 ∷ []) (le16 5 ++ (le16 1 ++ (9 ∷ [])))
      1 2 fresh-Holds ping-IsMessage refl (omega arith) (omega arith) (omega arith) (omega arith)

-- The byte in the middle of a message.
abbrev middle : ℕ
middle = 2

crc_detects_byte_example : middle ≡ middle
crc_detects_byte_example =
    crc_detects_byte (1 ∷ []) (3 ∷ []) middle middle 3 (omega arith, tt) (omega arith, tt)
      (omega arith) (omega arith) refl refl

feed-Agrees_example : Agrees (next [] 0xaa) fresh_packet (feed fresh_parser 0xaa fresh_packet)
feed-Agrees_example = feed-Agrees fresh_parser [] 0xaa fresh_packet none_seen fresh-Holds

feed-IsWellFormed_example :
    (length (replicate {A = ℕ} buffer_size 0) ≡ buffer_size
      → IsWellFormed (parser_init fresh_parser))
    × (IsWellFormed fresh_parser
        → IsWellFormed (feed fresh_parser 0xaa fresh_packet).0
          × ((feed fresh_parser 0xaa fresh_packet).0.length < buffer_size))
feed-IsWellFormed_example = feed-IsWellFormed fresh_parser 0xaa fresh_packet

send_packet_lem_example :
    ((send_packet fresh_sender 1 5 (some (9 ∷ 8 ∷ [])) 1 []).1
      ≡ wrote (writer_in_use fresh_sender) (frame 1 5 (take 1 (9 ∷ 8 ∷ []))) ∷ [])
    × IsReady (send_packet fresh_sender 1 5 (some (9 ∷ 8 ∷ [])) 1 []).0
send_packet_lem_example =
    send_packet_lem fresh_sender 1 5 1 (9 ∷ 8 ∷ []) [] fresh-IsReady (omega arith) (omega arith)

feed_all-resyncs_example :
    (xs ys : List ℕ) × (replicate 1036 0 ≡ xs ++ ys)
    × (let r = feed_all fresh_parser fresh_packet xs in
        Arrives 1 5 (9 ∷ []) (feed_all r.0 r.1 (frame 1 5 (9 ∷ []))))
unfolding parser_init
feed_all-resyncs_example =
    feed_all-resyncs fresh_parser fresh_packet (replicate 1036 0) 1 5 (9 ∷ [])
      ((feed-IsWellFormed fresh_parser 0 fresh_packet).0 (length-replicate {A = ℕ} buffer_size 0))
      array_sized (omega (arith, length-replicate {A = ℕ} 1036 0)) ping-IsMessage
