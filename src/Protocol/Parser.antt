-- ===== src/Protocol/Parser.antt =====
-- The streaming parser of protocol.c: `protocol_parser_init` and `protocol_parser_feed`.
pub mod Stream
pub mod Refines
pub mod Safety
pub mod Run
use esp32_ota_link.Base.{
  ℕ, ◌+◌, ◌-◌, List, Bool, true, false, ◌&&◌, ltb, ◌==◌, ◌!=◌, if◌then◌else◌, get_or, set, take,
  drop, overwrite,
}
use esp32_ota_link.Protocol.Wire.{
  Packet, magic_0, magic_1, max_payload, header_size, crc_size, read_le16, read_le32,
}
use esp32_ota_link.Protocol.Crc.{protocol_crc32}

-- `protocol_parser_t`.
pub record Parser : Type 0 where
  pub buffer : List ℕ
  pub length : ℕ

-- What `protocol_parser_feed` leaves: the parser, the packet behind the pointer, the result.
abbrev pub Fed : Type 0
Fed = Parser × Packet × Bool

unfoldable pub parser_init : Parser → Parser
parser_init p = record p { length = 0 }

-- The end of `protocol_parser_feed`, when the buffer holds a whole packet.
unfoldable pub finish : Parser → Packet → ℕ → Fed
finish p packet payload_length =
    let expected_crc = read_le32 (drop (header_size + payload_length) p.buffer) in
    let actual_crc = protocol_crc32 (drop 2 p.buffer) (header_size - 2 + payload_length) in
    let reset = record p { length = 0 } in
    if actual_crc != expected_crc then (reset, packet, false) else (
      reset,
      record packet {
        version = get_or p.buffer 2 0;
        command = get_or p.buffer 3 0;
        sequence = read_le16 (drop 4 p.buffer);
        length = payload_length;
        payload = overwrite packet.payload 0 (take payload_length (drop header_size p.buffer));
      },
      true,
    )

-- From `parser->buffer[parser->length++] = byte` on; `p` is the parser after that line.
unfoldable pub examine : Parser → Packet → Fed
unfolding finish
examine p packet =
    let payload_length = read_le16 (drop 6 p.buffer) in
    if ltb p.length header_size
    then (p, packet, false)
    else if ltb max_payload payload_length
    then (record p { length = 0 }, packet, false)
    else if ltb p.length (header_size + payload_length + crc_size)
    then (p, packet, false)
    else finish p packet payload_length

unfoldable pub feed : Parser → ℕ → Packet → Fed
unfolding examine
feed p byte packet =
    if p.length == 0 && byte != magic_0
    then (p, packet, false)
    else if p.length == 1 && byte != magic_1
    then (
      record p { buffer = set p.buffer 0 magic_0; length = if byte == magic_0 then 1 else 0 },
      packet,
      false,
    )
    else examine (record p { buffer = set p.buffer p.length byte; length = p.length + 1 }) packet
