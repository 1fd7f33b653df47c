-- ===== src/Protocol/Parser/Stream.antt =====
-- What the parser promises, with no buffer: a function of the bytes seen since the last reset.
use esp32_ota_link.Base.{
  ℕ, ◌+◌, List, [], ◌∷◌, ◌++◌, Bool, ltb, ◌==◌, if◌then◌else◌, length, take, drop, get_or,
  overwrite,
}
use esp32_ota_link.Protocol.Wire.{Packet, magic_0, magic_1, max_payload, read_le16, read_le32}
use esp32_ota_link.Protocol.Crc.{protocol_crc32}

-- `more seen`: the bytes to keep. `whole seen`: the bytes of a packet whose CRC holds.
pub data Outcome : Type 0 where
  more whole : List ℕ → Outcome

-- The LENGTH field of a header.
abbrev pub declared : List ℕ → ℕ
declared seen = read_le16 (drop 6 seen)

abbrev pub crc_holds : List ℕ → Bool
crc_holds seen =
    protocol_crc32 (drop 2 seen) (6 + declared seen) == read_le32 (drop (8 + declared seen) seen)

unfoldable pub accept : List ℕ → Outcome
accept seen =
    if ltb (length seen) 8
    then more seen
    else if ltb max_payload (declared seen)
    then more []
    else if ltb (length seen) (8 + declared seen + 4)
    then more seen
    else if crc_holds seen
    then whole seen
    else more []

unfoldable pub next : List ℕ → ℕ → Outcome
unfolding accept
next [] b = if b == magic_0 then more (b ∷ []) else more []
next (x ∷ []) b =
    if b == magic_1
    then more (x ∷ b ∷ [])
    else if b == magic_0
    then more (magic_0 ∷ [])
    else more []
next (x ∷ y ∷ seen) b = accept (x ∷ y ∷ (seen ++ (b ∷ [])))

-- The packet that the bytes stand for; the payload goes into the array of the old one.
abbrev pub decoded : List ℕ → Packet → Packet
decoded seen packet = record packet {
  version = get_or seen 2 0;
  command = get_or seen 3 0;
  sequence = read_le16 (drop 4 seen);
  length = declared seen;
  payload = overwrite packet.payload 0 (take (declared seen) (drop 8 seen));
}
