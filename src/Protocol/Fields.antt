-- ===== src/Protocol/Fields.antt =====
-- The little-endian fields of protocol.c: what a write puts into the array, a read gives back.
use esp32_ota_link.Base.{
  ℕ, ◌+◌, ◌*◌, ◌/◌, ◌%◌, ◌^◌, ◌<◌, ◌≡◌, ◌∙◌, List, [], ◌∷◌, ◌++◌, arith, bit_and, IsBytes,
}
use esp32_ota_link.Base.Bits.{bit_and_byte, bit_or_low}
use esp32_ota_link.Protocol.Wire.{read_le16, read_le32}

-- The bytes of a field, lowest first.
abbrev pub le16 : ℕ → List ℕ
le16 v = v % 256 ∷ v / 256 % 256 ∷ []

abbrev pub le32 : ℕ → List ℕ
le32 v = v % 256 ∷ v / 256 % 256 ∷ v / 65536 % 256 ∷ v / 16777216 % 256 ∷ []

-- A read is the number that the bytes stand for.
pub read_le16_lem :
    (a b : ℕ) (rest : List ℕ) → a < 256 → b < 256 → read_le16 (a ∷ b ∷ rest) ≡ a + b * 256
unfolding read_le16
read_le16_lem a b rest ha hb = omega (arith, bit_or_low 8 a b ha)

pub read_le32_lem :
    (a b c d : ℕ) (rest : List ℕ)
    → a < 256
    → b < 256
    → c < 256
    → d < 256
    → read_le32 (a ∷ b ∷ c ∷ d ∷ rest) ≡ a + b * 256 + c * 65536 + d * 16777216
unfolding read_le32
read_le32_lem a b c d rest ha hb hc hd =
    rw
      (
        bit_or_low 8 a b ha,
        bit_or_low 16 (a + b * 2 ^ 8) c (omega arith),
        bit_or_low 24 (a + b * 2 ^ 8 + c * 2 ^ 16) d (omega arith),
      )
      (omega arith)

pub read_le16-le16 : (v : ℕ) (rest : List ℕ) → v < 65536 → read_le16 (le16 v ++ rest) ≡ v
read_le16-le16 v rest h =
    read_le16_lem (v % 256) (v / 256 % 256) rest (omega arith) (omega arith) ∙ omega arith

pub read_le32-le32 : (v : ℕ) (rest : List ℕ) → v < 2 ^ 32 → read_le32 (le32 v ++ rest) ≡ v
read_le32-le32 v rest h =
    read_le32_lem (v % 256) (v / 256 % 256) (v / 65536 % 256) (v / 16777216 % 256) rest
      (omega arith) (omega arith) (omega arith) (omega arith)
    ∙ omega arith

pub low_byte : (v : ℕ) → bit_and v 0xff ≡ v % 256
low_byte = bit_and_byte

pub IsBytes-le16 : (v : ℕ) → IsBytes (le16 v)
IsBytes-le16 v = omega arith

pub IsBytes-le32 : (v : ℕ) → IsBytes (le32 v)
IsBytes-le32 v = omega arith
