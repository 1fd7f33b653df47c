-- ===== src/Protocol/Parser/Refines.antt =====
-- The parser with its buffer refines the function of `Stream`; its writes stay in the buffer.
use native.Mathlib.Decide.{dec_le}
use esp32_ota_link.Base.{
  ◌≢◌, ℕ, suc, ◌+◌, ◌≤◌, ◌<◌, ◌≡◌, refl, sym, ap, ◌∙◌, List, [], ◌∷◌, ◌++◌, true, false, not,
  overwrite, arith, ltb, ◌==◌, ◌!=◌, if◌then◌else◌, Bool-cases, inl, inr, length, length-append,
  take, drop, get_or, get_or-append_left, drop-append, take-append, set-append, length-drop,
}
use esp32_ota_link.Protocol.Wire.{
  Packet, magic_0, magic_1, max_payload, buffer_size, read_le16, read_le32,
}
use esp32_ota_link.Protocol.Crc.{protocol_crc32}
use esp32_ota_link.Protocol.Crc.Detects.{protocol_crc32_lem, crc_of}
use esp32_ota_link.Protocol.Parser.{Parser, Fed, feed, examine, finish}
use esp32_ota_link.Protocol.Parser.Stream.{
  Outcome, more, whole, declared, crc_holds, accept, next, decoded,
}

-- The parser has seen these bytes since its last reset: they are the head of its buffer.
pub record Holds (seen : List ℕ) (p : Parser) : Type 0 where
  pub rest : List ℕ
  pub buffered : p.buffer ≡ seen ++ rest
  pub counted : p.length ≡ length seen
  pub sized : length p.buffer ≡ buffer_size

-- The result of `protocol_parser_feed` against an outcome.
abbrev pub Agrees : Outcome → Packet → Fed → Type 0
Agrees (more seen) packet r = Holds seen r.0 × (r.1 ≡ packet) × (r.2 ≡ false)
Agrees (whole seen) packet r = Holds [] r.0 × (r.1 ≡ decoded seen packet) × (r.2 ≡ true)

-- Reads inside the bytes seen.
pub read_le16-append :
    (i : ℕ) (seen rest : List ℕ)
    → i + 2 ≤ length seen
    → read_le16 (drop i (seen ++ rest)) ≡ read_le16 (drop i seen)
unfolding read_le16
read_le16-append i seen rest h =
    rw
      (
        drop-append i seen rest (omega arith),
        get_or-append_left (drop i seen) rest 0 0 (omega (arith, length-drop i seen)),
        get_or-append_left (drop i seen) rest 1 0 (omega (arith, length-drop i seen)),
      )
      refl

read_le32-append :
    (i : ℕ) (seen rest : List ℕ)
    → i + 4 ≤ length seen
    → read_le32 (drop i (seen ++ rest)) ≡ read_le32 (drop i seen)
unfolding read_le32
read_le32-append i seen rest h =
    rw
      (
        drop-append i seen rest (omega arith),
        get_or-append_left (drop i seen) rest 0 0 (omega (arith, length-drop i seen)),
        get_or-append_left (drop i seen) rest 1 0 (omega (arith, length-drop i seen)),
        get_or-append_left (drop i seen) rest 2 0 (omega (arith, length-drop i seen)),
        get_or-append_left (drop i seen) rest 3 0 (omega (arith, length-drop i seen)),
      )
      refl

crc-append :
    (n : ℕ) (seen rest : List ℕ)
    → n + 2 ≤ length seen
    → protocol_crc32 (drop 2 (seen ++ rest)) n ≡ protocol_crc32 (drop 2 seen) n
crc-append n seen rest h =
    protocol_crc32_lem (drop 2 (seen ++ rest)) n
    ∙ ap (λ t. crc_of (take n t)) (drop-append 2 seen rest (omega arith))
    ∙ ap crc_of (take-append n (drop 2 seen) rest (omega (arith, length-drop 2 seen)))
    ∙ sym (protocol_crc32_lem (drop 2 seen) n)

abbrev over : List ℕ → List ℕ → Parser
over seen rest = record { buffer = seen ++ rest; length = length seen }

Holds-over :
    (seen rest : List ℕ) → length (seen ++ rest) ≡ buffer_size → Holds seen (over seen rest)
Holds-over seen rest e = record { rest = rest; buffered = refl; counted = refl; sized = e }

Holds-reset :
    (buffer : List ℕ)
    → length buffer ≡ buffer_size
    → Holds [] (record { buffer = buffer; length = 0 })
Holds-reset buffer e = record { rest = buffer; buffered = refl; counted = refl; sized = e }

ne_lem : (a b : ℕ) → (a != b) ≡ not (a == b)
ne_lem a b = ground arith

-- The two tests of the CRC agree.
judge :
    (a b : ℕ) (seen : List ℕ) (packet : Packet) (x y : Fed)
    → Agrees (more []) packet x
    → Agrees (whole seen) packet y
    → Agrees (if a == b then whole seen else more []) packet (if a != b then x else y)
judge a b seen packet x y hx hy = elim (Bool-cases (a == b)) [
  | inl same ↦ rw (ne_lem a b, same) hy
  | inr differ ↦ rw (ne_lem a b, differ) hx
]

decoded_over :
    (seen rest : List ℕ) (packet : Packet)
    → 8 + declared seen + 4 ≤ length seen
    → record packet {
      version = get_or (seen ++ rest) 2 0;
      command = get_or (seen ++ rest) 3 0;
      sequence = read_le16 (drop 4 (seen ++ rest));
      length = declared seen;
      payload = overwrite packet.payload 0 (take (declared seen) (drop 8 (seen ++ rest)));
    }
      ≡ decoded seen packet
decoded_over seen rest packet h =
    rw
      (
        get_or-append_left seen rest 2 0 (omega arith),
        get_or-append_left seen rest 3 0 (omega arith),
        read_le16-append 4 seen rest (omega arith),
        drop-append 8 seen rest (omega arith),
        take-append (declared seen) (drop 8 seen) rest (omega (arith, length-drop 8 seen)),
      )
      refl

finish-Agrees :
    (seen rest : List ℕ) (packet : Packet)
    → length (seen ++ rest) ≡ buffer_size
    → 8 + declared seen + 4 ≤ length seen
    → Agrees
        (if crc_holds seen then whole seen else more [])
        packet
        (finish (over seen rest) packet (declared seen))
unfolding finish
finish-Agrees seen rest packet e h =
    let crc = crc-append (6 + declared seen) seen rest (omega arith) in
    let expected = read_le32-append (8 + declared seen) seen rest (omega arith) in
    let reset = Holds-reset (seen ++ rest) e in
    rw (crc, expected)
      (judge (protocol_crc32 (drop 2 seen) (6 + declared seen))
        (read_le32 (drop (8 + declared seen) seen)) seen packet _ _ (reset, refl, refl)
        (reset, decoded_over seen rest packet h, refl))

examine-Agrees :
    (seen rest : List ℕ) (packet : Packet)
    → length (seen ++ rest) ≡ buffer_size
    → Agrees (accept seen) packet (examine (over seen rest) packet)
unfolding examine accept
examine-Agrees seen rest packet e = elim (Bool-cases (ltb (length seen) 8)) [
  | inl short ↦ rw short (Holds-over seen rest e, refl, refl)
  | inr header ↦
      let field : declared (seen ++ rest) ≡ declared seen =
        read_le16-append 6 seen rest (ground arith) in
      rw (header, field)
        (elim (Bool-cases (ltb max_payload (declared seen))) [
          | inl large ↦ rw large (Holds-reset (seen ++ rest) e, refl, refl)
          | inr fits ↦ rw fits (elim (Bool-cases (ltb (length seen) (8 + declared seen + 4))) [
            | inl partial ↦ rw partial (Holds-over seen rest e, refl, refl)
            | inr complete ↦ rw complete (finish-Agrees seen rest packet e (ground arith))
          ])
        ])
]

-- The first two bytes.
feed_first :
    (b z : ℕ) (rest : List ℕ) (packet : Packet)
    → length (z ∷ rest) ≡ buffer_size
    → Agrees (next [] b) packet (feed (over [] (z ∷ rest)) b packet)
unfolding feed next
feed_first b z rest packet e = elim (Bool-cases (b == magic_0)) [
  | inl start ↦ rw (ne_lem b magic_0, start) (Holds-over (b ∷ []) rest e, refl, refl)
  | inr noise ↦ rw (ne_lem b magic_0, noise) (Holds-over [] (z ∷ rest) e, refl, refl)
]

feed_second :
    (x b z : ℕ) (rest : List ℕ) (packet : Packet)
    → x ≡ magic_0
    → length (x ∷ z ∷ rest) ≡ buffer_size
    → Agrees (next (x ∷ []) b) packet (feed (over (x ∷ []) (z ∷ rest)) b packet)
unfolding feed next
feed_second x b z rest packet first e = elim (Bool-cases (b == magic_1)) [
  | inl second ↦ rw (ne_lem b magic_1, second) (Holds-over (x ∷ b ∷ []) rest e, refl, refl)
  | inr other ↦
      rw (ne_lem b magic_1, other)
        (elim (Bool-cases (b == magic_0)) [
          | inl again ↦ rw again (Holds-over (magic_0 ∷ []) (z ∷ rest) e, refl, refl)
          | inr noise ↦ rw noise (Holds-reset (magic_0 ∷ z ∷ rest) e, refl, refl)
        ])
]

feed_later :
    (x y b z : ℕ) (seen rest : List ℕ) (packet : Packet)
    → length (x ∷ y ∷ (seen ++ (z ∷ rest))) ≡ buffer_size
    → Agrees (next (x ∷ y ∷ seen) b) packet (feed (over (x ∷ y ∷ seen) (z ∷ rest)) b packet)
unfolding feed next
feed_later x y b z seen rest packet e =
    rw (not_zero, not_one, grows, set-append seen rest z b)
      (examine-Agrees (x ∷ y ∷ (seen ++ (b ∷ []))) rest packet (
        omega (
          arith,
          e,
          length-append (seen ++ (b ∷ [])) rest,
          length-append seen (b ∷ []),
          length-append seen (z ∷ rest),
        )))
  where
    not_zero : (suc (suc (length seen)) == 0) ≡ false
    not_zero = ground arith

    not_one : (suc (suc (length seen)) == 1) ≡ false
    not_one = ground arith

    grows : suc (suc (length seen)) + 1 ≡ suc (suc (length (seen ++ (b ∷ []))))
    grows = omega (arith, length-append seen (b ∷ []))

-- Reading starts with the first magic byte, and stops when the packet is complete.
pub record IsPartial (seen : List ℕ) : Type 0 where
  pub starts : seen ≢ [] → get_or seen 0 0 ≡ magic_0
  pub header_only : 8 ≤ length seen → declared seen ≤ max_payload
  pub incomplete : 8 ≤ length seen → length seen < 8 + declared seen + 4

pub length-IsPartial : (seen : List ℕ) → IsPartial seen → length seen < buffer_size
length-IsPartial seen v = elim (dec_le 8 (length seen)) [
  | yes h ↦ omega (arith, v.header_only h, v.incomplete h)
  | no h ↦ omega arith
]

feed-over :
    (seen rest : List ℕ) (b : ℕ) (packet : Packet)
    → IsPartial seen
    → length (seen ++ rest) ≡ buffer_size
    → Agrees (next seen b) packet (feed (over seen rest) b packet)
feed-over [] [] b packet v e = absurd (omega arith)
feed-over [] (z ∷ rest) b packet v e = feed_first b z rest packet e
feed-over (x ∷ []) [] b packet v e = absurd (omega arith)
feed-over (x ∷ []) (z ∷ rest) b packet v e = feed_second x b z rest packet (v.starts (λ q. cc)) e
feed-over (x ∷ y ∷ seen) [] b packet v e =
    absurd (omega (arith, e, length-append (x ∷ y ∷ seen) [], length-IsPartial (x ∷ y ∷ seen) v))
feed-over (x ∷ y ∷ seen) (z ∷ rest) b packet v e = feed_later x y b z seen rest packet e

-- `protocol_parser_feed` refines `next`: on a parser that holds the bytes of an incomplete packet
-- at the head of its buffer, one more byte gives the outcome of `next` on these bytes. It returns
-- true exactly when they become a packet with a good CRC, which it then decodes; otherwise it
-- leaves the caller's packet alone.
pub feed-Agrees :
    (p : Parser) (seen : List ℕ) (b : ℕ) (packet : Packet)
    → IsPartial seen
    → Holds seen p
    → Agrees (next seen b) packet (feed p b packet)
feed-Agrees p seen b packet v h =
    rw same (feed-over seen h.rest b packet v (ap length (sym h.buffered) ∙ h.sized))
  where
    same : p ≡ over seen h.rest
    same = λ i. record { buffer = h.buffered i; length = h.counted i }
