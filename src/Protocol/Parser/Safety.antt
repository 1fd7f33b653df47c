-- ===== src/Protocol/Parser/Safety.antt =====
-- The invariant of the parser between two bytes.
use esp32_ota_link.Base.{
  ℕ, ◌+◌, ◌<◌, ◌≡◌, refl, List, [], ◌∷◌, ◌++◌, Bool, arith, ltb, ◌==◌, Bool-cases, inl, inr, length,
}
use esp32_ota_link.Protocol.Wire.{Packet, magic_0, magic_1, max_payload, buffer_size}
use esp32_ota_link.Protocol.Parser.{Parser, parser_init, feed}
use esp32_ota_link.Protocol.Parser.Stream.{Outcome, more, whole, declared, crc_holds, accept, next}
use esp32_ota_link.Protocol.Parser.Refines.{Holds, Agrees, IsPartial, length-IsPartial, feed-Agrees}

-- The buffer has its size, and its head is an incomplete packet.
pub record IsWellFormed (p : Parser) : Type 0 where
  pub seen : List ℕ
  pub incomplete : IsPartial seen
  pub held : Holds seen p

nothing-IsPartial : IsPartial []
nothing-IsPartial = record {
  starts = λ h. absurd (h refl);
  header_only = λ h. absurd (omega arith);
  incomplete = λ h. absurd (omega arith);
}

-- The bytes that an outcome keeps.
abbrev pub kept : Outcome → List ℕ
kept (more seen) = seen
kept (whole seen) = []

short-IsPartial :
    (x : ℕ) (seen : List ℕ) → x ≡ magic_0 → length (x ∷ seen) < 8 → IsPartial (x ∷ seen)
short-IsPartial x seen e h = record {
  starts = λ q. e;
  header_only = λ q. absurd (omega arith);
  incomplete = λ q. absurd (omega arith);
}

accept-IsPartial : (x : ℕ) (seen : List ℕ) → x ≡ magic_0 → IsPartial (kept (accept (x ∷ seen)))
unfolding accept
accept-IsPartial x seen e = elim (Bool-cases (ltb (length (x ∷ seen)) 8)) [
  | inl short ↦ rw short (short-IsPartial x seen e (ground arith))
  | inr header ↦ rw header (elim (Bool-cases (ltb max_payload (declared (x ∷ seen)))) [
    | inl large ↦ rw large nothing-IsPartial
    | inr fits ↦
        rw fits (elim (Bool-cases (ltb (length (x ∷ seen)) (8 + declared (x ∷ seen) + 4))) [
          | inl partial ↦ rw partial (record {
            starts = λ q. e;
            header_only = λ q. ground arith;
            incomplete = λ q. ground arith;
          })
          | inr complete ↦ rw complete (elim (Bool-cases (crc_holds (x ∷ seen))) [
            | inl good ↦ rw good nothing-IsPartial
            | inr bad ↦ rw bad nothing-IsPartial
          ])
        ])
  ])
]

pub next-IsPartial : (seen : List ℕ) (b : ℕ) → IsPartial seen → IsPartial (kept (next seen b))
unfolding next
next-IsPartial [] b v = elim (Bool-cases (b == magic_0)) [
  | inl start ↦ rw start (short-IsPartial b [] (ground arith) (omega arith))
  | inr noise ↦ rw noise nothing-IsPartial
]
next-IsPartial (x ∷ []) b v = elim (Bool-cases (b == magic_1)) [
  | inl second ↦ rw second (short-IsPartial x (b ∷ []) (v.starts (λ q. cc)) (omega arith))
  | inr other ↦ rw other (elim (Bool-cases (b == magic_0)) [
    | inl again ↦ rw again (short-IsPartial magic_0 [] refl (omega arith))
    | inr noise ↦ rw noise nothing-IsPartial
  ])
]
next-IsPartial (x ∷ y ∷ seen) b v = accept-IsPartial x (y ∷ (seen ++ (b ∷ []))) (v.starts (λ q. cc))

pub Agrees-Holds :
    (o : Outcome) (packet : Packet) (r : Parser × Packet × Bool)
    → Agrees o packet r
    → Holds (kept o) r.0
Agrees-Holds (more seen) packet r h = h.0
Agrees-Holds (whole seen) packet r h = h.0

-- `protocol_parser_init` on a buffer of the right size, and each byte fed after that, leave a
-- well-formed parser, whose `length` is below the size of the buffer: the byte that
-- `protocol_parser_feed` stores next lies inside the array.
pub feed-IsWellFormed :
    (p : Parser) (b : ℕ) (packet : Packet)
    → (length p.buffer ≡ buffer_size → IsWellFormed (parser_init p))
      × (IsWellFormed p
          → IsWellFormed (feed p b packet).0 × ((feed p b packet).0.length < buffer_size))
unfolding parser_init
feed-IsWellFormed p b packet = (
  λ e. record {
    seen = [];
    incomplete = nothing-IsPartial;
    held = record { rest = p.buffer; buffered = refl; counted = refl; sized = e };
  },
  λ v.
      let partial = next-IsPartial v.seen b v.incomplete in
      let held =
        Agrees-Holds (next v.seen b) packet (feed p b packet)
          (feed-Agrees p v.seen b packet v.incomplete v.held) in
      (
        record { seen = kept (next v.seen b); incomplete = partial; held = held },
        rw held.counted (length-IsPartial (kept (next v.seen b)) partial),
      ),
)
