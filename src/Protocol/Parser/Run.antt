-- ===== src/Protocol/Parser/Run.antt =====
-- The parser over a run of bytes: what a whole packet gives when its bytes are fed one by one.
use esp32_ota_link.Base.{
  ℕ, ◌+◌, ◌≤◌, ◌≡◌, refl, sym, ap, subst, ◌∙◌, List, [], ◌∷◌, ◌++◌, append_assoc, Bool, true, false,
  arith, ltb, ◌==◌, if◌then◌else◌, Bool-cases, inl, inr, length, length-append, get_or,
}
use esp32_ota_link.Protocol.Wire.{Packet, magic_0, magic_1, max_payload}
use esp32_ota_link.Protocol.Parser.{Parser, feed}
use esp32_ota_link.Protocol.Parser.Stream.{more, whole, declared, crc_holds, accept, next, decoded}
use esp32_ota_link.Protocol.Parser.Refines.{Holds, Agrees, IsPartial, feed-Agrees, read_le16-append}

-- The parser, the packet behind the pointer, and the packets for which `feed` returned true.
unfoldable pub feed_all : Parser → Packet → List ℕ → Parser × Packet × List Packet
feed_all p packet [] = (p, packet, [])
feed_all p packet (b ∷ bs) =
    let r = feed p b packet in
    let rest = feed_all r.0 r.1 bs in (rest.0, rest.1, if r.2 then r.1 ∷ rest.2 else rest.2)

-- The bytes of one packet, of the length that its header declares.
pub record IsPacket (f : List ℕ) : Type 0 where
  pub header : 8 ≤ length f
  pub small : declared f ≤ max_payload
  pub sized : length f ≡ 8 + declared f + 4
  pub first : get_or f 0 0 ≡ magic_0
  pub second : get_or f 1 0 ≡ magic_1

-- One packet if the CRC holds, none otherwise; the parser is ready for the next one.
abbrev pub Verdict : Bool → List ℕ → Packet → Parser × Packet × List Packet → Type 0
Verdict true f packet r = Holds [] r.0 × (r.1 ≡ decoded f packet) × (r.2 ≡ decoded f packet ∷ [])
Verdict false f packet r = Holds [] r.0 × (r.1 ≡ packet) × (r.2 ≡ [])

module _ (f : List ℕ) (k : IsPacket f) where
  -- The header of a part of the packet, once it is there, is the packet's.
  declared_part :
      (seen rest : List ℕ) → seen ++ rest ≡ f → 8 ≤ length seen → declared seen ≡ declared f
  declared_part seen rest e h = sym (read_le16-append 6 seen rest (omega arith)) ∙ ap declared e

  part-IsPartial : (seen : List ℕ) (b : ℕ) (rest : List ℕ) → seen ++ (b ∷ rest) ≡ f → IsPartial seen
  part-IsPartial [] b rest e = record {
    starts = λ h. absurd (h refl);
    header_only = λ h. absurd (omega arith);
    incomplete = λ h. absurd (omega arith);
  }
  part-IsPartial (x ∷ seen) b rest e = record {
    starts = λ h. ap (λ (t : List ℕ). get_or t 0 0) e ∙ k.first;
    header_only = λ h. omega (arith, declared_part (x ∷ seen) (b ∷ rest) e h, k.small);
    incomplete = λ h. omega (
      arith,
      declared_part (x ∷ seen) (b ∷ rest) e h,
      k.sized,
      ap (length {A = ℕ}) e,
      length-append (x ∷ seen) (b ∷ rest),
    );
  }

  -- A byte that does not complete the packet is kept.
  accept_part :
      (seen : List ℕ) (b : ℕ) (rest : List ℕ) → seen ++ (b ∷ rest) ≡ f → accept seen ≡ more seen
  unfolding accept
  accept_part seen b rest e = elim (Bool-cases (ltb (length seen) 8)) [
    | inl short ↦ rw short refl
    | inr header ↦
        let d = declared_part seen (b ∷ rest) e (ground arith) in
        let fits : ltb max_payload (declared seen) ≡ false = ground (arith, d, k.small) in
        let partial : ltb (length seen) (8 + declared seen + 4) ≡ true =
          ground (arith, d, k.sized, ap (length {A = ℕ}) e, length-append seen (b ∷ rest)) in
        rw (header, fits, partial) refl
  ]

  accept_whole : accept f ≡ (if crc_holds f then whole f else more [])
  unfolding accept
  accept_whole =
      let header : ltb (length f) 8 ≡ false = ground (arith, k.header) in
      let fits : ltb max_payload (declared f) ≡ false = ground (arith, k.small) in
      let complete : ltb (length f) (8 + declared f + 4) ≡ false = ground (arith, k.sized) in
      rw (header, fits, complete) refl

  next_part :
      (seen : List ℕ) (b c : ℕ) (rest : List ℕ)
      → seen ++ (b ∷ c ∷ rest) ≡ f
      → next seen b ≡ more (seen ++ (b ∷ []))
  unfolding next
  next_part [] b c rest e =
      let is_first : b ≡ magic_0 = ap (λ (t : List ℕ). get_or t 0 0) e ∙ k.first in
      let test : (b == magic_0) ≡ true = ground arith in rw test refl
  next_part (x ∷ []) b c rest e =
      let is_second : b ≡ magic_1 = ap (λ (t : List ℕ). get_or t 1 0) e ∙ k.second in
      let test : (b == magic_1) ≡ true = ground arith in rw test refl
  next_part (x ∷ y ∷ seen) b c rest e =
      accept_part (x ∷ y ∷ (seen ++ (b ∷ []))) c rest
        (ap (λ t. x ∷ y ∷ t) (append_assoc seen (b ∷ []) (c ∷ rest)) ∙ e)

  next_last :
      (seen : List ℕ) (b : ℕ)
      → seen ++ (b ∷ []) ≡ f
      → next seen b ≡ (if crc_holds f then whole f else more [])
  unfolding next
  next_last [] b e = absurd (omega (arith, k.header, ap (length {A = ℕ}) e))
  next_last (x ∷ []) b e = absurd (omega (arith, k.header, ap (length {A = ℕ}) e))
  next_last (x ∷ y ∷ seen) b e = ap accept e ∙ accept_whole

  skip :
      (v : Bool) (packet : Packet) (r : Parser × Packet × Bool) (bs : List ℕ)
      → r.1 ≡ packet
      → r.2 ≡ false
      → Verdict v f packet (feed_all r.0 packet bs)
      → let rest = feed_all r.0 r.1 bs in
        Verdict v f packet (rest.0, rest.1, if r.2 then r.1 ∷ rest.2 else rest.2)
  skip v packet (p, q, ok) bs e h t = rw (e, h) t

  last :
      (v : Bool) (packet : Packet) (r : Parser × Packet × Bool)
      → Agrees (if v then whole f else more []) packet r
      → Verdict v f packet (r.0, r.1, if r.2 then r.1 ∷ [] else [])
  last true packet (p, q, ok) (h, e, t) = (h, e, rw (t, e) refl)
  last false packet (p, q, ok) (h, e, t) = (h, e, rw t refl)

  pub run_part :
      (p : Parser) (packet : Packet) (seen : List ℕ) (b : ℕ) (rest : List ℕ)
      → Holds seen p
      → seen ++ (b ∷ rest) ≡ f
      → Verdict (crc_holds f) f packet (feed_all p packet (b ∷ rest))
  unfolding feed_all
  run_part p packet seen b [] h e =
      let agrees = feed-Agrees p seen b packet (part-IsPartial seen b [] e) h in
      last (crc_holds f) packet (feed p b packet)
        (subst (λ o. Agrees o packet (feed p b packet)) (next_last seen b e) agrees)
  run_part p packet seen b (c ∷ rest) h e =
      let agrees = feed-Agrees p seen b packet (part-IsPartial seen b (c ∷ rest) e) h in
      let kept =
        subst (λ o. Agrees o packet (feed p b packet)) (next_part seen b c rest e) agrees in
      skip (crc_holds f) packet (feed p b packet) (c ∷ rest) kept.1 kept.2 (
        run_part (feed p b packet).0 packet (seen ++ (b ∷ [])) c rest kept.0
          (append_assoc seen (b ∷ []) (c ∷ rest) ∙ e))
