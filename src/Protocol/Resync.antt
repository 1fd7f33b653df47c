-- ===== src/Protocol/Resync.antt =====
-- `protocol_parser_feed` of protocol.c after noise on the line.
use esp32_ota_link.Base.{
  ℕ, zero, suc, ◌+◌, ◌≤◌, ◌≡◌, refl, sym, ap, subst, ◌∙◌, ◌⊎◌, inl, inr, List, [], ◌∷◌, ◌++◌, arith,
  Bool, false, ltb, ◌==◌, if_cases, length, length-append, length-overwrite, take, drop,
  if◌then◌else◌,
}
use esp32_ota_link.Protocol.Wire.{Packet, magic_0, magic_1, max_payload, buffer_size}
use esp32_ota_link.Protocol.Frame.{frame}
use esp32_ota_link.Protocol.RoundTrip.{IsMessage, Arrives, frame-Arrives, rest-Arrives}
use esp32_ota_link.Protocol.Parser.{Parser, feed}
use esp32_ota_link.Protocol.Parser.Stream.{Outcome, more, whole, declared, crc_holds, accept, next}
use esp32_ota_link.Protocol.Parser.Refines.{Holds, Agrees, IsPartial, feed-Agrees, length-IsPartial}
use esp32_ota_link.Protocol.Parser.Safety.{IsWellFormed, kept, Agrees-Holds, feed-IsWellFormed}
use esp32_ota_link.Protocol.Parser.Run.{feed_all}

-- A byte extends what is kept by one, or next to nothing is left.
abbrev Grows : List ℕ → Outcome → Type 0
Grows seen o = (length (kept o) ≤ 1) ⊎ (length (kept o) ≡ length seen + 1)

accept-Grows : (seen all : List ℕ) → length all ≡ length seen + 1 → Grows seen (accept all)
unfolding accept
accept-Grows seen all e =
    if_cases (Grows seen) (ltb (length all) 8) (λ t. inr e)
      (λ t.
        if_cases (Grows seen) (ltb max_payload (declared all)) (λ t. inl (omega arith))
          (λ t.
            if_cases (Grows seen) (ltb (length all) (8 + declared all + 4)) (λ t. inr e)
              (λ t.
                if_cases (Grows seen) (crc_holds all) (λ t. inl (omega arith))
                  (λ t. inl (omega arith)))))

next-Grows : (seen : List ℕ) (b : ℕ) → Grows seen (next seen b)
unfolding next
next-Grows [] b =
    if_cases (Grows []) (b == magic_0) (λ t. inl (omega arith)) (λ t. inl (omega arith))
next-Grows (x ∷ []) b =
    if_cases (Grows (x ∷ [])) (b == magic_1) (λ t. inr refl)
      (λ t.
        if_cases (Grows (x ∷ [])) (b == magic_0) (λ t. inl (omega arith)) (λ t. inl (omega arith)))
next-Grows (x ∷ y ∷ seen) b =
    accept-Grows (x ∷ y ∷ seen) (x ∷ y ∷ (seen ++ (b ∷ [])))
      (omega (arith, length-append seen (b ∷ [])))

-- The same of the parser's own length.
feed-grows :
    (p : Parser) (b : ℕ) (packet : Packet)
    → IsWellFormed p
    → ((feed p b packet).0.length ≤ 1) ⊎ ((feed p b packet).0.length ≡ p.length + 1)
feed-grows p b packet v =
    let o = next v.seen b in
    let held =
      Agrees-Holds o packet (feed p b packet) (feed-Agrees p v.seen b packet v.incomplete v.held) in
    elim (next-Grows v.seen b) [
      | inl small ↦ inl (omega (arith, held.counted))
      | inr grown ↦ inr (omega (arith, held.counted, v.held.counted))
    ]

-- The packet's array keeps its size.
array_kept :
    (o : Outcome) (packet : Packet) (r : Parser × Packet × Bool)
    → Agrees o packet r
    → length r.1.payload ≡ length packet.payload
array_kept (more seen) packet r h = ap (λ (q : Packet). length q.payload) h.1
array_kept (whole seen) packet r h =
    ap (λ (q : Packet). length q.payload) h.1
    ∙ length-overwrite packet.payload 0 (take (declared seen) (drop 8 seen))

-- The parser is at a point where a frame that starts now arrives.
record IsOpenFor (xs : List ℕ) (p : Parser) (packet : Packet) : Type 0 where
  formed : IsWellFormed (feed_all p packet xs).0
  short : (feed_all p packet xs).0.length ≤ 1
  array : length (feed_all p packet xs).1.payload ≡ length packet.payload

-- After enough bytes there was such a point.
finds :
    (n : ℕ) (p : Parser) (packet : Packet) (bs : List ℕ)
    → IsWellFormed p
    → buffer_size ≤ p.length + n
    → n ≤ length bs
    → (xs ys : List ℕ) × (bs ≡ xs ++ ys) × IsOpenFor xs p packet
unfolding feed_all
finds zero p packet bs v full enough =
    absurd (omega (arith, v.held.counted, length-IsPartial v.seen v.incomplete))
finds (suc n) p packet [] v full enough = absurd (omega arith)
finds (suc n) p packet (b ∷ bs) v full enough = elim (feed-grows p b packet v) [
  | inl small ↦ (b ∷ [], bs, refl, record { formed = formed; short = small; array = array })
  | inr grown ↦
      let (xs, ys, e, o) =
        finds n (feed p b packet).0 (feed p b packet).1 bs formed (omega arith) (omega arith) in
      (
        b ∷ xs,
        ys,
        ap (λ t. b ∷ t) e,
        record { formed = o.formed; short = o.short; array = o.array ∙ array },
      )
]
  where
    formed : IsWellFormed (feed p b packet).0
    formed = ((feed-IsWellFormed p b packet).1 v).0

    array : length (feed p b packet).1.payload ≡ length packet.payload
    array =
        array_kept (next v.seen b) packet (feed p b packet)
          (feed-Agrees p v.seen b packet v.incomplete v.held)

-- A byte that delivers nothing can be passed over.
passed :
    (command sequence : ℕ) (payload bs : List ℕ) (p : Parser) (packet : Packet) (b : ℕ)
    → (feed p b packet).2 ≡ false
    → Arrives command sequence payload (feed_all (feed p b packet).0 (feed p b packet).1 bs)
    → Arrives command sequence payload (feed_all p packet (b ∷ bs))
unfolding feed_all
passed command sequence payload bs p packet b none_yet k = go (feed p b packet) none_yet k
  where
    go :
        (r : Parser × Packet × Bool)
        → r.2 ≡ false
        → Arrives command sequence payload (feed_all r.0 r.1 bs)
        → Arrives command sequence payload (
            let rest = feed_all r.0 r.1 bs in
            (rest.0, rest.1, if r.2 then r.1 ∷ rest.2 else rest.2))
    go (q, packet', ok) e k = rw e k

next_again : (x : ℕ) → next (x ∷ []) magic_0 ≡ more (magic_0 ∷ [])
unfolding next
next_again x = refl

-- A frame that starts now arrives, even if the parser keeps a first magic byte.
short-Arrives :
    (p : Parser) (packet : Packet) (command sequence : ℕ) (payload seen : List ℕ)
    → Holds seen p
    → IsPartial seen
    → length seen ≤ 1
    → length packet.payload ≡ max_payload
    → IsMessage command sequence payload
    → Arrives command sequence payload (feed_all p packet (frame command sequence payload))
short-Arrives p packet command sequence payload [] h partial small array m =
    frame-Arrives p packet command sequence payload h array m
short-Arrives p packet command sequence payload (x ∷ []) h partial small array m =
    passed command sequence payload rest p packet magic_0 again.2 (
      subst (λ q. Arrives command sequence payload (feed_all (feed p magic_0 packet).0 q rest))
        (sym again.1)
        (rest-Arrives (feed p magic_0 packet).0 packet command sequence payload (magic_0 ∷ [])
          magic_1 _ again.0 refl array m))
  where
    rest : List ℕ
    rest = drop 1 (frame command sequence payload)

    again : Agrees (more (magic_0 ∷ [])) packet (feed p magic_0 packet)
    again =
        subst (λ o. Agrees o packet (feed p magic_0 packet)) (next_again x)
          (feed-Agrees p (x ∷ []) magic_0 packet partial h)
short-Arrives p packet command sequence payload (x ∷ y ∷ seen) h partial small array m =
    absurd (omega arith)

-- From any well-formed parser, among any bytes as many as its buffer holds there is a point from
-- which on a frame arrives: fed right there, it comes out as just one packet with its fields.
pub feed_all-resyncs :
    (p : Parser) (packet : Packet) (bs : List ℕ) (command sequence : ℕ) (payload : List ℕ)
    → IsWellFormed p
    → length packet.payload ≡ max_payload
    → buffer_size ≤ length bs
    → IsMessage command sequence payload
    → (xs ys : List ℕ) × (bs ≡ xs ++ ys)
      × (let r = feed_all p packet xs in
          Arrives command sequence payload (feed_all r.0 r.1 (frame command sequence payload)))
feed_all-resyncs p packet bs command sequence payload v array long m =
    let (xs, ys, e, o) = finds buffer_size p packet bs v (omega arith) long in
    (
      xs,
      ys,
      e,
      short-Arrives (feed_all p packet xs).0 (feed_all p packet xs).1 command sequence payload
          o.formed.seen o.formed.held o.formed.incomplete
          (omega (arith, o.short, o.formed.held.counted)) (o.array ∙ array) m,
    )
