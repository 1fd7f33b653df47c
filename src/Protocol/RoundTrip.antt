-- ===== src/Protocol/RoundTrip.antt =====
-- From `protocol_send_packet` to `protocol_parser_feed`: frames are packets, they arrive, and
-- damaged ones do not.
use esp32_ota_link.Base.{
  ℕ, ◌+◌, ◌≤◌, ◌<◌, ◌≡◌, ◌≢◌, refl, sym, ap, ap₂, subst, ◌∙◌, List, [], ◌∷◌, ◌++◌, append-nil, true,
  false, arith, ◌==◌, ==_iff, Bool-cases, inl, inr, length, length-append, take, drop, overwrite,
  length-overwrite, IsBytes, IsBytes-append, IsBytes-parts, take_append, drop_append,
  take-overwrite, some, take_all,
}
use esp32_ota_link.Idf.{wrote, History}
use esp32_ota_link.Protocol.Wire.{
  Packet, body, magic_0, magic_1, version_1, max_payload, read_le16, read_le32,
}
use esp32_ota_link.Protocol.Crc.Detects.{crc_of, crc_of-lt, crc_of_detects, protocol_crc32_lem}
use esp32_ota_link.Protocol.Fields.{le16, le32, read_le16-le16, read_le32-le32, IsBytes-le16}
use esp32_ota_link.Protocol.Frame.{content, frame, writer_in_use, IsReady, send_packet_lem}
use esp32_ota_link.Protocol.Sender.{Sender, send_packet}
use esp32_ota_link.Protocol.Parser.{Parser}
use esp32_ota_link.Protocol.Parser.Stream.{declared, crc_holds, decoded}
use esp32_ota_link.Protocol.Parser.Refines.{Holds}
use esp32_ota_link.Protocol.Parser.Run.{feed_all, IsPacket, Verdict, run_part}

-- The fields of a request or response, and their ranges.
pub record IsMessage (command sequence : ℕ) (payload : List ℕ) : Type 0 where
  pub command_byte : command < 256
  pub sequence_word : sequence < 65536
  pub bytes : IsBytes payload
  pub small : length payload ≤ max_payload

-- A frame whose checked bytes are `xs`, with the CRC of `ys`.
abbrev framed : List ℕ → List ℕ → List ℕ
framed xs ys = magic_0 ∷ magic_1 ∷ (xs ++ le32 (crc_of ys))

-- The shape of a packet with any six header bytes behind the magic.
framed-IsPacket :
    (a b c d e g : ℕ) (rest ys : List ℕ)
    → declared (framed (a ∷ b ∷ c ∷ d ∷ e ∷ g ∷ rest) ys) ≡ length rest
    → length rest ≤ max_payload
    → IsPacket (framed (a ∷ b ∷ c ∷ d ∷ e ∷ g ∷ rest) ys)
framed-IsPacket a b c d e g rest ys dec small = record {
  header = omega arith;
  small = rw dec small;
  sized = rw dec (omega (arith, length-append rest (le32 (crc_of ys))));
  first = refl;
  second = refl;
}

declared-frame :
    (command sequence : ℕ) (payload : List ℕ)
    → length payload ≤ max_payload
    → declared (frame command sequence payload) ≡ length payload
declared-frame command sequence payload h = read_le16-le16 (length payload) _ (omega arith)

frame-IsPacket :
    (command sequence : ℕ) (payload : List ℕ)
    → length payload ≤ max_payload
    → IsPacket (frame command sequence payload)
frame-IsPacket command sequence payload h =
    framed-IsPacket _ _ _ _ _ _ payload (content command sequence payload)
      (declared-frame command sequence payload h) h

IsBytes-content :
    (command sequence : ℕ) (payload : List ℕ)
    → IsMessage command sequence payload
    → IsBytes (content command sequence payload)
IsBytes-content command sequence payload m = (
  omega arith,
  (
    m.command_byte,
    IsBytes-append (le16 sequence) (le16 (length payload) ++ payload) (IsBytes-le16 sequence)
        (IsBytes-append (le16 (length payload)) payload (IsBytes-le16 (length payload)) m.bytes),
  ),
)

-- The CRC test on a frame compares the CRC of its checked bytes with the one sent.
crc_framed :
    (xs ys : List ℕ)
    → length xs ≡ 6 + declared (framed xs ys)
    → IsBytes ys
    → crc_holds (framed xs ys) ≡ (crc_of xs == crc_of ys)
crc_framed xs ys e hy =
    ap₂ ◌==◌
      (protocol_crc32_lem (xs ++ le32 (crc_of ys)) (6 + declared (framed xs ys))
        ∙ ap crc_of (take_append xs (le32 (crc_of ys)) _ e))
      (ap read_le32 (drop_append (magic_0 ∷ magic_1 ∷ xs) (le32 (crc_of ys)) _ (omega (arith, e)))
        ∙ ap read_le32 (sym (append-nil (le32 (crc_of ys))))
        ∙ read_le32-le32 (crc_of ys) [] (crc_of-lt ys hy))

crc_frame :
    (command sequence : ℕ) (payload : List ℕ)
    → IsMessage command sequence payload
    → crc_holds (frame command sequence payload) ≡ true
crc_frame command sequence payload m =
    crc_framed (content command sequence payload) (content command sequence payload)
      (rw (declared-frame command sequence payload m.small) (omega arith))
      (IsBytes-content command sequence payload m)
    ∙ (==_iff _ _).1 refl

-- One packet with these fields came out, and the parser waits for the next.
pub record Arrives (command sequence : ℕ) (payload : List ℕ) (r : Parser × Packet × List Packet)
    : Type 0 where
  pub packet : Packet
  pub alone : r.2 ≡ packet ∷ []
  pub left : r.1 ≡ packet
  pub version : packet.version ≡ version_1
  pub command_same : packet.command ≡ command
  pub sequence_same : packet.sequence ≡ sequence
  pub length_same : packet.length ≡ length payload
  pub payload_same : body packet ≡ payload
  pub array : length packet.payload ≡ max_payload
  pub ready : Holds [] r.0

body-decoded :
    (command sequence : ℕ) (payload : List ℕ) (packet : Packet)
    → length payload ≤ max_payload
    → length packet.payload ≡ max_payload
    → body (decoded (frame command sequence payload) packet) ≡ payload
body-decoded command sequence payload packet small array =
    let f = frame command sequence payload in
    ap (λ n. take n (overwrite packet.payload 0 (take n (drop 8 f))))
      (declared-frame command sequence payload small)
    ∙ ap (λ t. take (length payload) (overwrite packet.payload 0 t))
        (take_append payload _ (length payload) refl)
    ∙ take-overwrite packet.payload 0 payload (length payload) (omega arith) (omega arith)

-- What a run over the frame leaves, as an arrival.
Verdict-Arrives :
    (packet : Packet) (command sequence : ℕ) (payload : List ℕ) (r : Parser × Packet × List Packet)
    → length packet.payload ≡ max_payload
    → IsMessage command sequence payload
    → Verdict true (frame command sequence payload) packet r
    → Arrives command sequence payload r
Verdict-Arrives packet command sequence payload r array m out =
    let f = frame command sequence payload in
    record {
      packet = decoded f packet;
      alone = out.2;
      left = out.1;
      version = refl;
      command_same = refl;
      sequence_same = read_le16-le16 sequence _ m.sequence_word;
      length_same = declared-frame command sequence payload m.small;
      payload_same = body-decoded command sequence payload packet m.small array;
      array = length-overwrite packet.payload 0 (take (declared f) (drop 8 f)) ∙ array;
      ready = out.0;
    }

-- The rest of a frame, fed to a parser that holds its beginning, arrives.
pub rest-Arrives :
    (p : Parser) (packet : Packet) (command sequence : ℕ) (payload seen : List ℕ) (b : ℕ)
    (rest : List ℕ)
    → Holds seen p
    → seen ++ (b ∷ rest) ≡ frame command sequence payload
    → length packet.payload ≡ max_payload
    → IsMessage command sequence payload
    → Arrives command sequence payload (feed_all p packet (b ∷ rest))
rest-Arrives p packet command sequence payload seen b rest h e array m =
    let f = frame command sequence payload in
    let out =
      run_part f (frame-IsPacket command sequence payload m.small) p packet seen b rest h e in
    Verdict-Arrives packet command sequence payload (feed_all p packet (b ∷ rest)) array m (
      subst (λ v. Verdict v f packet (feed_all p packet (b ∷ rest)))
        (crc_frame command sequence payload m) out)

-- The frame of a message, fed to a parser that waits for a packet, arrives: just one packet comes
-- out, with the version, the command, the sequence number and the payload of the message.
pub frame-Arrives :
    (p : Parser) (packet : Packet) (command sequence : ℕ) (payload : List ℕ)
    → Holds [] p
    → length packet.payload ≡ max_payload
    → IsMessage command sequence payload
    → Arrives command sequence payload (feed_all p packet (frame command sequence payload))
frame-Arrives p packet command sequence payload h array m =
    rest-Arrives p packet command sequence payload [] _ _ h refl array m

-- What `protocol_send_packet` writes, a parser on the other side that waits for a packet takes in
-- whole: for a message of at most 1024 bytes, the bytes written are delivered as one packet with
-- the same command, sequence number and payload.
pub send-feed :
    (s : Sender) (history : History) (p : Parser) (packet : Packet) (command sequence : ℕ)
    (payload : List ℕ)
    → IsReady s
    → Holds [] p
    → length packet.payload ≡ max_payload
    → IsMessage command sequence payload
    → (bytes : List ℕ) × ((send_packet s command sequence (some payload) (length payload) history).1
        ≡ wrote (writer_in_use s) bytes ∷ history)
      × Arrives command sequence payload (feed_all p packet bytes)
send-feed s history p packet command sequence payload ready h array m = (
  frame command sequence payload,
  (send_packet_lem s command sequence (length payload) payload history ready m.small
        (omega arith)).0
      ∙ ap (λ t. wrote (writer_in_use s) (frame command sequence t) ∷ history)
          (take_all payload (length payload) (omega arith)),
  frame-Arrives p packet command sequence payload h array m,
)

-- A frame of a message in which one checked byte outside the LENGTH field was changed.
abbrev pub damaged : List ℕ → ℕ → List ℕ → List ℕ → List ℕ
damaged pre y post sent = magic_0 ∷ magic_1 ∷ ((pre ++ (y ∷ post)) ++ le32 (crc_of sent))

-- Such a change does not reach the LENGTH field, the fifth and the sixth checked byte.
declared_kept :
    (pre post t : List ℕ) (x y : ℕ)
    → length pre ≢ 4
    → length pre ≢ 5
    → read_le16 (drop 4 ((pre ++ (y ∷ post)) ++ t)) ≡ read_le16 (drop 4 ((pre ++ (x ∷ post)) ++ t))
unfolding read_le16
declared_kept [] post t x y n4 n5 = refl
declared_kept (a ∷ []) post t x y n4 n5 = refl
declared_kept (a ∷ b ∷ []) post t x y n4 n5 = refl
declared_kept (a ∷ b ∷ c ∷ []) post t x y n4 n5 = refl
declared_kept (a ∷ b ∷ c ∷ d ∷ []) post t x y n4 n5 = absurd (n4 refl)
declared_kept (a ∷ b ∷ c ∷ d ∷ e ∷ []) post t x y n4 n5 = absurd (n5 refl)
declared_kept (a ∷ b ∷ c ∷ d ∷ e ∷ g ∷ pre) post t x y n4 n5 = refl

damaged-IsPacket :
    (xs ys : List ℕ) (n : ℕ)
    → length xs ≡ 6 + n
    → n ≤ max_payload
    → declared (framed xs ys) ≡ n
    → IsPacket (framed xs ys)
damaged-IsPacket xs ys n e small dec = record {
  header = omega (arith, length-append xs (le32 (crc_of ys)));
  small = rw dec small;
  sized = rw dec (omega (arith, length-append xs (le32 (crc_of ys))));
  first = refl;
  second = refl;
}

-- The frame of a message of which one byte `x` of those that the CRC covers arrives as another
-- byte `y`, is never delivered, if that byte is none of the two of the LENGTH field and all else
-- arrives as it was sent: no packet comes out, the caller's packet is as it was, and the parser
-- waits for the next packet.
pub damaged_dropped :
    (p : Parser) (packet : Packet) (command sequence : ℕ) (payload pre post : List ℕ) (x y : ℕ)
    → Holds [] p
    → IsMessage command sequence payload
    → content command sequence payload ≡ pre ++ (x ∷ post)
    → y < 256
    → y ≢ x
    → length pre ≢ 4
    → length pre ≢ 5
    → let f = damaged pre y post (content command sequence payload) in
      ((feed_all p packet f).2 ≡ [])
      × ((feed_all p packet f).1 ≡ packet)
      × Holds [] (feed_all p packet f).0
damaged_dropped p packet command sequence payload pre post x y h m e hy differ n4 n5 =
    (out.2, out.1, out.0)
  where
    sent : List ℕ
    sent = content command sequence payload

    got : List ℕ
    got = pre ++ (y ∷ post)

    dec : declared (framed got sent) ≡ length payload
    dec =
        declared_kept pre post (le32 (crc_of sent)) x y n4 n5
        ∙ ap (λ xs. declared (framed xs sent)) (sym e)
        ∙ declared-frame command sequence payload m.small

    long : length got ≡ 6 + length payload
    long =
        omega
          (arith, ap (length {A = ℕ}) e, length-append pre (y ∷ post), length-append pre (x ∷ post))

    bytes : IsBytes (pre ++ (x ∷ post))
    bytes = subst IsBytes e (IsBytes-content command sequence payload m)

    parts : IsBytes pre × IsBytes (x ∷ post)
    parts = IsBytes-parts pre (x ∷ post) bytes

    mismatch : crc_holds (framed got sent) ≡ false
    mismatch = elim (Bool-cases (crc_of got == crc_of sent)) [
      | inl same ↦ absurd (
          differ (
            crc_of_detects pre post y x parts.0 parts.1.1 hy parts.1.0
              ((==_iff _ _).0 same ∙ ap crc_of e)))
      | inr other ↦
          crc_framed got sent (omega (arith, long, dec))
            (IsBytes-content command sequence payload m)
          ∙ other
    ]

    out : Verdict false (framed got sent) packet (feed_all p packet (framed got sent))
    out =
        subst (λ v. Verdict v (framed got sent) packet (feed_all p packet (framed got sent)))
          mismatch
          (run_part (framed got sent) (damaged-IsPacket got sent (length payload) long m.small dec)
            p packet [] _ _ h refl)
