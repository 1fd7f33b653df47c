-- ===== src/Protocol/Frame.antt =====
-- The format of a packet on the wire, as protocol/protocol.md draws it, and the proof that
-- `protocol_send_packet` hands just these bytes to the writer.
use esp32_ota_link.Base.{
  ℕ, zero, suc, ◌+◌, ◌≤◌, ◌≡◌, refl, sym, ap, ap₂, ◌∙◌, List, [], ◌∷◌, ◌++◌, Option, none, some,
  arith, ltb, true, length, take, drop, set, overwrite, bit_and, ◌>>>◌, length-overwrite,
  overwrite-nil, set-overwrite, take-overwrite, length-take, length-drop,
}
use esp32_ota_link.Idf.{Writer, protocol_uart, wrote, History}
use esp32_ota_link.Protocol.Wire.{
  magic_0, magic_1, version_1, max_payload, buffer_size, write_le16, write_le32,
}
use esp32_ota_link.Protocol.Crc.{protocol_crc32}
use esp32_ota_link.Protocol.Crc.Detects.{crc_of, protocol_crc32_lem}
use esp32_ota_link.Protocol.Fields.{le16, le32, low_byte}
use esp32_ota_link.Protocol.Sender.{Sender, copy_payload, fill_buffer, send_packet}

-- What the CRC covers: VER, CMD, SEQ, LENGTH and PAYLOAD.
abbrev pub content : ℕ → ℕ → List ℕ → List ℕ
content command sequence payload =
    version_1 ∷ command ∷ (le16 sequence ++ (le16 (length payload) ++ payload))

abbrev pub frame : ℕ → ℕ → List ℕ → List ℕ
frame command sequence payload =
    magic_0
    ∷ magic_1
    ∷ (content command sequence payload ++ le32 (crc_of (content command sequence payload)))

-- The writer that `protocol_send_packet` calls.
abbrev pub writer_in_use : Sender → Writer
writer_in_use s = elim s.write [ none ↦ protocol_uart s.uart_port | some w ↦ w ]

-- The transmit buffer has its size.
pub record IsReady (s : Sender) : Type 0 where
  pub sized : length s.tx_buffer ≡ buffer_size

-- The first eight bytes of the buffer, and the rest.
abbrev headed : ℕ → ℕ → ℕ → List ℕ → List ℕ
headed command sequence n rest =
    magic_0 ∷ magic_1 ∷ version_1 ∷ command ∷ (le16 sequence ++ (le16 n ++ rest))

header_lem :
    (xs : List ℕ) (command sequence n : ℕ)
    → 8 ≤ length xs
    → write_le16
        (write_le16 (set (set (set (set xs 0 magic_0) 1 magic_1) 2 version_1) 3 command) 4 sequence)
        6
        n
      ≡ headed command sequence n (drop 8 xs)
unfolding write_le16
header_lem (a ∷ b ∷ c ∷ d ∷ e ∷ f ∷ g ∷ i ∷ rest) command sequence n h =
    rw (low_byte sequence, low_byte (sequence >>> 8), low_byte n, low_byte (n >>> 8)) refl
header_lem _ command sequence n h = absurd (omega arith)

set_four :
    (xs : List ℕ) (i a b c d : ℕ)
    → set (set (set (set xs i a) (i + 1) b) (i + 2) c) (i + 3) d
      ≡ overwrite xs i (a ∷ b ∷ c ∷ d ∷ [])
set_four xs i a b c d =
    let first : set xs i a ≡ overwrite xs i (a ∷ []) =
      ap (λ t. set t i a) (sym (overwrite-nil xs i)) ∙ set-overwrite xs i i [] a (omega arith) in
    rw
      (
        first,
        set-overwrite xs i (i + 1) (a ∷ []) b (omega arith),
        set-overwrite xs i (i + 2) (a ∷ b ∷ []) c (omega arith),
        set-overwrite xs i (i + 3) (a ∷ b ∷ c ∷ []) d (omega arith),
      )
      refl

write_le32_lem : (xs : List ℕ) (i v : ℕ) → write_le32 xs i v ≡ overwrite xs i (le32 v)
unfolding write_le32
write_le32_lem xs i v =
    set_four xs i (bit_and v 0xff) (bit_and (v >>> 8) 0xff) (bit_and (v >>> 16) 0xff)
      (bit_and (v >>> 24) 0xff)
    ∙ rw (low_byte v, low_byte (v >>> 8), low_byte (v >>> 16), low_byte (v >>> 24)) refl

copy_lem :
    (command sequence n : ℕ) (rest payload : List ℕ)
    → copy_payload (headed command sequence n rest) (some payload) n
      ≡ headed command sequence n (overwrite rest 0 (take n payload))
unfolding copy_payload
copy_lem command sequence zero rest payload =
    ap (headed command sequence 0) (sym (overwrite-nil rest 0))
copy_lem command sequence (suc n) rest payload =
    let positive : ltb 0 (suc n) ≡ true = ground arith in rw positive refl

-- The prefixes of a buffer with a header.
take-headed :
    (command sequence m n : ℕ) (rest : List ℕ)
    → take (8 + n) (headed command sequence m rest) ≡ headed command sequence m (take n rest)
take-headed command sequence m n rest =
    let e : 8 + n ≡ suc (suc (suc (suc (suc (suc (suc (suc n))))))) = omega arith in rw e refl

take_content :
    (command sequence m n : ℕ) (rest : List ℕ)
    → take (6 + n) (drop 2 (headed command sequence m rest))
      ≡ drop 2 (headed command sequence m (take n rest))
take_content command sequence m n rest =
    let e : 6 + n ≡ suc (suc (suc (suc (suc (suc n))))) = omega arith in rw e refl

-- The checked bytes and the tail, over a buffer whose payload region begins with the payload.
frame_of_filled :
    (command sequence n : ℕ) (tail b : List ℕ)
    → take n tail ≡ b
    → length b ≡ n
    → n + 4 ≤ length tail
    → let filled = headed command sequence n tail in
      take (8 + n + 4) (write_le32 filled (8 + n) (protocol_crc32 (drop 2 filled) (6 + n)))
      ≡ frame command sequence b
frame_of_filled command sequence n tail b et eb fits =
    rw (write_le32_lem filled (8 + n) (protocol_crc32 (drop 2 filled) (6 + n))) (
      take-overwrite filled (8 + n) (le32 (protocol_crc32 (drop 2 filled) (6 + n))) (8 + n + 4)
        (omega arith) (omega arith)
      ∙ ap₂ ◌++◌ (take-headed command sequence n n tail ∙ ap (headed command sequence n) et)
          (ap le32 (protocol_crc32_lem (drop 2 filled) (6 + n) ∙ ap crc_of checked))
      ∙ ap
          (λ m. headed command sequence m b ++ le32 (crc_of (drop 2 (headed command sequence m b))))
          (sym eb))
  where
    filled : List ℕ
    filled = headed command sequence n tail

    checked : take (6 + n) (drop 2 filled) ≡ drop 2 (headed command sequence n b)
    checked =
        take_content command sequence n n tail ∙ ap (λ t. drop 2 (headed command sequence n t)) et

fill_buffer_lem :
    (xs : List ℕ) (command sequence n : ℕ) (payload : List ℕ)
    → length xs ≡ buffer_size
    → n ≤ max_payload
    → n ≤ length payload
    → take (8 + n + 4) (fill_buffer xs command sequence (some payload) n)
      ≡ frame command sequence (take n payload)
unfolding fill_buffer
fill_buffer_lem xs command sequence n payload sized small within =
    rw
      (
        header_lem xs command sequence n (omega arith),
        copy_lem command sequence n (drop 8 xs) payload,
      )
      (frame_of_filled command sequence n tail (take n payload) whole size room)
  where
    size : length (take n payload) ≡ n
    size = omega (arith, length-take n payload)

    tail : List ℕ
    tail = overwrite (drop 8 xs) 0 (take n payload)

    room : n + 4 ≤ length tail
    room = omega (arith, length-overwrite (drop 8 xs) 0 (take n payload), length-drop 8 xs)

    whole : take n tail ≡ take n payload
    whole =
        take-overwrite (drop 8 xs) 0 (take n payload) n (omega (arith, size))
          (omega (arith, length-drop 8 xs))

length-fill_buffer :
    (xs : List ℕ) (command sequence n : ℕ) (payload : List ℕ)
    → length xs ≡ buffer_size
    → length (fill_buffer xs command sequence (some payload) n) ≡ buffer_size
unfolding fill_buffer
length-fill_buffer xs command sequence n payload sized =
    rw
      (
        header_lem xs command sequence n (omega arith),
        copy_lem command sequence n (drop 8 xs) payload,
        write_le32_lem,
        length-overwrite,
      )
      (omega (arith, length-overwrite (drop 8 xs) 0 (take n payload), length-drop 8 xs))

send_at :
    (port : ℕ) (write : Option Writer) (xs : List ℕ) (command sequence n : ℕ) (payload : List ℕ)
    (h : History)
    → let s : Sender = record { uart_port = port; write = write; tx_buffer = xs } in
      ((send_packet s command sequence (some payload) n h).1
        ≡ wrote
            (writer_in_use s)
            (take (8 + n + 4) (fill_buffer xs command sequence (some payload) n))
          ∷ h)
      × ((send_packet s command sequence (some payload) n h).0 ≡ record {
        uart_port = port;
        write = some (writer_in_use s);
        tx_buffer = fill_buffer xs command sequence (some payload) n;
      })
unfolding send_packet
send_at port none xs command sequence n payload h = (refl, refl)
send_at port (some w) xs command sequence n payload h = (refl, refl)

-- On a sender with its buffer, and a payload array that holds `n` bytes, at most 1024:
-- `protocol_send_packet` writes exactly the frame of these bytes, once, to the writer in use
-- (the UART by default), and leaves the sender with its buffer.
pub send_packet_lem :
    (s : Sender) (command sequence n : ℕ) (payload : List ℕ) (h : History)
    → IsReady s
    → n ≤ max_payload
    → n ≤ length payload
    → ((send_packet s command sequence (some payload) n h).1
        ≡ wrote (writer_in_use s) (frame command sequence (take n payload)) ∷ h)
      × IsReady (send_packet s command sequence (some payload) n h).0
send_packet_lem s command sequence n payload h ready small within = (
  run.0
      ∙ ap (λ b. wrote (writer_in_use s) b ∷ h)
          (fill_buffer_lem s.tx_buffer command sequence n payload ready.sized small within),
  rw run.1
      (record { sized = length-fill_buffer s.tx_buffer command sequence n payload ready.sized }),
)
  where
    run :
        ((send_packet s command sequence (some payload) n h).1
          ≡ wrote
              (writer_in_use s)
              (take (8 + n + 4) (fill_buffer s.tx_buffer command sequence (some payload) n))
            ∷ h)
        × ((send_packet s command sequence (some payload) n h).0 ≡ record {
          uart_port = s.uart_port;
          write = some (writer_in_use s);
          tx_buffer = fill_buffer s.tx_buffer command sequence (some payload) n;
        })
    run = send_at s.uart_port s.write s.tx_buffer command sequence n payload h
