-- ===== src/Protocol/Crc/Detects.antt =====
-- Which errors the CRC detects: all that lie within one byte of the checked bytes.
use esp32_ota_link.Base.{
  ℕ, ◌^◌, ◌<◌, ◌≡◌, refl, sym, ap, ◌∙◌, List, [], ◌∷◌, ◌++◌, arith, length, length-append, take,
  IsBytes-append, take_all, bit_xor, IsBytes,
}
use esp32_ota_link.Base.Xor.{bit_xor-lt, bit_xor-cancel}
use esp32_ota_link.Protocol.Crc.{crc_byte, crc_loop, protocol_crc32}
use esp32_ota_link.Protocol.Crc.Step.{
  crc_byte-lt, crc_loop-lt, crc_loop-injective, crc_byte-injective_byte,
}

pub crc_loop-append : (a : ℕ) (xs ys : List ℕ) → crc_loop a (xs ++ ys) ≡ crc_loop (crc_loop a xs) ys
unfolding crc_loop
crc_loop-append a [] ys = refl
crc_loop-append a (x ∷ xs) ys = crc_loop-append (crc_byte a x) xs ys

-- `protocol_crc32` of a whole list.
abbrev pub crc_of : List ℕ → ℕ
crc_of xs = bit_xor (crc_loop 0xffffffff xs) 0xffffffff

pub protocol_crc32_lem : (xs : List ℕ) (n : ℕ) → protocol_crc32 xs n ≡ crc_of (take n xs)
unfolding protocol_crc32
protocol_crc32_lem xs n = refl

pub crc_of-lt : (xs : List ℕ) → IsBytes xs → crc_of xs < 2 ^ 32
crc_of-lt xs h =
    bit_xor-lt 32 (crc_loop 0xffffffff xs) 0xffffffff (crc_loop-lt 0xffffffff xs (omega arith) h)
      (omega arith)

flip-injective :
    (a b : ℕ) → a < 2 ^ 32 → b < 2 ^ 32 → bit_xor a 0xffffffff ≡ bit_xor b 0xffffffff → a ≡ b
flip-injective a b p q e =
    sym (bit_xor-cancel 32 a 0xffffffff p (omega arith))
    ∙ ap (λ t. bit_xor t 0xffffffff) e
    ∙ bit_xor-cancel 32 b 0xffffffff q (omega arith)

-- With the whole list in range.
pub protocol_crc32_whole : (xs : List ℕ) (n : ℕ) → length xs ≡ n → protocol_crc32 xs n ≡ crc_of xs
protocol_crc32_whole xs n e = protocol_crc32_lem xs n ∙ ap crc_of (take_all xs n (omega arith))

crc_loop_detects :
    (a x y : ℕ) (post : List ℕ)
    → a < 2 ^ 32
    → IsBytes post
    → x < 256
    → y < 256
    → crc_loop a (x ∷ post) ≡ crc_loop a (y ∷ post)
    → x ≡ y
unfolding crc_loop
crc_loop_detects a x y post ha hq hx hy e = crc_byte-injective_byte a x y ha hx hy (
    crc_loop-injective (crc_byte a x) (crc_byte a y) post (crc_byte-lt a x ha hx)
      (crc_byte-lt a y ha hy) hq e)

pub crc_of_detects :
    (pre post : List ℕ) (x y : ℕ)
    → IsBytes pre
    → IsBytes post
    → x < 256
    → y < 256
    → crc_of (pre ++ (x ∷ post)) ≡ crc_of (pre ++ (y ∷ post))
    → x ≡ y
crc_of_detects pre post x y hp hq hx hy e =
    let start : crc_loop 0xffffffff pre < 2 ^ 32 = crc_loop-lt 0xffffffff pre (omega arith) hp in
    crc_loop_detects (crc_loop 0xffffffff pre) x y post start hq hx hy (
      sym (crc_loop-append 0xffffffff pre (x ∷ post))
      ∙ flip-injective _ _ (bound x hx) (bound y hy) e
      ∙ crc_loop-append 0xffffffff pre (y ∷ post))
  where
    bound : (z : ℕ) → z < 256 → crc_loop 0xffffffff (pre ++ (z ∷ post)) < 2 ^ 32
    bound z hz =
        crc_loop-lt 0xffffffff (pre ++ (z ∷ post)) (omega arith)
          (IsBytes-append pre (z ∷ post) hp (hz, hq))

-- Two messages of `n` bytes that agree but for the byte at one place, and whose CRC-32 by
-- `protocol_crc32` is equal, agree at that place too. So the CRC detects every error that lies
-- within one byte.
pub crc_detects_byte :
    (pre post : List ℕ) (x y n : ℕ)
    → IsBytes pre
    → IsBytes post
    → x < 256
    → y < 256
    → length (pre ++ (x ∷ post)) ≡ n
    → protocol_crc32 (pre ++ (x ∷ post)) n ≡ protocol_crc32 (pre ++ (y ∷ post)) n
    → x ≡ y
crc_detects_byte pre post x y n hp hq hx hy ex e = crc_of_detects pre post x y hp hq hx hy (
    sym (protocol_crc32_whole (pre ++ (x ∷ post)) n ex)
    ∙ e
    ∙ protocol_crc32_whole (pre ++ (y ∷ post)) n
        (omega (arith, length-append pre (x ∷ post), length-append pre (y ∷ post))))
