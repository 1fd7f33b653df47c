-- ===== src/Protocol/Crc/Step.antt =====
-- One step of the CRC on 32-bit words is a bijection: the bit that is shifted out is the top bit
-- of the result, since the polynomial has its top bit set.
use esp32_ota_link.Base.{
  ℕ, zero, suc, ◌-◌, ◌/◌, ◌%◌, ◌^◌, ◌<◌, ◌≡◌, refl, sym, ap, ap₂, ◌∙◌, List, [], ◌∷◌, arith,
  bit_and, bit_xor, u32, IsBytes,
}
use esp32_ota_link.Base.Bits.{bit_and_one, zero-bit_xor}
use esp32_ota_link.Base.Xor.{bit_xor-lt, bit_xor-cancel, bit_xor-div, bit_xor_comm}
use esp32_ota_link.Protocol.Crc.{polynomial, crc_bit, crc_bits, crc_byte, crc_loop}

-- What is added to the shifted word.
abbrev feedback : ℕ → ℕ
feedback zero = 0
feedback (suc b) = polynomial

masked : (b : ℕ) → b < 2 → bit_and polynomial (u32 (2 ^ 32 - b)) ≡ feedback b
masked zero h = refl
masked (suc zero) h = refl
masked (suc (suc b)) h = absurd (omega arith)

crc_bit_lem : (a : ℕ) → crc_bit a ≡ bit_xor (a / 2) (feedback (a % 2))
unfolding crc_bit
crc_bit_lem a =
    ap (λ b. bit_xor (a / 2) (bit_and polynomial (u32 (2 ^ 32 - b)))) (bit_and_one a)
    ∙ ap (bit_xor (a / 2)) (masked (a % 2) (omega arith))

feedback-lt : (b : ℕ) → feedback b < 2 ^ 32
feedback-lt zero = omega arith
feedback-lt (suc b) = omega arith

feedback_top : (b : ℕ) → b < 2 → feedback b / 2 ^ 31 ≡ b
feedback_top zero h = refl
feedback_top (suc zero) h = refl
feedback_top (suc (suc b)) h = absurd (omega arith)

pub crc_bit-lt : (a : ℕ) → a < 2 ^ 32 → crc_bit a < 2 ^ 32
crc_bit-lt a h =
    rw (crc_bit_lem a)
      (bit_xor-lt 32 (a / 2) (feedback (a % 2)) (omega arith) (feedback-lt (a % 2)))

crc_bit_top : (a : ℕ) → a < 2 ^ 32 → crc_bit a / 2 ^ 31 ≡ a % 2
crc_bit_top a h =
    ap (λ (t : ℕ). t / 2 ^ 31) (crc_bit_lem a)
    ∙ bit_xor-div 31 (a / 2) (feedback (a % 2))
    ∙ ap₂ bit_xor (omega arith) (feedback_top (a % 2) (omega arith))
    ∙ zero-bit_xor (a % 2)

crc_bit_low : (a : ℕ) → a < 2 ^ 32 → bit_xor (crc_bit a) (feedback (a % 2)) ≡ a / 2
crc_bit_low a h =
    ap (λ t. bit_xor t (feedback (a % 2))) (crc_bit_lem a)
    ∙ bit_xor-cancel 32 (a / 2) (feedback (a % 2)) (omega arith) (feedback-lt (a % 2))

crc_bit-injective : (a b : ℕ) → a < 2 ^ 32 → b < 2 ^ 32 → crc_bit a ≡ crc_bit b → a ≡ b
crc_bit-injective a b p q e =
    let low : a % 2 ≡ b % 2 =
      sym (crc_bit_top a p) ∙ ap (λ (t : ℕ). t / 2 ^ 31) e ∙ crc_bit_top b q in
    let high : a / 2 ≡ b / 2 =
      sym (crc_bit_low a p) ∙ ap₂ (λ s t. bit_xor s (feedback t)) e low ∙ crc_bit_low b q in
    omega arith

crc_bits-lt : (n a : ℕ) → a < 2 ^ 32 → crc_bits n a < 2 ^ 32
unfolding crc_bits
crc_bits-lt zero a h = h
crc_bits-lt (suc n) a h = crc_bits-lt n (crc_bit a) (crc_bit-lt a h)

crc_bits-injective : (n a b : ℕ) → a < 2 ^ 32 → b < 2 ^ 32 → crc_bits n a ≡ crc_bits n b → a ≡ b
unfolding crc_bits
crc_bits-injective zero a b p q e = e
crc_bits-injective (suc n) a b p q e =
    crc_bit-injective a b p q
      (crc_bits-injective n (crc_bit a) (crc_bit b) (crc_bit-lt a p) (crc_bit-lt b q) e)

-- A byte is a word.
xor_byte-lt : (a x : ℕ) → a < 2 ^ 32 → x < 256 → bit_xor a x < 2 ^ 32
xor_byte-lt a x p q = bit_xor-lt 32 a x p (omega arith)

pub crc_byte-lt : (a x : ℕ) → a < 2 ^ 32 → x < 256 → crc_byte a x < 2 ^ 32
unfolding crc_byte
crc_byte-lt a x p q = crc_bits-lt 8 (bit_xor a x) (xor_byte-lt a x p q)

-- From equal results over one byte, equal words before it.
pub crc_byte-injective :
    (a b x : ℕ) → a < 2 ^ 32 → b < 2 ^ 32 → x < 256 → crc_byte a x ≡ crc_byte b x → a ≡ b
unfolding crc_byte
crc_byte-injective a b x p q r e =
    sym (bit_xor-cancel 32 a x p (omega arith))
    ∙ ap (λ t. bit_xor t x)
        (crc_bits-injective 8 (bit_xor a x) (bit_xor b x) (xor_byte-lt a x p r)
          (xor_byte-lt b x q r) e)
    ∙ bit_xor-cancel 32 b x q (omega arith)

pub crc_loop-lt : (a : ℕ) (xs : List ℕ) → a < 2 ^ 32 → IsBytes xs → crc_loop a xs < 2 ^ 32
unfolding crc_loop
crc_loop-lt a [] p h = p
crc_loop-lt a (x ∷ xs) p h = crc_loop-lt (crc_byte a x) xs (crc_byte-lt a x p h.0) h.1

-- The words before a run of bytes are told apart after it.
pub crc_loop-injective :
    (a b : ℕ) (xs : List ℕ)
    → a < 2 ^ 32
    → b < 2 ^ 32
    → IsBytes xs
    → crc_loop a xs ≡ crc_loop b xs
    → a ≡ b
unfolding crc_loop
crc_loop-injective a b [] p q h e = e
crc_loop-injective a b (x ∷ xs) p q h e = crc_byte-injective a b x p q h.0 (
    crc_loop-injective (crc_byte a x) (crc_byte b x) xs (crc_byte-lt a x p h.0)
      (crc_byte-lt b x q h.0) h.1 e)

-- From equal results over one word, equal bytes.
pub crc_byte-injective_byte :
    (a x y : ℕ) → a < 2 ^ 32 → x < 256 → y < 256 → crc_byte a x ≡ crc_byte a y → x ≡ y
unfolding crc_byte
crc_byte-injective_byte a x y p hx hy e =
    sym (bit_xor-cancel 32 x a (omega arith) p)
    ∙ ap (λ t. bit_xor t a)
        (bit_xor_comm 32 x a (omega arith) p ∙ same ∙ bit_xor_comm 32 a y p (omega arith))
    ∙ bit_xor-cancel 32 y a (omega arith) p
  where
    same : bit_xor a x ≡ bit_xor a y
    same =
        crc_bits-injective 8 (bit_xor a x) (bit_xor a y) (xor_byte-lt a x p hx)
          (xor_byte-lt a y p hy) e
