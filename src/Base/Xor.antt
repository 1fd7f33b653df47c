-- ===== src/Base/Xor.antt =====
-- Exclusive or on words of `k` bits: its range, its high part, cancellation, and when it is zero.
use Prim.Native.Nat.{ℕ, zero, suc, ◌/◌, ◌^◌, ◌<◌, bit_or, bit_xor}
use mathlib.Core.Path.{◌≡◌, refl, sym, ◌∙◌, ap, ap₂}
use native.Mathlib.Nat.{pow-suc, div-div-eq-div-mul}
use native.Mathlib.Omega.{arith}
use esp32_ota_link.Base.Bits.{bit_xor_digit, bit_or_digit, zero-bit_xor, zero-bit_or}

pub bit_xor-lt : (k a b : ℕ) → a < 2 ^ k → b < 2 ^ k → bit_xor a b < 2 ^ k
bit_xor-lt zero a b p q = let e : a ≡ 0 = omega arith in rw e (omega (arith, zero-bit_xor b))
bit_xor-lt (suc k) a b p q =
    ground (arith, bit_xor_digit a b, pow-suc 2 k, bit_xor-lt k (a / 2) (b / 2))

pub bit_xor-cancel : (k a c : ℕ) → a < 2 ^ k → c < 2 ^ k → bit_xor (bit_xor a c) c ≡ a
bit_xor-cancel zero a c p q =
    let ea : a ≡ 0 = omega arith in let ec : c ≡ 0 = omega arith in rw (ea, ec) refl
bit_xor-cancel (suc k) a c p q =
    let half : bit_xor a c / 2 ≡ bit_xor (a / 2) (c / 2) = omega (arith, bit_xor_digit a c) in
    let rest : bit_xor (bit_xor a c / 2) (c / 2) ≡ a / 2 = rw half (
      bit_xor-cancel k (a / 2) (c / 2) (omega (arith, pow-suc 2 k)) (omega (arith, pow-suc 2 k))) in
    omega (arith, bit_xor_digit a c, bit_xor_digit (bit_xor a c) c)

by_one : {a b s a' b' s' : ℕ} → s' ≡ s → a ≡ a' → b ≡ b' → s ≡ bit_xor a b → s' ≡ bit_xor a' b'
by_one p q r h = cc

halve : (k x : ℕ) → x / 2 ^ suc k ≡ x / 2 / 2 ^ k
halve k x =
    ap (λ (t : ℕ). x / t) (omega (arith, pow-suc 2 k)) ∙ sym (div-div-eq-div-mul x 2 (2 ^ k))

pub bit_xor-div : (k a b : ℕ) → bit_xor a b / 2 ^ k ≡ bit_xor (a / 2 ^ k) (b / 2 ^ k)
bit_xor-div zero a b =
    by_one {a = a} {b = b} {s = bit_xor a b} (omega arith) (omega arith) (omega arith) refl
bit_xor-div (suc k) a b =
    let half : bit_xor a b / 2 ≡ bit_xor (a / 2) (b / 2) = omega (arith, bit_xor_digit a b) in
    halve k (bit_xor a b)
    ∙ ap (λ (t : ℕ). t / 2 ^ k) half
    ∙ bit_xor-div k (a / 2) (b / 2)
    ∙ ap₂ bit_xor (sym (halve k a)) (sym (halve k b))

pub bit_xor_zero : (k a b : ℕ) → a < 2 ^ k → b < 2 ^ k → bit_xor a b ≡ 0 → a ≡ b
bit_xor_zero zero a b p q h = omega arith
bit_xor_zero (suc k) a b p q h =
    ground (arith, bit_xor_digit a b, pow-suc 2 k, bit_xor_zero k (a / 2) (b / 2))

pub bit_xor_self : (k a : ℕ) → a < 2 ^ k → bit_xor a a ≡ 0
bit_xor_self zero a h = let e : a ≡ 0 = omega arith in rw e refl
bit_xor_self (suc k) a h = ground (arith, bit_xor_digit a a, pow-suc 2 k, bit_xor_self k (a / 2))

pub bit_or_zero : (k a b : ℕ) → a < 2 ^ k → bit_or a b ≡ 0 → (a ≡ 0) × (b ≡ 0)
bit_or_zero zero a b p h =
    let e : a ≡ 0 = omega arith in (e, sym (zero-bit_or b) ∙ ap (λ t. bit_or t b) (sym e) ∙ h)
bit_or_zero (suc k) a b p h =
    ground (arith, bit_or_digit a b, pow-suc 2 k, bit_or_zero k (a / 2) (b / 2))

pub bit_or-lt : (k a b : ℕ) → a < 2 ^ k → b < 2 ^ k → bit_or a b < 2 ^ k
bit_or-lt zero a b p q = let e : a ≡ 0 = omega arith in rw e (omega (arith, zero-bit_or b))
bit_or-lt (suc k) a b p q =
    ground (arith, bit_or_digit a b, pow-suc 2 k, bit_or-lt k (a / 2) (b / 2))

pub bit_xor_comm : (k a b : ℕ) → a < 2 ^ k → b < 2 ^ k → bit_xor a b ≡ bit_xor b a
bit_xor_comm zero a b p q =
    let ea : a ≡ 0 = omega arith in let eb : b ≡ 0 = omega arith in rw (ea, eb) refl
bit_xor_comm (suc k) a b p q =
    let rest : bit_xor (a / 2) (b / 2) ≡ bit_xor (b / 2) (a / 2) =
      bit_xor_comm k (a / 2) (b / 2) (omega (arith, pow-suc 2 k)) (omega (arith, pow-suc 2 k)) in
    omega (arith, bit_xor_digit a b, bit_xor_digit b a)
