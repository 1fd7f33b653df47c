-- ===== src/Auth/Equal.antt =====
-- `constant_time_equal` of auth.c against the equality of byte strings.
use esp32_ota_link.Base.{
  ℕ, zero, suc, ◌≤◌, ◌<◌, ◌≡◌, refl, sym, ap, ap₂, ◌∙◌, ◌↔◌, List, [], ◌∷◌, true, arith, ==_iff,
  length, take, get_or, drop, bit_or, bit_xor, u8, IsBytes,
}
use esp32_ota_link.Base.Bits.{zero-bit_or}
use esp32_ota_link.Base.Xor.{bit_or-lt, bit_or_zero, bit_xor-lt, bit_xor_zero, bit_xor_self}
use esp32_ota_link.Auth.Hmac.{collect_diff, constant_time_equal}

abbrev step : ℕ → ℕ → ℕ → ℕ
step d x y = u8 (bit_or d (bit_xor x y))

step-byte :
    (d x y : ℕ)
    → d < 256
    → x < 256
    → y < 256
    → (step d x y < 256) × (step d x y ≡ bit_or d (bit_xor x y))
step-byte d x y hd hx hy =
    let small : bit_or d (bit_xor x y) < 256 =
      bit_or-lt 8 d (bit_xor x y) hd (bit_xor-lt 8 x y hx hy) in
    (omega arith, omega arith)

step_zero : (d x y : ℕ) → d < 256 → x < 256 → y < 256 → step d x y ≡ 0 → (d ≡ 0) × (x ≡ y)
step_zero d x y hd hx hy e =
    let parts = bit_or_zero 8 d (bit_xor x y) hd (sym (step-byte d x y hd hx hy).1 ∙ e) in
    (parts.0, bit_xor_zero 8 x y hx hy parts.1)

step_same : (x : ℕ) → x < 256 → step 0 x x ≡ 0
step_same x hx =
    let e : bit_or 0 (bit_xor x x) ≡ 0 = zero-bit_or (bit_xor x x) ∙ bit_xor_self 8 x hx in
    rw e refl

-- The loop ends at 0 only from 0 and over equal bytes.
collect_diff_zero :
    (n d : ℕ) (xs ys : List ℕ)
    → d < 256
    → n ≤ length xs
    → n ≤ length ys
    → IsBytes xs
    → IsBytes ys
    → collect_diff d xs ys n ≡ 0
    → (d ≡ 0) × (take n xs ≡ take n ys)
unfolding collect_diff
collect_diff_zero zero d xs ys hd p q bx by e = (e, refl)
collect_diff_zero (suc n) d [] ys hd p q bx by e = absurd (omega arith)
collect_diff_zero (suc n) d (x ∷ xs) [] hd p q bx by e = absurd (omega arith)
collect_diff_zero (suc n) d (x ∷ xs) (y ∷ ys) hd p q bx by e =
    let rest =
      collect_diff_zero n (step d x y) xs ys (step-byte d x y hd bx.0 by.0).0 (omega arith)
        (omega arith) bx.1 by.1 e in
    let here = step_zero d x y hd bx.0 by.0 rest.0 in (here.0, ap₂ ◌∷◌ here.1 rest.1)

collect_diff_same :
    (n : ℕ) (xs ys : List ℕ)
    → n ≤ length xs
    → n ≤ length ys
    → IsBytes ys
    → take n xs ≡ take n ys
    → collect_diff 0 xs ys n ≡ 0
unfolding collect_diff
collect_diff_same zero xs ys p q by e = refl
collect_diff_same (suc n) [] ys p q by e = absurd (omega arith)
collect_diff_same (suc n) (x ∷ xs) [] p q by e = absurd (omega arith)
collect_diff_same (suc n) (x ∷ xs) (y ∷ ys) p q by e =
    let head : x ≡ y = ap (λ (t : List ℕ). get_or t 0 0) e in
    let clear : step 0 x y ≡ 0 = ap (λ z. step 0 z y) head ∙ step_same y by.0 in
    ap (λ d. collect_diff d xs ys n) clear
    ∙ collect_diff_same n xs ys (omega arith) (omega arith) by.1 (ap (drop 1) e)

-- Equal bytes are found equal, whatever lies behind them.
pub constant_time_equal_same :
    (n : ℕ) (xs ys : List ℕ)
    → n ≤ length xs
    → n ≤ length ys
    → IsBytes ys
    → take n xs ≡ take n ys
    → constant_time_equal xs ys n ≡ true
unfolding constant_time_equal
constant_time_equal_same n xs ys p q by e =
    (==_iff (collect_diff 0 xs ys n) 0).1 (collect_diff_same n xs ys p q by e)

-- On two arrays of at least `n` bytes, `constant_time_equal` returns true exactly when their first
-- `n` bytes are equal: no difference is lost in the byte that gathers them.
pub constant_time_equal_iff :
    (n : ℕ) (xs ys : List ℕ)
    → n ≤ length xs
    → n ≤ length ys
    → IsBytes xs
    → IsBytes ys
    → (constant_time_equal xs ys n ≡ true) ↔ (take n xs ≡ take n ys)
unfolding constant_time_equal
constant_time_equal_iff n xs ys p q bx by = (
  λ e.
      (collect_diff_zero n 0 xs ys (omega arith) p q bx by
        ((==_iff (collect_diff 0 xs ys n) 0).0 e)).1,
  constant_time_equal_same n xs ys p q by,
)
