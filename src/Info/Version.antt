-- ===== src/Info/Version.antt =====
-- `parse_version_component` and `parse_app_version` of device_info.c. The cursor is the rest of
-- the text; the terminating zero that C reads at its end is neither a digit nor a dot.
pub mod Triples
use esp32_ota_link.Base.{
  ℕ, ◌+◌, ◌-◌, ◌*◌, List, [], ◌∷◌, Option, none, some, Bool, ◌&&◌, ◌||◌, ltb, leb, ◌==◌,
  if◌then◌else◌, u8, u32,
}

infixl 5 ◌>>=◌
abbrev pub ◌>>=◌ {ℓ κ} : {A : Type ℓ} {B : Type κ} → Option A → (A → Option B) → Option B
none >>= f = none
some a >>= f = f a

abbrev pub is_digit : ℕ → Bool
is_digit c = leb b'0' c && leb c b'9'

-- The `while` loop, from the value so far; `none` is the early return on a value above 255.
pub parse_digits : ℕ → List ℕ → Option (ℕ × List ℕ)
parse_digits parsed [] = some (parsed, [])
parse_digits parsed (c ∷ cs) =
    let parsed' = u32 (parsed * 10 + (c - b'0')) in
    let rest = parse_digits parsed' cs in
    if is_digit c then (if ltb 255 parsed' then none else rest) else some (parsed, c ∷ cs)

pub parse_version_component : List ℕ → Option (ℕ × List ℕ)
unfolding parse_digits
parse_version_component [] = none
parse_version_component (c ∷ cs) = if is_digit c then parse_digits 0 (c ∷ cs) else none

-- `*cursor++ != '.'` is the failure.
pub expect_dot : List ℕ → Option (List ℕ)
expect_dot [] = none
expect_dot (c ∷ cs) = if c == b'.' then some cs else none

-- The three components, or `none` where the C condition returns.
pub parse_components : List ℕ → Option (ℕ × ℕ × ℕ)
unfolding parse_version_component expect_dot
parse_components cursor = do
  (major, cursor) ← parse_version_component cursor
  cursor ← expect_dot cursor
  (minor, cursor) ← parse_version_component cursor
  cursor ← expect_dot cursor
  (patch, _) ← parse_version_component cursor
  some (u8 major, u8 minor, u8 patch)

-- The optional `v` or `V`.
pub skip_v : List ℕ → List ℕ
skip_v [] = []
skip_v (c ∷ cs) = if c == b'v' || c == b'V' then cs else c ∷ cs

pub or_zeros : Option (ℕ × ℕ × ℕ) → ℕ × ℕ × ℕ
or_zeros none = (0, 0, 0)
or_zeros (some v) = v

unfoldable pub parse_app_version : Option (List ℕ) → ℕ × ℕ × ℕ
unfolding skip_v parse_components or_zeros
parse_app_version none = (0, 0, 0)
parse_app_version (some version) = or_zeros (parse_components (skip_v version))
