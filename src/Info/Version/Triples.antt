-- ===== src/Info/Version/Triples.antt =====
-- The texts that `parse_app_version` of device_info.c reads.
use esp32_ota_link.Base.{
  ℕ, ◌+◌, ◌-◌, ◌*◌, ◌≤◌, ◌<◌, ◌≡◌, refl, sym, ap, ◌∙◌, List, [], ◌∷◌, ◌++◌, Option, none, ◌⊎◌, inl,
  inr, some, Bool, true, false, ◌&&◌, ◌||◌, arith, ltb, leb, ◌==◌, if◌then◌else◌, if_cases,
  Bool-cases, All, u32, u8,
}
use esp32_ota_link.Info.Version.{
  is_digit, parse_digits, parse_version_component, expect_dot, parse_components, skip_v, or_zeros,
  parse_app_version,
}

-- A numeral of decimal digits, and the number that it stands for.
abbrev pub IsNumeral : List ℕ → Type 0
IsNumeral ds = All (λ d. d < 10) ds

abbrev pub numeral : List ℕ → List ℕ
numeral [] = []
numeral (d ∷ ds) = (b'0' + d) ∷ numeral ds

abbrev value_from : ℕ → List ℕ → ℕ
value_from p [] = p
value_from p (d ∷ ds) = value_from (p * 10 + d) ds

abbrev pub value : List ℕ → ℕ
value ds = value_from 0 ds

-- What follows a numeral.
abbrev pub NoDigit : List ℕ → Type 0
NoDigit [] = Unit
NoDigit (c ∷ cs) = is_digit c ≡ false

-- The result on a number and what follows it.
abbrev reading : ℕ → List ℕ → Option (ℕ × List ℕ)
reading n rest = if ltb 255 n then none else some (n, rest)

value_from-grows : (p : ℕ) (ds : List ℕ) → p ≤ value_from p ds
value_from-grows p [] = omega arith
value_from-grows p (d ∷ ds) = omega (arith, value_from-grows (p * 10 + d) ds)

is_digit-numeral : (d : ℕ) → d < 10 → is_digit (b'0' + d) ≡ true
is_digit-numeral d low = ground arith

next_parsed : (p d : ℕ) → p ≤ 255 → d < 10 → u32 (p * 10 + (b'0' + d - b'0')) ≡ p * 10 + d
next_parsed p d small low = omega arith

reading_large : (n : ℕ) (rest : List ℕ) → 255 < n → reading n rest ≡ none
reading_large n rest large = let e : ltb 255 n ≡ true = ground arith in rw e refl

reading_small : (n : ℕ) (rest : List ℕ) → n ≤ 255 → reading n rest ≡ some (n, rest)
reading_small n rest small = let e : ltb 255 n ≡ false = ground arith in rw e refl

parse_digits_stops :
    (p : ℕ) (rest : List ℕ) → p ≤ 255 → NoDigit rest → parse_digits p rest ≡ reading p rest
unfolding parse_digits
parse_digits_stops p [] small stop = sym (reading_small p [] small)
parse_digits_stops p (c ∷ cs) small stop = rw stop (sym (reading_small p (c ∷ cs) small))

parse_digits_lem :
    (p : ℕ) (ds rest : List ℕ)
    → p ≤ 255
    → IsNumeral ds
    → NoDigit rest
    → parse_digits p (numeral ds ++ rest) ≡ reading (value_from p ds) rest
unfolding parse_digits
parse_digits_lem p [] rest small digits stop = parse_digits_stops p rest small stop
parse_digits_lem p (d ∷ ds) rest small digits stop =
    rw (is_digit-numeral d digits.0, next_parsed p d small digits.0)
      (if_cases (λ r. r ≡ reading (value_from (p * 10 + d) ds) rest) (ltb 255 (p * 10 + d))
        (λ large. sym (
          reading_large (value_from (p * 10 + d) ds) rest
            (ground (arith, value_from-grows (p * 10 + d) ds))))
        (λ ok. parse_digits_lem (p * 10 + d) ds rest (ground arith) digits.1 stop))

-- A numeral with a digit.
abbrev pub IsComponent : List ℕ → Type 0
IsComponent [] = ⊥
IsComponent (d ∷ ds) = IsNumeral (d ∷ ds)

parse_version_component_lem :
    (ds rest : List ℕ)
    → IsComponent ds
    → NoDigit rest
    → parse_version_component (numeral ds ++ rest) ≡ reading (value ds) rest
unfolding parse_version_component
parse_version_component_lem [] rest digits stop = absurd digits
parse_version_component_lem (d ∷ ds) rest digits stop =
    ap (λ (b : Bool). if b then parse_digits 0 (numeral (d ∷ ds) ++ rest) else none)
      (is_digit-numeral d digits.0)
    ∙ parse_digits_lem 0 (d ∷ ds) rest (omega arith) digits stop

component_small :
    (ds rest : List ℕ)
    → IsComponent ds
    → NoDigit rest
    → value ds ≤ 255
    → parse_version_component (numeral ds ++ rest) ≡ some (value ds, rest)
component_small ds rest digits stop small =
    parse_version_component_lem ds rest digits stop ∙ reading_small (value ds) rest small

component_large :
    (ds rest : List ℕ)
    → IsComponent ds
    → NoDigit rest
    → 255 < value ds
    → parse_version_component (numeral ds ++ rest) ≡ none
component_large ds rest digits stop large =
    parse_version_component_lem ds rest digits stop ∙ reading_large (value ds) rest large

small_or_large : (n : ℕ) → (n ≤ 255) ⊎ (255 < n)
small_or_large n = elim (Bool-cases (leb n 255)) [
  | inl e ↦ inl (ground arith)
  | inr e ↦ inr (ground arith)
]

leb_small : (n : ℕ) → n ≤ 255 → leb n 255 ≡ true
leb_small n small = ground arith

leb_large : (n : ℕ) → 255 < n → leb n 255 ≡ false
leb_large n large = ground arith

u8_small : (n : ℕ) → n ≤ 255 → u8 n ≡ n
u8_small n small = omega arith

-- The version that three numbers are.
abbrev pub version_of : ℕ → ℕ → ℕ → ℕ × ℕ × ℕ
version_of a b c = if leb a 255 && leb b 255 && leb c 255 then (a, b, c) else (0, 0, 0)

-- A text of three numerals with dots between them.
abbrev pub dotted : List ℕ → List ℕ → List ℕ → List ℕ → List ℕ
dotted ds es fs rest = numeral ds ++ (b'.' ∷ (numeral es ++ (b'.' ∷ (numeral fs ++ rest))))

module _ (ds es fs rest : List ℕ) (d : IsComponent ds) (e : IsComponent es) (f : IsComponent fs)
    (stop : NoDigit rest) where
  abbrev patch_on : List ℕ
  patch_on = numeral fs ++ rest

  abbrev minor_on : List ℕ
  minor_on = numeral es ++ (b'.' ∷ patch_on)

  parse_components_lem :
      or_zeros (parse_components (dotted ds es fs rest))
      ≡ version_of (value ds) (value es) (value fs)
  unfolding parse_components expect_dot or_zeros
  parse_components_lem = elim (small_or_large (value ds)) [
    | inr large ↦
        rw (component_large ds (b'.' ∷ minor_on) d refl large, leb_large (value ds) large) refl
    | inl a ↦
        rw (component_small ds (b'.' ∷ minor_on) d refl a, leb_small (value ds) a)
          (elim (small_or_large (value es)) [
            | inr large ↦
                rw (component_large es (b'.' ∷ patch_on) e refl large, leb_large (value es) large)
                  refl
            | inl b ↦
                rw (component_small es (b'.' ∷ patch_on) e refl b, leb_small (value es) b)
                  (elim (small_or_large (value fs)) [
                    | inr large ↦
                        rw (component_large fs rest f stop large, leb_large (value fs) large) refl
                    | inl c ↦
                        rw
                          (
                            component_small fs rest f stop c,
                            leb_small (value fs) c,
                            u8_small (value ds) a,
                            u8_small (value es) b,
                            u8_small (value fs) c,
                          )
                          refl
                  ])
          ])
  ]

-- What may stand in front.
pub data Prefix : Type 0 where
  bare : Prefix
  lower_v : Prefix
  upper_v : Prefix

abbrev pub prefixed : Prefix → List ℕ → List ℕ
prefixed bare cs = cs
prefixed lower_v cs = b'v' ∷ cs
prefixed upper_v cs = b'V' ∷ cs

no_v : (d : ℕ) → d < 10 → (b'0' + d == b'v' || b'0' + d == b'V') ≡ false
no_v d low = ground arith

skip_v_bare : (ds rest : List ℕ) → IsComponent ds → skip_v (numeral ds ++ rest) ≡ numeral ds ++ rest
unfolding skip_v
skip_v_bare [] rest digits = absurd digits
skip_v_bare (d ∷ ds) rest digits = rw (no_v d digits.0) refl

skip_v-prefixed :
    (v : Prefix) (ds rest : List ℕ)
    → IsComponent ds
    → skip_v (prefixed v (numeral ds ++ rest)) ≡ numeral ds ++ rest
unfolding skip_v
skip_v-prefixed bare ds rest digits = skip_v_bare ds rest digits
skip_v-prefixed lower_v ds rest digits = refl
skip_v-prefixed upper_v ds rest digits = refl

-- A text of three decimal numerals with dots between them, with or without a `v` in front and with
-- anything but a digit behind, is read as the three numbers, however many zeros they start with;
-- and as 0.0.0 where one of them is above 255.
pub parse_app_version_lem :
    (v : Prefix) (ds es fs rest : List ℕ)
    → IsComponent ds
    → IsComponent es
    → IsComponent fs
    → NoDigit rest
    → parse_app_version (some (prefixed v (dotted ds es fs rest)))
      ≡ version_of (value ds) (value es) (value fs)
unfolding parse_app_version
parse_app_version_lem v ds es fs rest d e f stop =
    ap (λ (cs : List ℕ). or_zeros (parse_components cs))
      (skip_v-prefixed v ds (b'.' ∷ (numeral es ++ (b'.' ∷ (numeral fs ++ rest)))) d)
    ∙ parse_components_lem ds es fs rest d e f stop
