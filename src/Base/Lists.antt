-- ===== src/Base/Lists.antt =====
-- Lists measured and indexed by native numbers. `overwrite` is `memcpy` into an array.
use Prim.Native.Nat.{ℕ, zero, suc, ◌+◌, ◌-◌, ◌≤◌, ◌<◌, min}
use mathlib.Core.Path.{◌≡◌, refl, sym, ap}
use mathlib.Core.List.{List, [], ◌∷◌, ◌++◌, map}
use native.Mathlib.Omega.{arith}

module _ {ℓ} {A : Type ℓ} where
  abbrev pub length : List A → ℕ
  length [] = 0
  length (x ∷ xs) = suc (length xs)

  abbrev pub take : ℕ → List A → List A
  take zero xs = []
  take (suc n) [] = []
  take (suc n) (x ∷ xs) = x ∷ take n xs

  abbrev pub drop : ℕ → List A → List A
  drop zero xs = xs
  drop (suc n) [] = []
  drop (suc n) (x ∷ xs) = drop n xs

  abbrev pub get_or : List A → ℕ → A → A
  get_or [] i d = d
  get_or (x ∷ xs) zero d = x
  get_or (x ∷ xs) (suc i) d = get_or xs i d

  -- `array[i] = v`. A write out of bounds changes nothing.
  abbrev pub set : List A → ℕ → A → List A
  set [] i v = []
  set (x ∷ xs) zero v = v ∷ xs
  set (x ∷ xs) (suc i) v = x ∷ set xs i v

  -- `memcpy(&array[i], ys, length ys)`. What lies out of bounds is dropped.
  abbrev pub overwrite : List A → ℕ → List A → List A
  overwrite [] i ys = []
  overwrite (x ∷ xs) (suc i) ys = x ∷ overwrite xs i ys
  overwrite (x ∷ xs) zero [] = x ∷ xs
  overwrite (x ∷ xs) zero (y ∷ ys) = y ∷ overwrite xs zero ys

  abbrev pub replicate : ℕ → A → List A
  replicate zero a = []
  replicate (suc n) a = a ∷ replicate n a

module _ {ℓ} {A : Type ℓ} where
  pub length-append : (xs ys : List A) → length (xs ++ ys) ≡ length xs + length ys
  length-append [] ys = omega arith
  length-append (x ∷ xs) ys = omega (arith, length-append xs ys)

  pub length-replicate : (n : ℕ) (a : A) → length (replicate n a) ≡ n
  length-replicate zero a = refl
  length-replicate (suc n) a = ap suc (length-replicate n a)

  pub length-map {κ} : {B : Type κ} (f : A → B) (xs : List A) → length (map f xs) ≡ length xs
  length-map f [] = refl
  length-map f (x ∷ xs) = ap suc (length-map f xs)

  pub length-take : (n : ℕ) (xs : List A) → length (take n xs) ≡ min n (length xs)
  length-take zero xs = omega arith
  length-take (suc n) [] = omega arith
  length-take (suc n) (x ∷ xs) = omega (arith, length-take n xs)

  pub length-drop : (n : ℕ) (xs : List A) → length (drop n xs) ≡ length xs - n
  length-drop zero xs = omega arith
  length-drop (suc n) [] = omega arith
  length-drop (suc n) (x ∷ xs) = omega (arith, length-drop n xs)

  pub length-set : (xs : List A) (i : ℕ) (v : A) → length (set xs i v) ≡ length xs
  length-set [] i v = refl
  length-set (x ∷ xs) zero v = refl
  length-set (x ∷ xs) (suc i) v = ap suc (length-set xs i v)

  pub length-overwrite :
      (xs : List A) (i : ℕ) (ys : List A) → length (overwrite xs i ys) ≡ length xs
  length-overwrite [] i ys = refl
  length-overwrite (x ∷ xs) (suc i) ys = ap suc (length-overwrite xs i ys)
  length-overwrite (x ∷ xs) zero [] = refl
  length-overwrite (x ∷ xs) zero (y ∷ ys) = ap suc (length-overwrite xs zero ys)

  pub take-append-drop : (n : ℕ) (xs : List A) → take n xs ++ drop n xs ≡ xs
  take-append-drop zero xs = refl
  take-append-drop (suc n) [] = refl
  take-append-drop (suc n) (x ∷ xs) = ap (◌∷◌ x) (take-append-drop n xs)

  pub take_append : (xs ys : List A) (n : ℕ) → length xs ≡ n → take n (xs ++ ys) ≡ xs
  take_append [] ys zero h = refl
  take_append [] ys (suc n) h = absurd (omega arith)
  take_append (x ∷ xs) ys zero h = absurd (omega arith)
  take_append (x ∷ xs) ys (suc n) h = ap (◌∷◌ x) (take_append xs ys n (omega arith))

  pub drop_append : (xs ys : List A) (n : ℕ) → length xs ≡ n → drop n (xs ++ ys) ≡ ys
  drop_append [] ys zero h = refl
  drop_append [] ys (suc n) h = absurd (omega arith)
  drop_append (x ∷ xs) ys zero h = absurd (omega arith)
  drop_append (x ∷ xs) ys (suc n) h = drop_append xs ys n (omega arith)

  pub take_all : (xs : List A) (n : ℕ) → length xs ≤ n → take n xs ≡ xs
  take_all [] zero h = refl
  take_all [] (suc n) h = refl
  take_all (x ∷ xs) zero h = absurd (omega arith)
  take_all (x ∷ xs) (suc n) h = ap (◌∷◌ x) (take_all xs n (omega arith))

  -- A write at the end of a prefix makes the prefix longer.
  pub take-set :
      (xs : List A) (n : ℕ) (v : A)
      → n < length xs
      → take (suc n) (set xs n v) ≡ take n xs ++ (v ∷ [])
  take-set [] n v h = absurd (omega arith)
  take-set (x ∷ xs) zero v h = refl
  take-set (x ∷ xs) (suc n) v h = ap (◌∷◌ x) (take-set xs n v (omega arith))

  -- The prefix that a copy completes.
  pub take-overwrite :
      (xs : List A) (i : ℕ) (ys : List A) (n : ℕ)
      → i + length ys ≡ n
      → n ≤ length xs
      → take n (overwrite xs i ys) ≡ take i xs ++ ys
  take-overwrite [] zero [] zero e h = refl
  take-overwrite [] zero [] (suc n) e h = absurd (omega arith)
  take-overwrite [] zero (y ∷ ys) n e h = absurd (omega arith)
  take-overwrite [] (suc i) ys n e h = absurd (omega arith)
  take-overwrite (x ∷ xs) (suc i) ys zero e h = absurd (omega arith)
  take-overwrite (x ∷ xs) (suc i) ys (suc n) e h =
      ap (◌∷◌ x) (take-overwrite xs i ys n (omega arith) (omega arith))
  take-overwrite (x ∷ xs) zero [] zero e h = refl
  take-overwrite (x ∷ xs) zero [] (suc n) e h = absurd (omega arith)
  take-overwrite (x ∷ xs) zero (y ∷ ys) zero e h = absurd (omega arith)
  take-overwrite (x ∷ xs) zero (y ∷ ys) (suc n) e h =
      ap (◌∷◌ y) (take-overwrite xs zero ys n (omega arith) (omega arith))

  -- Reading below `n` reads the prefix of length `n`.
  pub get_or-take : (xs : List A) (i n : ℕ) (d : A) → i < n → get_or (take n xs) i d ≡ get_or xs i d
  get_or-take [] i zero d h = refl
  get_or-take [] i (suc n) d h = refl
  get_or-take (x ∷ xs) i zero d h = absurd (omega arith)
  get_or-take (x ∷ xs) zero (suc n) d h = refl
  get_or-take (x ∷ xs) (suc i) (suc n) d h = get_or-take xs i n d (omega arith)

  pub get_or-append_left :
      (xs ys : List A) (i : ℕ) (d : A) → i < length xs → get_or (xs ++ ys) i d ≡ get_or xs i d
  get_or-append_left [] ys i d h = absurd (omega arith)
  get_or-append_left (x ∷ xs) ys zero d h = refl
  get_or-append_left (x ∷ xs) ys (suc i) d h = get_or-append_left xs ys i d (omega arith)

  pub get_or-drop :
      (xs : List A) (n i k : ℕ) (d : A) → n + i ≡ k → get_or (drop n xs) i d ≡ get_or xs k d
  get_or-drop xs zero i k d e = let e' : i ≡ k = omega arith in ap (λ j. get_or xs j d) e'
  get_or-drop [] (suc n) i k d e = refl
  get_or-drop (x ∷ xs) (suc n) i zero d e = absurd (omega arith)
  get_or-drop (x ∷ xs) (suc n) i (suc k) d e = get_or-drop xs n i k d (omega arith)

  pub overwrite-nil : (xs : List A) (i : ℕ) → overwrite xs i [] ≡ xs
  overwrite-nil [] i = refl
  overwrite-nil (x ∷ xs) zero = refl
  overwrite-nil (x ∷ xs) (suc i) = ap (◌∷◌ x) (overwrite-nil xs i)

  -- A write behind a copied run makes the run longer.
  pub set-overwrite :
      (xs : List A) (i j : ℕ) (ys : List A) (v : A)
      → i + length ys ≡ j
      → set (overwrite xs i ys) j v ≡ overwrite xs i (ys ++ (v ∷ []))
  set-overwrite [] i j ys v e = refl
  set-overwrite (x ∷ xs) (suc i) zero ys v e = absurd (omega arith)
  set-overwrite (x ∷ xs) (suc i) (suc j) ys v e =
      ap (◌∷◌ x) (set-overwrite xs i j ys v (omega arith))
  set-overwrite (x ∷ xs) zero zero [] v e = ap (◌∷◌ v) (sym (overwrite-nil xs zero))
  set-overwrite (x ∷ xs) zero (suc j) [] v e = absurd (omega arith)
  set-overwrite (x ∷ xs) zero zero (y ∷ ys) v e = absurd (omega arith)
  set-overwrite (x ∷ xs) zero (suc j) (y ∷ ys) v e =
      ap (◌∷◌ y) (set-overwrite xs zero j ys v (omega arith))

  pub drop-append : (n : ℕ) (xs ys : List A) → n ≤ length xs → drop n (xs ++ ys) ≡ drop n xs ++ ys
  drop-append zero xs ys h = refl
  drop-append (suc n) [] ys h = absurd (omega arith)
  drop-append (suc n) (x ∷ xs) ys h = drop-append n xs ys (omega arith)

  pub take-append : (n : ℕ) (xs ys : List A) → n ≤ length xs → take n (xs ++ ys) ≡ take n xs
  take-append zero xs ys h = refl
  take-append (suc n) [] ys h = absurd (omega arith)
  take-append (suc n) (x ∷ xs) ys h = ap (◌∷◌ x) (take-append n xs ys (omega arith))

  -- A write behind a list extends it.
  pub set-append :
      (xs ys : List A) (z v : A) → set (xs ++ (z ∷ ys)) (length xs) v ≡ (xs ++ (v ∷ [])) ++ ys
  set-append [] ys z v = refl
  set-append (x ∷ xs) ys z v = ap (◌∷◌ x) (set-append xs ys z v)
