-- ===== src/Ota/Bytes.antt =====
-- `memcmp` and the little-endian reader of ota_manager.c.
use esp32_ota_link.Base.{
  ℕ, zero, suc, ◌≤◌, ◌≡◌, refl, ap₂, List, [], ◌∷◌, Bool, true, ◌&&◌, arith, ◌==◌, ==_iff, length,
  take,
}
use esp32_ota_link.Protocol.Wire.{read_le32}
use esp32_ota_link.Ota.{same_bytes, read_u32_le}

pub read_u32_le_lem : (xs : List ℕ) → read_u32_le xs ≡ read_le32 xs
unfolding read_u32_le read_le32
read_u32_le_lem xs = refl

pub &&_parts : (a b : Bool) → (a && b) ≡ true → (a ≡ true) × (b ≡ true)
&&_parts a b h = ground arith

-- Equal under `memcmp` over `n` bytes: the same first `n` bytes.
pub same_bytes→take :
    (n : ℕ) (xs ys : List ℕ)
    → n ≤ length xs
    → n ≤ length ys
    → same_bytes xs ys n ≡ true
    → take n xs ≡ take n ys
unfolding same_bytes
same_bytes→take zero xs ys p q h = refl
same_bytes→take (suc n) [] ys p q h = absurd (omega arith)
same_bytes→take (suc n) (x ∷ xs) [] p q h = absurd (omega arith)
same_bytes→take (suc n) (x ∷ xs) (y ∷ ys) p q h =
    let parts = &&_parts (x == y) (same_bytes xs ys n) h in
    ap₂ ◌∷◌ ((==_iff x y).0 parts.0) (same_bytes→take n xs ys (omega arith) (omega arith) parts.1)

pub same_bytes_self : (n : ℕ) (xs : List ℕ) → same_bytes xs xs n ≡ true
unfolding same_bytes
same_bytes_self zero xs = refl
same_bytes_self (suc n) [] = same_bytes_self n []
same_bytes_self (suc n) (x ∷ xs) = ground (arith, same_bytes_self n xs)

-- The converse.
pub take→same_bytes :
    (n : ℕ) (xs ys : List ℕ)
    → n ≤ length xs
    → n ≤ length ys
    → take n xs ≡ take n ys
    → same_bytes xs ys n ≡ true
unfolding same_bytes
take→same_bytes zero xs ys p q h = refl
take→same_bytes (suc n) [] ys p q h = absurd (omega arith)
take→same_bytes (suc n) (x ∷ xs) [] p q h = absurd (omega arith)
take→same_bytes (suc n) (x ∷ xs) (y ∷ ys) p q h =
    ground (arith, take→same_bytes n xs ys (omega arith) (omega arith), h)
