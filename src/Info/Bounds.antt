-- ===== src/Info/Bounds.antt =====
-- The size of the payload that `device_info_build_payload` writes.
use esp32_ota_link.Base.{
  ℕ, ◌+◌, ◌≤◌, ◌≡◌, refl, ◌∙◌, List, [], ◌∷◌, Option, none, some, not, ◌||◌, arith, ltb, ◌==◌,
  if_cases, length, set, length-set, length-overwrite, u8,
}
use esp32_ota_link.Idf.{Env, History, Partition}
use esp32_ota_link.Info.Names.{ota_state_name}
use esp32_ota_link.Info.Version.{◌>>=◌}
use esp32_ota_link.Info.Build.{
  Out, put_byte, put_u32_le, put_str8, put_all, partition_is_ota_slot, put_slots, put_slot_list,
  put_fixed, info_texts, build_payload, label_or, slot_state,
}

-- The output lies between two offsets, in a buffer of this size.
pub record IsWithin (low high size : ℕ) (o : Out) : Type 0 where
  pub above : low ≤ o.offset
  pub below : o.offset ≤ high
  pub kept : length o.buffer ≡ size

abbrev pub IfSome {ℓ κ} : {A : Type ℓ} → (A → Type κ) → Option A → Type κ
IfSome P none = Unit
IfSome P (some a) = P a

pub IfSome-bind {ℓ κ μ ν} :
    {A : Type ℓ} {B : Type κ} (P : A → Type μ) (Q : B → Type ν) (o : Option A) (f : A → Option B)
    → IfSome P o
    → ((a : A) → P a → IfSome Q (f a))
    → IfSome Q (o >>= f)
IfSome-bind P Q none f h k = tt
IfSome-bind P Q (some a) f h k = k a h

put_byte-length : (o : Out) (value : ℕ) → length (put_byte o value).buffer ≡ length o.buffer
unfolding put_byte
put_byte-length o value = length-set o.buffer o.offset value

put_u32_le-length : (o : Out) (value : ℕ) → length (put_u32_le o value).buffer ≡ length o.buffer
unfolding put_u32_le
put_u32_le-length o value =
    rw (put_byte-length, put_byte-length, put_byte-length, put_byte-length) refl

put_str8-IsWithin :
    (low capacity size : ℕ) (o : Out) (value : List ℕ)
    → IsWithin low capacity size o
    → IfSome (IsWithin low capacity size) (put_str8 capacity o value)
unfolding put_str8 put_byte
put_str8-IsWithin low capacity size o value w =
    if_cases (IfSome (IsWithin low capacity size))
      (ltb 255 (length value) || ltb capacity (o.offset + 1 + length value)) (λ large. tt)
      (λ fits. record {
        above = omega arith;
        below = ground arith;
        kept =
            length-overwrite (set o.buffer o.offset (u8 (length value))) (o.offset + 1) value
            ∙ length-set o.buffer o.offset (u8 (length value))
            ∙ w.kept;
      })

put_all-IsWithin :
    (low capacity size : ℕ) (o : Out) (values : List (List ℕ))
    → IsWithin low capacity size o
    → IfSome (IsWithin low capacity size) (put_all capacity o values)
unfolding put_all
put_all-IsWithin low capacity size o [] w = w
put_all-IsWithin low capacity size o (v ∷ vs) w =
    IfSome-bind (IsWithin low capacity size) (IsWithin low capacity size) (put_str8 capacity o v)
      (λ q. put_all capacity q vs) (put_str8-IsWithin low capacity size o v w)
      (λ q k. put_all-IsWithin low capacity size q vs k)

module _ (env : Env) where
  put_slots-IsWithin :
      (h : History) (low capacity size : ℕ) (o : Out) (n : ℕ) (slots : List (Option Partition))
      → IsWithin low capacity size o
      → IfSome (λ r. IsWithin low capacity size r.0) (put_slots env h capacity o n slots)
  unfolding put_slots
  put_slots-IsWithin h low capacity size o n [] w = w
  put_slots-IsWithin h low capacity size o n (slot ∷ slots) w =
      if_cases (IfSome (λ r. IsWithin low capacity size r.0)) (not (partition_is_ota_slot env slot))
        (λ other. put_slots-IsWithin h low capacity size o n slots w)
        (λ ota.
          if_cases (IfSome (λ r. IsWithin low capacity size r.0)) (n == 255) (λ full. tt)
            (λ more.
              IfSome-bind (IsWithin low capacity size) (λ r. IsWithin low capacity size r.0)
                (put_all capacity o
                  (label_or slot [] ∷ ota_state_name (slot_state env h slot) ∷ []))
                (λ q. put_slots env h capacity q (n + 1) slots)
                (put_all-IsWithin low capacity size o
                  (label_or slot [] ∷ ota_state_name (slot_state env h slot) ∷ []) w)
                (λ q k. put_slots-IsWithin h low capacity size q (n + 1) slots k)))

  put_slot_list-IsWithin :
      (h : History) (low capacity size : ℕ) (o : Out)
      → IsWithin low capacity size o
      → IfSome (IsWithin low capacity size) (put_slot_list env h capacity o)
  unfolding put_slot_list
  put_slot_list-IsWithin h low capacity size o w =
      if_cases (IfSome (IsWithin low capacity size)) (ltb capacity (o.offset + 1)) (λ large. tt)
        (λ fits.
          IfSome-bind (λ r. IsWithin low capacity size r.0) (IsWithin low capacity size)
            (put_slots env h capacity (record o { offset = o.offset + 1 }) 0 (env.app_partitions h))
            (λ r. some (record r.0 { buffer = set r.0.buffer o.offset r.1 }))
            (put_slots-IsWithin h low capacity size (record o { offset = o.offset + 1 }) 0
              (env.app_partitions h)
              (record { above = omega (arith, w.above); below = ground arith; kept = w.kept }))
            (λ r k. record {
              above = k.above;
              below = k.below;
              kept = length-set r.0.buffer o.offset r.1 ∙ k.kept;
            }))

  put_fixed-length :
      (h : History) (boot_count : ℕ) (buffer : List ℕ)
      → length (put_fixed env h boot_count (record { buffer = buffer; offset = 0 })).buffer
        ≡ length buffer
  unfolding put_fixed
  put_fixed-length h boot_count buffer =
      rw
        (
          put_byte-length, put_u32_le-length, put_u32_le-length, put_u32_le-length, put_byte-length,
          put_byte-length, put_byte-length, put_byte-length,
        )
        refl

  put_fixed-IsWithin :
      (h : History) (boot_count capacity : ℕ) (buffer : List ℕ)
      → 17 ≤ capacity
      → IsWithin 17 capacity
          (length buffer)
          (put_fixed env h boot_count (record { buffer = buffer; offset = 0 }))
  unfolding put_fixed put_u32_le put_byte
  put_fixed-IsWithin h boot_count capacity buffer room = record {
    above = omega arith;
    below = room;
    kept = put_fixed-length h boot_count buffer;
  }

  -- A payload that `device_info_build_payload` gives has at least its 17 bytes of fixed size and
  -- ends within the capacity, and the buffer has the size that it had; whatever the texts and the
  -- partitions of the platform are.
  pub build_payload-IsWithin :
      (h : History) (boot_count : ℕ) (buffer : List ℕ) (capacity : ℕ)
      → IfSome
          (IsWithin 17 capacity (length buffer))
          (build_payload env h boot_count buffer capacity)
  unfolding build_payload
  build_payload-IsWithin h boot_count buffer capacity =
      if_cases (IfSome (IsWithin 17 capacity (length buffer))) (ltb capacity 17) (λ tiny. tt)
        (λ room.
          let fixed = put_fixed env h boot_count (record { buffer = buffer; offset = 0 }) in
          IfSome-bind (IsWithin 17 capacity (length buffer)) (IsWithin 17 capacity (length buffer))
            (put_all capacity fixed (info_texts env h)) (put_slot_list env h capacity)
            (put_all-IsWithin 17 capacity (length buffer) fixed (info_texts env h)
              (put_fixed-IsWithin h boot_count capacity buffer (ground arith)))
            (λ o w. put_slot_list-IsWithin h 17 capacity (length buffer) o w))
