-- ===== src/Ota/Steps.antt =====
-- The requests of an update on a platform whose calls succeed: what OTA_BEGIN, the next OTA_DATA and
-- OTA_END each leave.
use esp32_ota_link.Base.{
  ℕ, ◌+◌, ◌-◌, ◌^◌, ◌≤◌, ◌<◌, ◌≡◌, refl, sym, ap, ◌∙◌, List, ◌∷◌, ◌++◌, Option, some, true, false,
  arith, ltb, leb, ◌==◌, ◌!=◌, length, take, take_all, take_append, overwrite, length-overwrite,
  length-replicate, take-overwrite, replicate, u32,
}
use esp32_ota_link.Idf.{
  Env, History, Partition, esp_ok, ota_began, ota_wrote, ota_ended, hashed, boot_set,
}
use esp32_ota_link.Protocol.Wire.{err_ok}
use esp32_ota_link.Protocol.Fields.{le32, read_le32-le32}
use esp32_ota_link.Ota.{
  OtaState, ran, cleared, begin, begin_sized, write_data, finish, max_chunk_size, sha256_size,
  read_u32_le,
}
use esp32_ota_link.Ota.Bytes.{read_u32_le_lem, same_bytes_self}
use esp32_ota_link.Ota.Invariant.{IsOpen, extended}

-- The payloads that a host sends.
abbrev pub begin_payload : ℕ → List ℕ → List ℕ
begin_payload size digest = le32 size ++ digest

abbrev pub data_payload : ℕ → ℕ → List ℕ → List ℕ
data_payload number offset chunk = le32 number ++ (le32 offset ++ chunk)

-- A chunk that fits one packet.
abbrev pub IsChunk : List ℕ → Type 0
IsChunk c = (0 < length c) × (length c ≤ max_chunk_size)

-- The platform's answers over an update of an image with this digest: each call succeeds, and the
-- digest that it computes in the end is that of the image.
pub record Succeeds (env : Env) (p : Partition) (digest : List ℕ) : Type 0 where
  pub offers : (h : History) → env.next_update_partition h ≡ some p
  pub begins : (h : History) (q : Option Partition) (n : ℕ) → (env.ota_begin h q n).0 ≡ esp_ok
  pub writes : (h : History) (k : ℕ) (c : List ℕ) → env.ota_write h k c ≡ esp_ok
  pub ends : (h : History) (k : ℕ) → env.ota_end h k ≡ esp_ok
  pub hashes : (h : History) (q : Option Partition) → env.partition_sha256 h q ≡ (esp_ok, digest)
  pub boots_it : (h : History) (q : Option Partition) → env.set_boot_partition h q ≡ esp_ok

module _ (env : Env) where
  -- The next chunk of an open session, with anything behind it in the packet's array.
  pub write_next :
      (s : OtaState) (h : History) (number : ℕ) (c rest : List ℕ)
      → ((h' : History) (k : ℕ) (x : List ℕ) → env.ota_write h' k x ≡ esp_ok)
      → s.active ≡ true
      → IsOpen s h
      → IsChunk c
      → s.bytes_received + length c ≤ s.firmware_size
      → write_data env s h (data_payload number s.bytes_received c ++ rest) (8 + length c)
        ≡ ran (extended s (length c) c) (ota_wrote s.handle c esp_ok ∷ h) err_ok
  unfolding write_data
  write_next s h number c rest ok busy o k fits =
      rw
        (
          busy,
          long,
          left,
          small,
          at,
          here,
          room,
          take_append c rest (length c) refl,
          take_all c (length c) (omega arith),
          ok h s.handle c,
        )
        refl
    where
      long : leb (8 + length c) 8 ≡ false
      long = ground (arith, k.0)

      left : 8 + length c - 8 ≡ length c
      left = omega arith

      small : ltb max_chunk_size (length c) ≡ false
      small = ground (arith, k.1)

      at : read_u32_le (le32 s.bytes_received ++ (c ++ rest)) ≡ s.bytes_received
      at =
          read_u32_le_lem (le32 s.bytes_received ++ (c ++ rest))
          ∙ read_le32-le32 s.bytes_received (c ++ rest) (omega (arith, o.within, o.no_wrap))

      here : (s.bytes_received != s.bytes_received) ≡ false
      here = ground arith

      room : ltb s.firmware_size (u32 (s.bytes_received + length c)) ≡ false
      room = ground (arith, o.no_wrap, o.within)

  -- OTA_BEGIN on an idle device whose platform takes the session.
  pub begin_next :
      (h : History) (p : Partition) (size : ℕ) (digest rest : List ℕ)
      → Succeeds env p digest
      → length digest ≡ sha256_size
      → 0 < size
      → size ≤ p.size
      → size < 2 ^ 32
      → begin env cleared h (begin_payload size digest ++ rest) 36
        ≡ ran
            (record cleared {
              active = true;
              firmware_size = size;
              handle = (env.ota_begin h (some p) size).1;
              partition = some p;
              expected_sha256 = digest;
            })
            (ota_began (some p) size (env.ota_begin h (some p) size).1 esp_ok ∷ h)
            err_ok
  unfolding begin cleared
  begin_next h p size digest rest k sized pos fits word =
      rw (at, not_zero, k.offers h, begin_sized, at, room, k.begins h (some p) size, whole) refl
    where
      at : read_u32_le (le32 size ++ (digest ++ rest)) ≡ size
      at =
          read_u32_le_lem (le32 size ++ (digest ++ rest))
          ∙ read_le32-le32 size (digest ++ rest) word

      not_zero : (size == 0) ≡ false
      not_zero = ground arith

      room : ltb p.size size ≡ false
      room = ground arith

      whole : overwrite (replicate sha256_size 0) 0 (take sha256_size (digest ++ rest)) ≡ digest
      whole =
          ap (overwrite (replicate sha256_size 0) 0) (take_append digest rest sha256_size sized)
          ∙ sym (
              take_all (overwrite (replicate sha256_size 0) 0 digest) sha256_size (
                omega (
                  arith,
                  length-overwrite (replicate {A = ℕ} sha256_size 0) 0 digest,
                  length-replicate {A = ℕ} sha256_size 0,
                )))
          ∙ take-overwrite (replicate {A = ℕ} sha256_size 0) 0 digest sha256_size (omega arith)
              (omega (arith, length-replicate {A = ℕ} sha256_size 0))

  -- OTA_END on a complete session.
  pub finish_next :
      (s : OtaState) (h : History) (p : Partition) (digest : List ℕ)
      → Succeeds env p digest
      → s.active ≡ true
      → s.bytes_received ≡ s.firmware_size
      → s.expected_sha256 ≡ digest
      → finish env s h
        ≡ ran cleared
            (boot_set s.partition esp_ok
              ∷ hashed s.partition esp_ok digest
              ∷ ota_ended s.handle esp_ok
              ∷ h)
            err_ok
  unfolding finish
  finish_next s h p digest k busy complete expected =
      rw
        (
          busy,
          same,
          k.ends h s.handle,
          k.hashes (ota_ended s.handle esp_ok ∷ h) s.partition,
          expected,
          same_bytes_self sha256_size digest,
          k.boots_it (hashed s.partition esp_ok digest ∷ ota_ended s.handle esp_ok ∷ h) s.partition,
        )
        refl
    where
      same : (s.bytes_received != s.firmware_size) ≡ false
      same = ground arith
