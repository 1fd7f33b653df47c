-- ===== src/Ota/Finish.antt =====
-- When the boot partition changes: only by `ota_manager_end`, on a complete image whose digest is
-- the announced one.
use esp32_ota_link.Base.{
  ℕ, ◌≡◌, ◌≢◌, refl, sym, ap, subst, ◌∙◌, ◌⊎◌, inl, inr, List, ◌∷◌, Option, none, some, true, false,
  not, arith, ◌!=◌, if_cases, length, take_all,
}
use esp32_ota_link.Idf.{Env, History, Partition, EspErr, esp_ok, is_ok, ota_ended, hashed, boot_set}
use esp32_ota_link.Protocol.Wire.{err_ok}
use esp32_ota_link.Ota.{
  OtaState, OtaRun, cleared, begin, begin_sized, abort, write_data, finish, end_hash, end_boot,
  sha256_size, read_u32_le, same_bytes,
}
use esp32_ota_link.Ota.Bytes.{same_bytes→take}
use esp32_ota_link.Ota.Staged.{staged, boots}
use esp32_ota_link.Ota.Invariant.{OtaInv, IsOpen}
use esp32_ota_link.Ota.Chunks.{WriteForm, refused, flash, repeated, written, write_data-WriteForm}

-- `esp_partition_get_sha256` gives a digest of 32 bytes.
abbrev pub HashSized : Env → Type 0
HashSized env =
    (h : History) (p : Option Partition) → length (env.partition_sha256 h p).1 ≡ sha256_size

-- What must hold for a partition to be made bootable.
pub record IsVerified (env : Env) (s : OtaState) (h : History) : Type 0 where
  pub active : s.active ≡ true
  pub complete : length (staged h) ≡ s.firmware_size
  pub validated : env.ota_end h s.handle ≡ esp_ok
  pub digest :
      env.partition_sha256 (ota_ended s.handle esp_ok ∷ h) s.partition ≡ (esp_ok, s.expected_sha256)

-- Either an error, and no partition was made bootable; or ERR_OK, the image was verified, the
-- session's partition was made bootable, and the session is over.
abbrev pub BootsBy : Env → OtaState → History → OtaRun → Type 0
BootsBy env s h r =
    ((boots r.history ≡ boots h) × (r.result ≢ err_ok))
    ⊎ (IsVerified env s h
        × (r.result ≡ err_ok)
        × (r.state ≡ cleared)
        × (boots r.history ≡ s.partition ∷ boots h))

is_ok_lem : (e : EspErr) → not (is_ok e) ≡ false → e ≡ esp_ok
is_ok_lem esp_ok h = refl
is_ok_lem _ h = absurd (cc)

boots_failed :
    (p : Option Partition) (e : EspErr) (h : History)
    → not (is_ok e) ≡ true
    → boots (boot_set p e ∷ h) ≡ boots h
boots_failed p esp_ok h bad = absurd (cc)
boots_failed p _ h bad = refl

boots_ok :
    (p : Option Partition) (e : EspErr) (h : History)
    → not (is_ok e) ≡ false
    → boots (boot_set p e ∷ h) ≡ p ∷ boots h
boots_ok p esp_ok h ok = refl
boots_ok p _ h ok = absurd (cc)

module _ (env : Env) (s : OtaState) (h : History) where
  abbrev after_end : History
  after_end = ota_ended s.handle (env.ota_end h s.handle) ∷ h

  boot-BootsBy :
      (e : EspErr) (digest : List ℕ)
      → IsVerified env s h
      → BootsBy env s h (end_boot env s (hashed s.partition e digest ∷ after_end))
  unfolding end_boot
  boot-BootsBy e digest verified =
      if_cases (BootsBy env s h)
        (not (is_ok (env.set_boot_partition (hashed s.partition e digest ∷ after_end) s.partition)))
        (λ failed. inl (boots_failed s.partition _ _ failed, λ q. cc))
        (λ ok. inr (verified, refl, refl, boots_ok s.partition _ _ ok))

  hash-BootsBy :
      HashSized env
      → IsOpen s h
      → s.active ≡ true
      → s.bytes_received ≡ s.firmware_size
      → env.ota_end h s.handle ≡ esp_ok
      → BootsBy env s h (end_hash env s after_end)
  unfolding end_hash
  hash-BootsBy sized o busy complete ended =
      if_cases (BootsBy env s h) (not (is_ok (env.partition_sha256 after_end s.partition).0))
        (λ failed. inl (refl, λ q. cc))
        (λ ok.
          if_cases (BootsBy env s h) (not (same_bytes actual s.expected_sha256 sha256_size))
            (λ differ. inl (refl, λ q. cc))
            (λ same. boot-BootsBy (env.partition_sha256 after_end s.partition).0 actual (record {
              active = busy;
              complete = o.received ∙ complete;
              validated = ended;
              digest =
                  subst
                    (λ e.
                      env.partition_sha256 (ota_ended s.handle e ∷ h) s.partition
                      ≡ (esp_ok, s.expected_sha256))
                    ended (λ i. (is_ok_lem _ ok i, equal same i));
            })))
    where
      actual : List ℕ
      actual = (env.partition_sha256 after_end s.partition).1

      equal :
          not (same_bytes actual s.expected_sha256 sha256_size) ≡ false → actual ≡ s.expected_sha256
      equal same =
          sym (take_all actual sha256_size (omega (arith, sized after_end s.partition)))
          ∙ same_bytes→take sha256_size actual s.expected_sha256
              (omega (arith, sized after_end s.partition)) (omega (arith, o.digest_sized))
              (ground arith)
          ∙ take_all s.expected_sha256 sha256_size (omega (arith, o.digest_sized))

  -- `ota_manager_end` under the invariant, where digests have 32 bytes: it returns ERR_OK only if
  -- the session was active, all announced bytes were staged, `esp_ota_end` accepted the image and
  -- its digest equals the one of OTA_BEGIN; then the session's partition is the one more that was
  -- made bootable and the session is cleared. On any error no partition was made bootable.
  pub finish-BootsBy : HashSized env → OtaInv s h → BootsBy env s h (finish env s h)
  unfolding finish
  finish-BootsBy sized v =
      if_cases (BootsBy env s h) (not s.active) (λ idle. inl (refl, λ q. cc))
        (λ busy.
          if_cases (BootsBy env s h) (s.bytes_received != s.firmware_size)
            (λ partial. inl (refl, λ q. cc))
            (λ complete.
              if_cases (BootsBy env s h) (not (is_ok (env.ota_end h s.handle)))
                (λ failed. inl (refl, λ q. cc))
                (λ ok.
                  let active : s.active ≡ true = ground arith in
                  hash-BootsBy sized (v.open_session active) active (ground arith)
                    (is_ok_lem _ ok))))

  -- The other operations make nothing bootable.
  begin_sized-boots :
      (payload : List ℕ) (size : ℕ) (q : Option Partition)
      → boots (begin_sized env s h payload size q).history ≡ boots h
  unfolding begin_sized
  begin_sized-boots payload size none = refl
  begin_sized-boots payload size (some p) = ground arith

  pub begin-boots : (payload : List ℕ) (n : ℕ) → boots (begin env s h payload n).history ≡ boots h
  unfolding begin
  begin-boots payload n =
      ground (arith, begin_sized-boots payload (read_u32_le payload) (env.next_update_partition h))

  pub abort-boots : boots (abort env s h).history ≡ boots h
  unfolding abort
  abort-boots = ground arith

  pub write_data-boots :
      (payload : List ℕ) (n : ℕ) → boots (write_data env s h payload n).history ≡ boots h
  write_data-boots payload n = by_form (write_data-WriteForm env s h payload n)
    where
      by_form : {r : OtaRun} → WriteForm env s h payload n r → boots r.history ≡ boots h
      by_form (refused bad st hist) = ap boots hist
      by_form (flash e failed bad st hist) = ap boots hist
      by_form (repeated accepted elsewhere dup form) = ap (λ (r : OtaRun). boots r.history) form
      by_form (written e ok accepted at fits form) = ap (λ (r : OtaRun). boots r.history) form
