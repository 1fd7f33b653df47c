-- ===== src/Ota/Invariant.antt =====
-- The invariant that ties the session in RAM to what was written to flash, and that each
-- operation keeps it.
use esp32_ota_link.Base.{
  ℕ, ◌+◌, ◌-◌, ◌^◌, ◌≤◌, ◌<◌, ◌≡◌, refl, sym, subst, ◌∙◌, List, ◌∷◌, Option, none, some, true,
  false, not, arith, ltb, leb, ◌==◌, ◌!=◌, if_cases, length, length-append, take, drop, overwrite,
  length-take, length-drop, length-overwrite, length-replicate, take-overwrite, drop_append,
  replicate, u32,
}
use esp32_ota_link.Idf.{Env, History, Partition, EspErr, esp_ok, is_ok, ota_began, ota_wrote}
use esp32_ota_link.Ota.{
  OtaState, OtaRun, cleared, begin, begin_sized, abort, write_data, write_at, write_chunk,
  is_duplicate, finish, end_hash, end_boot, max_chunk_size, data_header_size, sha256_size,
  read_u32_le, begin_payload_size, same_bytes,
}
use esp32_ota_link.Ota.Staged.{staged, opened}

-- An open session. `last_chunk_*` describes the end of the staged bytes.
pub record IsOpen (s : OtaState) (h : History) : Type 0 where
  pub session : opened h ≡ some (s.partition, s.firmware_size, s.handle)
  pub received : length (staged h) ≡ s.bytes_received
  pub within : s.bytes_received ≤ s.firmware_size
  pub no_wrap : s.firmware_size + max_chunk_size < 2 ^ 32
  pub last_end : s.last_chunk_offset + s.last_chunk_length ≡ s.bytes_received
  pub last_small : s.last_chunk_length ≤ max_chunk_size
  pub last_sized : length s.last_chunk_data ≡ max_chunk_size
  pub last_bytes : take s.last_chunk_length s.last_chunk_data ≡ drop s.last_chunk_offset (staged h)
  pub digest_sized : length s.expected_sha256 ≡ sha256_size

-- No session leaves no trace in RAM.
pub record OtaInv (s : OtaState) (h : History) : Type 0 where
  pub open_session : s.active ≡ true → IsOpen s h
  pub closed_session : s.active ≡ false → s ≡ cleared

-- The update partition that the platform offers is so small that offsets in it and one more
-- chunk do not wrap around `uint32_t` (flash chips have far less than 4 GB).
abbrev pub SmallPartitions : Env → Type 0
SmallPartitions env =
    (h : History) (p : Partition)
    → env.next_update_partition h ≡ some p
    → p.size + max_chunk_size < 2 ^ 32

cleared-inactive : cleared.active ≡ false
unfolding cleared
cleared-inactive = refl

pub cleared-OtaInv : (h : History) → OtaInv cleared h
cleared-OtaInv h = record {
  open_session = λ e. absurd (cc cleared-inactive);
  closed_session = λ e. refl;
}

-- The state and the calls that an operation leaves satisfy the invariant.
abbrev pub Keeps : OtaRun → Type 0
Keeps r = OtaInv r.state r.history

-- Without a session the calls of the past do not matter.
OtaInv-idle : (s : OtaState) (h h' : History) → s.active ≡ false → OtaInv s h → OtaInv s h'
OtaInv-idle s h h' idle v = record {
  open_session = λ e. absurd (cc);
  closed_session = v.closed_session;
}

-- A write that fails changes nothing.
OtaInv-failed_write :
    (s : OtaState) (h : History) (handle : ℕ) (bytes : List ℕ) (e : EspErr)
    → not (is_ok e) ≡ true
    → OtaInv s h
    → OtaInv s (ota_wrote handle bytes e ∷ h)
OtaInv-failed_write s h handle bytes esp_ok f v = absurd (cc)
OtaInv-failed_write s h handle bytes _ f v = record {
  open_session = λ a. record {
    session = (v.open_session a).session;
    received = (v.open_session a).received;
    within = (v.open_session a).within;
    no_wrap = (v.open_session a).no_wrap;
    last_end = (v.open_session a).last_end;
    last_small = (v.open_session a).last_small;
    last_sized = (v.open_session a).last_sized;
    last_bytes = (v.open_session a).last_bytes;
    digest_sized = (v.open_session a).digest_sized;
  };
  closed_session = v.closed_session;
}

-- The session that a successful `esp_ota_begin` opens.
pub opened-OtaInv :
    (size handle : ℕ) (p : Partition) (digest : List ℕ) (h : History) (e : EspErr)
    → not (is_ok e) ≡ false
    → size + max_chunk_size < 2 ^ 32
    → length digest ≡ sha256_size
    → OtaInv
        (record cleared {
          active = true;
          firmware_size = size;
          handle = handle;
          partition = some p;
          expected_sha256 = digest;
        })
        (ota_began (some p) size handle e ∷ h)
unfolding cleared
opened-OtaInv size handle p digest h esp_ok ok small sized = record {
  open_session = λ a. record {
    session = refl;
    received = refl;
    within = omega arith;
    no_wrap = small;
    last_end = omega arith;
    last_small = omega arith;
    last_sized = length-replicate {A = ℕ} max_chunk_size 0;
    last_bytes = refl;
    digest_sized = sized;
  };
  closed_session = λ q. absurd (cc);
}
opened-OtaInv size handle p digest h _ ok small sized = absurd (cc)

-- The session after one more chunk.
abbrev pub extended : OtaState → ℕ → List ℕ → OtaState
extended s n chunk = record s {
  last_chunk_offset = s.bytes_received;
  last_chunk_length = n;
  last_chunk_data = overwrite s.last_chunk_data 0 (take n chunk);
  bytes_received = u32 (s.bytes_received + n);
}

pub extended-IsOpen :
    (s : OtaState) (h : History) (n : ℕ) (chunk : List ℕ) (e : EspErr)
    → not (is_ok e) ≡ false
    → IsOpen s h
    → n ≤ length chunk
    → n ≤ max_chunk_size
    → ltb s.firmware_size (u32 (s.bytes_received + n)) ≡ false
    → IsOpen (extended s n chunk) (ota_wrote s.handle (take n chunk) e ∷ h)
extended-IsOpen s h n chunk esp_ok ok o long small fits = record {
  session = o.session;
  received = omega (
    arith,
    o.received,
    o.within,
    o.no_wrap,
    length-append (staged h) (take n chunk),
    length-take n chunk,
  );
  within = ground arith;
  no_wrap = o.no_wrap;
  last_end = omega (arith, o.within, o.no_wrap);
  last_small = small;
  last_sized = length-overwrite s.last_chunk_data 0 (take n chunk) ∙ o.last_sized;
  last_bytes =
      take-overwrite s.last_chunk_data 0 (take n chunk) n (omega (arith, length-take n chunk))
        (omega (arith, o.last_sized))
      ∙ sym (drop_append (staged h) (take n chunk) s.bytes_received o.received);
  digest_sized = o.digest_sized;
}
extended-IsOpen s h n chunk _ ok o long small fits = absurd (cc)

module _ (env : Env) where
  begin_sized-Keeps :
      (s : OtaState) (h : History) (payload : List ℕ) (size : ℕ) (q : Option Partition)
      → ((p : Partition) → q ≡ some p → p.size + max_chunk_size < 2 ^ 32)
      → s.active ≡ false
      → OtaInv s h
      → Keeps (begin_sized env s h payload size q)
  unfolding begin_sized
  begin_sized-Keeps s h payload size none small idle v = v
  begin_sized-Keeps s h payload size (some p) small idle v =
      if_cases Keeps (ltb p.size size) (λ large. v)
        (λ fits.
          if_cases Keeps (not (is_ok (env.ota_begin h (some p) size).0))
            (λ failed. OtaInv-idle s h _ idle v)
            (λ ok. opened-OtaInv size _ p _ h _ ok (ground (arith, small p refl)) (
              length-overwrite (replicate sha256_size 0) 0 (take sha256_size (drop 4 payload))
              ∙ length-replicate {A = ℕ} sha256_size 0)))

  -- `ota_manager_begin` keeps the invariant.
  pub begin-Keeps :
      (s : OtaState) (h : History) (payload : List ℕ) (n : ℕ)
      → SmallPartitions env
      → OtaInv s h
      → Keeps (begin env s h payload n)
  unfolding begin
  begin-Keeps s h payload n small v =
      if_cases Keeps s.active (λ busy. v)
        (λ idle.
          if_cases Keeps (n != begin_payload_size) (λ wrong. v)
            (λ right.
              if_cases Keeps (read_u32_le payload == 0) (λ empty. v)
                (λ some_bytes.
                  begin_sized-Keeps s h payload (read_u32_le payload) (env.next_update_partition h)
                    (small h) idle v)))

  write_at-Keeps :
      (s : OtaState) (h : History) (offset n : ℕ) (chunk : List ℕ)
      → s.active ≡ true
      → n ≤ length chunk
      → OtaInv s h
      → Keeps (write_at env s h offset chunk n)
  unfolding write_at
  write_at-Keeps s h offset n chunk busy long v =
      if_cases Keeps (ltb max_chunk_size n) (λ large. v)
        (λ small.
          if_cases Keeps (offset != s.bytes_received)
            (λ elsewhere.
              if_cases Keeps (is_duplicate env s offset chunk n) (λ again. v) (λ wrong. v))
            (λ here.
              if_cases Keeps (ltb s.firmware_size (u32 (offset + n))) (λ beyond. v)
                (λ fits. written small (ground arith) fits)))
    where
      written :
          ltb max_chunk_size n ≡ false
          → offset ≡ s.bytes_received
          → ltb s.firmware_size (u32 (offset + n)) ≡ false
          → Keeps (write_chunk env s h offset chunk n)
      written small here fits =
          if_cases Keeps (not (is_ok (env.ota_write h s.handle (take n chunk))))
            (λ failed. OtaInv-failed_write s h s.handle (take n chunk) _ failed v)
            (λ ok.
              subst
                (λ k.
                  OtaInv (record (extended s n chunk) { last_chunk_offset = k })
                    (ota_wrote s.handle (take n chunk) (env.ota_write h s.handle (take n chunk))
                      ∷ h))
                (sym here)
                (record {
                  open_session = λ a.
                      extended-IsOpen s h n chunk _ ok (v.open_session busy) long (ground arith)
                        (subst (λ k. ltb s.firmware_size (u32 (k + n)) ≡ false) here fits);
                  closed_session = λ q. absurd (cc);
                }))

  -- `ota_manager_write_data` keeps the invariant.
  pub write_data-Keeps :
      (s : OtaState) (h : History) (payload : List ℕ) (n : ℕ)
      → n ≤ length payload
      → OtaInv s h
      → Keeps (write_data env s h payload n)
  unfolding write_data
  write_data-Keeps s h payload n enough v =
      if_cases Keeps (not s.active) (λ idle. v)
        (λ busy.
          if_cases Keeps (leb n data_header_size) (λ short. v)
            (λ long.
              write_at-Keeps s h (read_u32_le (drop 4 payload)) (n - data_header_size)
                (drop data_header_size payload) (ground arith)
                (omega (arith, length-drop data_header_size payload)) v))

  -- `ota_manager_abort` keeps the invariant.
  pub abort-Keeps : (s : OtaState) (h : History) → OtaInv s h → Keeps (abort env s h)
  unfolding abort
  abort-Keeps s h v =
      if_cases Keeps (not s.active) (λ idle. v)
        (λ busy.
          if_cases Keeps (not (is_ok (env.ota_abort h s.handle))) (λ failed. cleared-OtaInv _)
            (λ ok. cleared-OtaInv _))

  -- `ota_manager_end` keeps the invariant.
  pub finish-Keeps : (s : OtaState) (h : History) → OtaInv s h → Keeps (finish env s h)
  unfolding finish
  finish-Keeps s h v =
      if_cases Keeps (not s.active) (λ idle. v)
        (λ busy.
          if_cases Keeps (s.bytes_received != s.firmware_size) (λ partial. v)
            (λ complete.
              if_cases Keeps (not (is_ok (env.ota_end h s.handle))) (λ bad. cleared-OtaInv _)
                (λ ok. hash _)))
    where
      boot : (h' : History) → Keeps (end_boot env s h')
      boot h' =
          if_cases Keeps (not (is_ok (env.set_boot_partition h' s.partition)))
            (λ failed. cleared-OtaInv _) (λ ok. cleared-OtaInv _)

      hash : (h' : History) → Keeps (end_hash env s h')
      hash h' =
          if_cases Keeps (not (is_ok (env.partition_sha256 h' s.partition).0))
            (λ failed. cleared-OtaInv _)
            (λ ok.
              if_cases Keeps
                (not (
                  same_bytes (env.partition_sha256 h' s.partition).1 s.expected_sha256 sha256_size))
                (λ differ. cleared-OtaInv _) (λ same. boot _))
