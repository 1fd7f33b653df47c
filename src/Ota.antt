-- ===== src/Ota.antt =====
-- The OTA session: firmware/components/ota_link/src/ota_manager.c. Each operation takes the
-- static `s_ota` and the calls of the past, and gives both with the error code.
pub mod Staged
pub mod Silent
pub mod Bytes
pub mod Invariant
pub mod Chunks
pub mod Retry
pub mod Finish
pub mod Session
pub mod Steps
pub mod Transfer
pub mod Examples
use esp32_ota_link.Base.{
  ℕ, zero, suc, ◌+◌, ◌-◌, List, ◌∷◌, Option, none, some, Bool, true, false, not, ◌&&◌, ltb, leb,
  ◌==◌, ◌!=◌, if◌then◌else◌, take, drop, get_or, overwrite, replicate, bit_or, u32, ◌<<<◌,
}
use esp32_ota_link.Idf.{
  Env, History, Partition, is_ok, ota_began, ota_wrote, ota_ended, ota_aborted, hashed, boot_set,
}
use esp32_ota_link.Protocol.Wire.{
  ProtocolError, err_ok, err_invalid_length, err_ota_already_started, err_ota_not_started,
  err_ota_invalid_offset, err_ota_flash_error, err_ota_hash_mismatch, err_ota_invalid_image,
  err_ota_size_error,
}

abbrev pub sha256_size : ℕ
sha256_size = 32

-- 4 + OTA_SHA256_SIZE.
abbrev pub begin_payload_size : ℕ
begin_payload_size = 36

abbrev pub data_header_size : ℕ
data_header_size = 8

abbrev pub max_chunk_size : ℕ
max_chunk_size = 1016

-- `ota_state_t`. `none` is the NULL partition.
pub record OtaState : Type 0 where
  pub active : Bool
  pub firmware_size : ℕ
  pub bytes_received : ℕ
  pub last_chunk_offset : ℕ
  pub last_chunk_length : ℕ
  pub last_chunk_data : List ℕ
  pub expected_sha256 : List ℕ
  pub handle : ℕ
  pub partition : Option Partition

-- What `memset(&s_ota, 0, sizeof(s_ota))` leaves.
unfoldable pub cleared : OtaState
cleared = record {
  active = false;
  firmware_size = 0;
  bytes_received = 0;
  last_chunk_offset = 0;
  last_chunk_length = 0;
  last_chunk_data = replicate max_chunk_size 0;
  expected_sha256 = replicate sha256_size 0;
  handle = 0;
  partition = none;
}

pub record OtaRun : Type 0 where
  pub state : OtaState
  pub history : History
  pub result : ProtocolError

abbrev pub ran : OtaState → History → ProtocolError → OtaRun
ran s h e = record { state = s; history = h; result = e }

unfoldable pub read_u32_le : List ℕ → ℕ
read_u32_le xs = u32 (
    bit_or (bit_or (bit_or (get_or xs 0 0) (get_or xs 1 0 <<< 8)) (get_or xs 2 0 <<< 16))
      (get_or xs 3 0 <<< 24))

-- `memcmp(left, right, length) == 0`.
unfoldable pub same_bytes : List ℕ → List ℕ → ℕ → Bool
same_bytes xs ys zero = true
same_bytes xs ys (suc n) = get_or xs 0 0 == get_or ys 0 0 && same_bytes (drop 1 xs) (drop 1 ys) n

module _ (env : Env) where
  -- `ota_manager_begin` from `esp_ota_begin` on.
  pub begin_on : OtaState → History → List ℕ → ℕ → Option Partition → OtaRun
  unfolding cleared
  begin_on s h payload firmware_size partition =
      let (err, handle) = env.ota_begin h partition firmware_size in
      let h' = ota_began partition firmware_size handle err ∷ h in
      if not (is_ok err)
      then ran s h' err_ota_flash_error
      else ran
          (record cleared {
            active = true;
            firmware_size = firmware_size;
            handle = handle;
            partition = partition;
            expected_sha256 =
                overwrite cleared.expected_sha256 0 (take sha256_size (drop 4 payload));
          })
          h' err_ok

  -- The look-up of the partition and the checks of its size.
  pub begin_sized : OtaState → History → List ℕ → ℕ → Option Partition → OtaRun
  unfolding begin_on
  begin_sized s h payload firmware_size none = ran s h err_ota_invalid_image
  begin_sized s h payload firmware_size (some p) =
      if ltb p.size firmware_size
      then ran s h err_ota_size_error
      else begin_on s h payload firmware_size (some p)

  unfoldable pub begin : OtaState → History → List ℕ → ℕ → OtaRun
  unfolding begin_sized read_u32_le
  begin s h payload length =
      if s.active
      then ran s h err_ota_already_started
      else if length != begin_payload_size
      then ran s h err_invalid_length
      else if read_u32_le payload == 0
      then ran s h err_ota_size_error
      else begin_sized s h payload (read_u32_le payload) (env.next_update_partition h)

  unfoldable pub abort : OtaState → History → OtaRun
  unfolding cleared
  abort s h =
      let err = env.ota_abort h s.handle in
      let h' = ota_aborted s.handle err ∷ h in
      if not s.active
      then ran s h err_ota_not_started
      else if not (is_ok err)
      then ran cleared h' err_ota_flash_error
      else ran cleared h' err_ok

  -- The test for a retry of the chunk that was written last.
  pub is_duplicate : OtaState → ℕ → List ℕ → ℕ → Bool
  unfolding same_bytes
  is_duplicate s offset chunk data_length =
      offset == s.last_chunk_offset
      && data_length == s.last_chunk_length
      && u32 (offset + data_length) == s.bytes_received
      && same_bytes chunk s.last_chunk_data data_length

  -- `ota_manager_write_data` from `esp_ota_write` on.
  pub write_chunk : OtaState → History → ℕ → List ℕ → ℕ → OtaRun
  write_chunk s h offset chunk data_length =
      let err = env.ota_write h s.handle (take data_length chunk) in
      let h' = ota_wrote s.handle (take data_length chunk) err ∷ h in
      if not (is_ok err)
      then ran s h' err_ota_flash_error
      else ran
          (record s {
            last_chunk_offset = offset;
            last_chunk_length = data_length;
            last_chunk_data = overwrite s.last_chunk_data 0 (take data_length chunk);
            bytes_received = u32 (s.bytes_received + data_length);
          })
          h' err_ok

  -- From the check of `data_length` on.
  pub write_at : OtaState → History → ℕ → List ℕ → ℕ → OtaRun
  unfolding is_duplicate write_chunk
  write_at s h offset chunk data_length =
      if ltb max_chunk_size data_length
      then ran s h err_invalid_length
      else if offset != s.bytes_received
      then (if is_duplicate s offset chunk data_length
          then ran s h err_ok
          else ran s h err_ota_invalid_offset)
      else if ltb s.firmware_size (u32 (offset + data_length))
      then ran s h err_ota_size_error
      else write_chunk s h offset chunk data_length

  unfoldable pub write_data : OtaState → History → List ℕ → ℕ → OtaRun
  unfolding write_at read_u32_le
  write_data s h payload length =
      if not s.active
      then ran s h err_ota_not_started
      else if leb length data_header_size
      then ran s h err_invalid_length
      else write_at s h (read_u32_le (drop 4 payload)) (drop data_header_size payload)
          (length - data_header_size)

  -- `ota_manager_end` from `esp_ota_set_boot_partition` on.
  pub end_boot : OtaState → History → OtaRun
  unfolding cleared
  end_boot s h =
      let err = env.set_boot_partition h s.partition in
      let h' = boot_set s.partition err ∷ h in
      if not (is_ok err) then ran cleared h' err_ota_invalid_image else ran cleared h' err_ok

  -- From `esp_partition_get_sha256` on.
  pub end_hash : OtaState → History → OtaRun
  unfolding end_boot cleared same_bytes
  end_hash s h =
      let (err, actual_sha256) = env.partition_sha256 h s.partition in
      let h' = hashed s.partition err actual_sha256 ∷ h in
      if not (is_ok err)
      then ran cleared h' err_ota_hash_mismatch
      else if not (same_bytes actual_sha256 s.expected_sha256 sha256_size)
      then ran cleared h' err_ota_hash_mismatch
      else end_boot s h'

  -- `ota_manager_end`.
  unfoldable pub finish : OtaState → History → OtaRun
  unfolding end_hash cleared
  finish s h =
      let err = env.ota_end h s.handle in
      let h' = ota_ended s.handle err ∷ h in
      if not s.active
      then ran s h err_ota_not_started
      else if s.bytes_received != s.firmware_size
      then ran s h err_ota_size_error
      else if not (is_ok err)
      then ran cleared h' err_ota_invalid_image
      else end_hash s h'

-- `ota_manager_is_active`.
unfoldable pub is_active : OtaState → Bool
is_active s = s.active
