-- ===== src/Ota/Silent.antt =====
-- The OTA manager sends nothing and restarts nothing: its calls are those of the OTA interface.
use esp32_ota_link.Base.{
  ℕ, refl, List, Option, none, some, not, ltb, leb, ◌==◌, ◌!=◌, if_cases, drop, take, ◌+◌, ◌-◌, u32,
}
use esp32_ota_link.Idf.{Env, History, Partition, is_ok}
use esp32_ota_link.Idf.Traffic.{IsSilent}
use esp32_ota_link.Ota.{
  OtaState, OtaRun, begin, begin_sized, abort, write_data, write_at, is_duplicate, finish, end_hash,
  end_boot, begin_payload_size, data_header_size, max_chunk_size, sha256_size, read_u32_le,
  same_bytes,
}

abbrev nothing : (h : History) → IsSilent h h
nothing h = record { no_write = refl; no_reset = refl }

module _ (env : Env) (s : OtaState) (h : History) where
  abbrev P : OtaRun → Type 0
  P r = IsSilent h r.history

  begin_sized-IsSilent :
      (payload : List ℕ) (size : ℕ) (q : Option Partition) → P (begin_sized env s h payload size q)
  unfolding begin_sized
  begin_sized-IsSilent payload size none = nothing h
  begin_sized-IsSilent payload size (some p) =
      if_cases P (ltb p.size size) (λ e. nothing h)
        (λ e.
          if_cases P (not (is_ok (env.ota_begin h (some p) size).0))
            (λ e. record { no_write = refl; no_reset = refl })
            (λ e. record { no_write = refl; no_reset = refl }))

  pub begin-IsSilent : (payload : List ℕ) (n : ℕ) → P (begin env s h payload n)
  unfolding begin
  begin-IsSilent payload n =
      if_cases P s.active (λ e. nothing h)
        (λ e.
          if_cases P (n != begin_payload_size) (λ e. nothing h)
            (λ e.
              if_cases P (read_u32_le payload == 0) (λ e. nothing h)
                (λ e.
                  begin_sized-IsSilent payload (read_u32_le payload)
                    (env.next_update_partition h))))

  pub abort-IsSilent : P (abort env s h)
  unfolding abort
  abort-IsSilent =
      if_cases P (not s.active) (λ e. nothing h)
        (λ e.
          if_cases P (not (is_ok (env.ota_abort h s.handle)))
            (λ e. record { no_write = refl; no_reset = refl })
            (λ e. record { no_write = refl; no_reset = refl }))

  write_at-IsSilent : (offset : ℕ) (chunk : List ℕ) (n : ℕ) → P (write_at env s h offset chunk n)
  unfolding write_at
  write_at-IsSilent offset chunk n =
      if_cases P (ltb max_chunk_size n) (λ e. nothing h)
        (λ e.
          if_cases P (offset != s.bytes_received)
            (λ e. if_cases P (is_duplicate env s offset chunk n) (λ e. nothing h) (λ e. nothing h))
            (λ e.
              if_cases P (ltb s.firmware_size (u32 (offset + n))) (λ e. nothing h)
                (λ e.
                  if_cases P (not (is_ok (env.ota_write h s.handle (take n chunk))))
                    (λ e. record { no_write = refl; no_reset = refl })
                    (λ e. record { no_write = refl; no_reset = refl }))))

  pub write_data-IsSilent : (payload : List ℕ) (n : ℕ) → P (write_data env s h payload n)
  unfolding write_data
  write_data-IsSilent payload n =
      if_cases P (not s.active) (λ e. nothing h)
        (λ e.
          if_cases P (leb n data_header_size) (λ e. nothing h)
            (λ e.
              write_at-IsSilent (read_u32_le (drop 4 payload)) (drop data_header_size payload)
                (n - data_header_size)))

  end_boot-IsSilent : (h' : History) → IsSilent h h' → P (end_boot env s h')
  unfolding end_boot
  end_boot-IsSilent h' q =
      if_cases P (not (is_ok (env.set_boot_partition h' s.partition)))
        (λ e. record { no_write = q.no_write; no_reset = q.no_reset })
        (λ e. record { no_write = q.no_write; no_reset = q.no_reset })

  end_hash-IsSilent : (h' : History) → IsSilent h h' → P (end_hash env s h')
  unfolding end_hash
  end_hash-IsSilent h' q =
      let hash = env.partition_sha256 h' s.partition in
      if_cases P (not (is_ok hash.0)) (λ e. record { no_write = q.no_write; no_reset = q.no_reset })
        (λ e.
          if_cases P (not (same_bytes hash.1 s.expected_sha256 sha256_size))
            (λ e. record { no_write = q.no_write; no_reset = q.no_reset })
            (λ e. end_boot-IsSilent _ (record { no_write = q.no_write; no_reset = q.no_reset })))

  pub finish-IsSilent : P (finish env s h)
  unfolding finish
  finish-IsSilent =
      if_cases P (not s.active) (λ e. nothing h)
        (λ e.
          if_cases P (s.bytes_received != s.firmware_size) (λ e. nothing h)
            (λ e.
              if_cases P (not (is_ok (env.ota_end h s.handle)))
                (λ e. record { no_write = refl; no_reset = refl })
                (λ e. end_hash-IsSilent _ (record { no_write = refl; no_reset = refl }))))
