-- ===== src/Ota/Chunks.antt =====
-- `ota_manager_write_data` by its outcomes: what an acknowledged chunk means for the staged image,
-- and what a retry of a chunk does.
use esp32_ota_link.Base.{
  ℕ, ◌+◌, ◌-◌, ◌≡◌, ◌≢◌, refl, ap, subst, List, ◌∷◌, true, false, not, arith, ltb, leb, ◌!=◌,
  if◌then◌else◌, if_cases, take, drop, u32,
}
use esp32_ota_link.Idf.{Env, History, EspErr, is_ok, ota_wrote}
use esp32_ota_link.Protocol.Wire.{err_ok, err_ota_size_error}
use esp32_ota_link.Ota.{
  OtaState, OtaRun, ran, write_data, write_chunk, is_duplicate, max_chunk_size, data_header_size,
  read_u32_le,
}
use esp32_ota_link.Ota.Invariant.{extended}

-- The fields of an OTA_DATA payload.
abbrev pub chunk_offset : List ℕ → ℕ
chunk_offset payload = read_u32_le (drop 4 payload)

abbrev pub chunk_bytes : List ℕ → ℕ → List ℕ
chunk_bytes payload n = take (n - data_header_size) (drop data_header_size payload)

module _ (env : Env) (s : OtaState) (h : History) (payload : List ℕ) (n : ℕ) where
  -- What an accepted chunk has passed.
  pub record IsAccepted : Type 0 where
    pub active : s.active ≡ true
    pub long : leb n data_header_size ≡ false
    pub small : ltb max_chunk_size (n - data_header_size) ≡ false

  -- The three outcomes of `ota_manager_write_data`: refused with an error (`flash` if by
  -- `esp_ota_write`), acknowledged as a retry, written.
  pub data WriteForm (r : OtaRun) : Type 0 where
    refused : r.result ≢ err_ok → r.state ≡ s → r.history ≡ h → WriteForm r
    flash :
        (e : EspErr)
        → not (is_ok e) ≡ true
        → r.result ≢ err_ok
        → r.state ≡ s
        → r.history ≡ ota_wrote s.handle (chunk_bytes payload n) e ∷ h
        → WriteForm r
    repeated :
        IsAccepted
        → (chunk_offset payload != s.bytes_received) ≡ true
        → is_duplicate env s
            (chunk_offset payload)
            (drop data_header_size payload)
            (n - data_header_size)
          ≡ true
        → r ≡ ran s h err_ok
        → WriteForm r
    written :
        (e : EspErr)
        → not (is_ok e) ≡ false
        → IsAccepted
        → chunk_offset payload ≡ s.bytes_received
        → ltb s.firmware_size (u32 (s.bytes_received + (n - data_header_size))) ≡ false
        → r
          ≡ ran
              (extended s (n - data_header_size) (drop data_header_size payload))
              (ota_wrote s.handle (chunk_bytes payload n) e ∷ h)
              err_ok
        → WriteForm r

  -- Every call has one of them.
  pub write_data-WriteForm : WriteForm (write_data env s h payload n)
  unfolding write_data
  write_data-WriteForm =
      if_cases WriteForm (not s.active) (λ idle. refused (λ q. cc) refl refl)
        (λ busy.
          if_cases WriteForm (leb n data_header_size) (λ short. refused (λ q. cc) refl refl)
            (λ long.
              if_cases WriteForm (ltb max_chunk_size (n - data_header_size))
                (λ large. refused (λ q. cc) refl refl)
                (λ small.
                  let accepted : IsAccepted = record {
                    active = ground arith;
                    long = long;
                    small = small;
                  } in
                  if_cases WriteForm (chunk_offset payload != s.bytes_received)
                    (λ elsewhere.
                      if_cases WriteForm
                        (is_duplicate env s (chunk_offset payload) (drop data_header_size payload)
                          (n - data_header_size))
                        (λ again. repeated accepted elsewhere again refl)
                        (λ wrong. refused (λ q. cc) refl refl))
                    (λ here. placed accepted here))))
    where
      placed :
          IsAccepted
          → (chunk_offset payload != s.bytes_received) ≡ false
          → WriteForm (
              if ltb s.firmware_size (u32 (chunk_offset payload + (n - data_header_size)))
              then ran s h err_ota_size_error
              else write_chunk env s h
                  (chunk_offset payload)
                  (drop data_header_size payload)
                  (n - data_header_size))
      placed accepted here =
          let at : chunk_offset payload ≡ s.bytes_received = ground arith in
          if_cases WriteForm
            (ltb s.firmware_size (u32 (chunk_offset payload + (n - data_header_size))))
            (λ beyond. refused (λ q. cc) refl refl)
            (λ fits.
              if_cases WriteForm (not (is_ok (env.ota_write h s.handle (chunk_bytes payload n))))
                (λ failed. flash _ failed (λ q. cc) refl refl)
                (λ ok.
                  written _ ok accepted at
                    (subst (λ k. ltb s.firmware_size (u32 (k + (n - data_header_size))) ≡ false) at
                      fits)
                    (ap
                      (λ k.
                        ran
                          (record (extended s (n - data_header_size)
                            (drop data_header_size payload)) { last_chunk_offset = k })
                          (ota_wrote s.handle (chunk_bytes payload n)
                              (env.ota_write h s.handle (chunk_bytes payload n))
                            ∷ h)
                          err_ok)
                      at)))
