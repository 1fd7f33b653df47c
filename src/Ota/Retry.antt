-- ===== src/Ota/Retry.antt =====
-- Acknowledged chunks and retries of `ota_manager_write_data`.
use esp32_ota_link.Base.{
  ℕ, ◌+◌, ◌-◌, ◌^◌, ◌≤◌, ◌<◌, ◌≡◌, ◌≢◌, refl, sym, ap, subst, ◌∙◌, List, ◌∷◌, ◌++◌, Bool, true,
  false, not, ◌&&◌, arith, ltb, ◌==◌, ◌!=◌, ==_iff, length, take, drop, take_all, drop_append,
  overwrite, length-take, length-drop, length-overwrite, take-overwrite, u32,
}
use esp32_ota_link.Idf.{Env, History, EspErr, esp_ok, is_ok, ota_wrote}
use esp32_ota_link.Protocol.Wire.{err_ok}
use esp32_ota_link.Ota.{
  OtaState, OtaRun, ran, write_data, is_duplicate, max_chunk_size, same_bytes, data_header_size,
}
use esp32_ota_link.Ota.Bytes.{same_bytes→take, take→same_bytes}
use esp32_ota_link.Ota.Staged.{staged}
use esp32_ota_link.Ota.Invariant.{OtaInv, IsOpen, extended}
use esp32_ota_link.Ota.Chunks.{
  chunk_offset, chunk_bytes, IsAccepted, WriteForm, refused, flash, repeated, written,
  write_data-WriteForm,
}

staged_ok :
    (handle : ℕ) (bytes : List ℕ) (e : EspErr) (h : History)
    → not (is_ok e) ≡ false
    → staged (ota_wrote handle bytes e ∷ h) ≡ staged h ++ bytes
staged_ok handle bytes esp_ok h ok = refl
staged_ok handle bytes _ h ok = absurd (cc)

staged_failed :
    (handle : ℕ) (bytes : List ℕ) (e : EspErr) (h : History)
    → not (is_ok e) ≡ true
    → staged (ota_wrote handle bytes e ∷ h) ≡ staged h
staged_failed handle bytes esp_ok h bad = absurd (cc)
staged_failed handle bytes _ h bad = refl

-- The four tests of a retry.
duplicate_parts :
    (a b c d : Bool) → (a && b && c && d) ≡ true → (a ≡ true) × (b ≡ true) × (c ≡ true) × (d ≡ true)
duplicate_parts a b c d h = ground arith

all_four : {a b c d : Bool} → a ≡ true → b ≡ true → c ≡ true → d ≡ true → (a && b && c && d) ≡ true
all_four p q r t = ground arith

-- A chunk that was written has moved the expected offset.
moved :
    (offset received n size : ℕ)
    → offset ≡ received
    → 0 < n
    → n ≤ max_chunk_size
    → received ≤ size
    → size + max_chunk_size < 2 ^ 32
    → (offset != u32 (received + n)) ≡ true
moved offset received n size p q r t w = ground arith

module _ (env : Env) (s : OtaState) (h : History) (payload : List ℕ) (n : ℕ) where
  -- A retry names bytes that are staged already.
  repeated_staged :
      IsOpen s h
      → n ≤ length payload
      → is_duplicate env s
          (chunk_offset payload)
          (drop data_header_size payload)
          (n - data_header_size)
        ≡ true
      → take (n - data_header_size) (drop (chunk_offset payload) (staged h)) ≡ chunk_bytes payload n
  unfolding is_duplicate
  repeated_staged o enough dup =
      take_all (drop (chunk_offset payload) (staged h)) dl (
        omega
          (arith, o.received, o.last_end, length-drop (chunk_offset payload) (staged h), off, len))
      ∙ ap (λ k. drop k (staged h)) off
      ∙ sym o.last_bytes
      ∙ ap (λ k. take k s.last_chunk_data) (sym len)
      ∙ sym (
          same_bytes→take dl (drop data_header_size payload) s.last_chunk_data
            (omega (arith, length-drop data_header_size payload))
            (omega (arith, o.last_small, o.last_sized, len)) parts.3)
    where
      dl : ℕ
      dl = n - data_header_size

      parts :
          ((chunk_offset payload == s.last_chunk_offset) ≡ true)
          × ((dl == s.last_chunk_length) ≡ true)
          × ((u32 (chunk_offset payload + dl) == s.bytes_received) ≡ true)
          × (same_bytes (drop data_header_size payload) s.last_chunk_data dl ≡ true)
      parts = duplicate_parts _ _ _ _ dup

      off : chunk_offset payload ≡ s.last_chunk_offset
      off = (==_iff _ _).0 parts.0

      len : dl ≡ s.last_chunk_length
      len = (==_iff _ _).0 parts.1

  -- What `ota_manager_write_data` acknowledges is staged: after ERR_OK the image holds the chunk's
  -- bytes at the chunk's offset, whether they were written now or by an earlier packet. After any
  -- other result the session and the staged image are as they were.
  pub write_data_acked :
      OtaInv s h
      → n ≤ length payload
      → let r = write_data env s h payload n in
        (r.result ≡ err_ok
          → take (n - data_header_size) (drop (chunk_offset payload) (staged r.history))
            ≡ chunk_bytes payload n)
        × (r.result ≢ err_ok → (r.state ≡ s) × (staged r.history ≡ staged h))
  write_data_acked v enough = by_form (write_data-WriteForm env s h payload n)
    where
      by_form :
          {r : OtaRun}
          → WriteForm env s h payload n r
          → (r.result ≡ err_ok
              → take (n - data_header_size) (drop (chunk_offset payload) (staged r.history))
                ≡ chunk_bytes payload n)
            × (r.result ≢ err_ok → (r.state ≡ s) × (staged r.history ≡ staged h))
      by_form (refused bad st hist) = (λ q. absurd (bad q), λ q. (st, ap staged hist))
      by_form (flash e failed bad st hist) = (
        λ q. absurd (bad q),
        λ q. (st, ap staged hist ∙ staged_failed s.handle (chunk_bytes payload n) e h failed),
      )
      by_form (repeated accepted elsewhere dup form) = (
        λ q.
            ap
              (λ (r : OtaRun).
                take (n - data_header_size) (drop (chunk_offset payload) (staged r.history)))
              form
            ∙ repeated_staged (v.open_session accepted.active) enough dup,
        λ q. absurd (q (ap (λ (r : OtaRun). r.result) form)),
      )
      by_form (written e ok accepted at fits form) = (
        λ q.
            ap
              (λ (r : OtaRun).
                take (n - data_header_size) (drop (chunk_offset payload) (staged r.history)))
              form
            ∙ ap (λ t. take (n - data_header_size) (drop (chunk_offset payload) t))
                (staged_ok s.handle (chunk_bytes payload n) e h ok)
            ∙ ap (take (n - data_header_size)) (
                drop_append (staged h) (chunk_bytes payload n) (chunk_offset payload)
                  ((v.open_session accepted.active).received ∙ sym at))
            ∙ take_all (chunk_bytes payload n) (n - data_header_size)
                (omega (arith, length-take (n - data_header_size) (drop data_header_size payload))),
        λ q. absurd (q (ap (λ (r : OtaRun). r.result) form)),
      )

  -- The second of two equal packets after a chunk that was written.
  second_written :
      (e : EspErr)
      → IsOpen s h
      → n ≤ length payload
      → IsAccepted env s h payload n
      → chunk_offset payload ≡ s.bytes_received
      → ltb s.firmware_size (u32 (s.bytes_received + (n - data_header_size))) ≡ false
      → let s' = extended s (n - data_header_size) (drop data_header_size payload) in
        let h' = ota_wrote s.handle (chunk_bytes payload n) e ∷ h in
        write_data env s' h' payload n ≡ ran s' h' err_ok
  unfolding write_data
  second_written e o enough accepted at fits =
      rw (accepted.active, accepted.long, accepted.small, elsewhere, again) refl
    where
      dl : ℕ
      dl = n - data_header_size

      small : dl ≤ max_chunk_size
      small = ground arith

      elsewhere : (chunk_offset payload != u32 (s.bytes_received + dl)) ≡ true
      elsewhere =
          moved (chunk_offset payload) s.bytes_received dl s.firmware_size at (ground arith)
            (ground arith) o.within o.no_wrap

      again :
          is_duplicate env
            (extended s dl (drop data_header_size payload))
            (chunk_offset payload)
            (drop data_header_size payload)
            dl
          ≡ true
      again =
          all_four ((==_iff _ _).1 at) ((==_iff _ _).1 refl)
            ((==_iff _ _).1 (ap (λ k. u32 (k + dl)) at))
            (take→same_bytes dl (drop data_header_size payload)
              (overwrite s.last_chunk_data 0 (chunk_bytes payload n))
              (omega (arith, length-drop data_header_size payload))
              (omega (
                arith,
                length-overwrite s.last_chunk_data 0 (chunk_bytes payload n),
                o.last_sized,
                small,
              ))
              (sym (
                take-overwrite s.last_chunk_data 0 (chunk_bytes payload n) dl
                  (omega (
                    arith,
                    length-take dl (drop data_header_size payload),
                    length-drop data_header_size payload,
                  ))
                  (omega (arith, o.last_sized, small)))))

  -- A retry is safe: the same packet again, after ERR_OK, is answered ERR_OK and changes nothing,
  -- neither the session nor the flash.
  pub write_data_twice :
      OtaInv s h
      → n ≤ length payload
      → let r = write_data env s h payload n in
        r.result ≡ err_ok
        → write_data env r.state r.history payload n ≡ ran r.state r.history err_ok
  write_data_twice v enough = by_form refl (write_data-WriteForm env s h payload n)
    where
      by_form :
          {r : OtaRun}
          → write_data env s h payload n ≡ r
          → WriteForm env s h payload n r
          → r.result ≡ err_ok
          → write_data env r.state r.history payload n ≡ ran r.state r.history err_ok
      by_form made (refused bad st hist) q = absurd (bad q)
      by_form made (flash e failed bad st hist) q = absurd (bad q)
      by_form made (repeated accepted elsewhere dup form) q =
          subst
            (λ (t : OtaRun).
              write_data env t.state t.history payload n ≡ ran t.state t.history err_ok)
            (sym form) (made ∙ form)
      by_form made (written e ok accepted at fits form) q =
          subst
            (λ (t : OtaRun).
              write_data env t.state t.history payload n ≡ ran t.state t.history err_ok)
            (sym form) (second_written e (v.open_session accepted.active) enough accepted at fits)
