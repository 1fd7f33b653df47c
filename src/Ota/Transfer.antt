-- ===== src/Ota/Transfer.antt =====
-- A whole update: OTA_BEGIN, the chunks in order, OTA_END, on a platform whose calls succeed.
use esp32_ota_link.Base.{
  ℕ, ◌+◌, ◌^◌, ◌≤◌, ◌<◌, ◌≡◌, refl, sym, ap, ap₂, subst, ◌∙◌, List, [], ◌∷◌, ◌++◌, append-nil,
  append_assoc, some, true, arith, length, length-append, take_all, All,
}
use esp32_ota_link.Idf.{
  Env, History, Partition, esp_ok, ota_began, ota_wrote, ota_ended, hashed, boot_set,
}
use esp32_ota_link.Protocol.Wire.{ProtocolError, err_ok}
use esp32_ota_link.Ota.{
  OtaState, OtaRun, ran, cleared, begin, write_data, finish, max_chunk_size, sha256_size,
}
use esp32_ota_link.Ota.Staged.{staged, boots}
use esp32_ota_link.Ota.Steps.{
  begin_payload, data_payload, IsChunk, Succeeds, begin_next, write_next, finish_next,
}
use esp32_ota_link.Ota.Invariant.{IsOpen, opened-OtaInv, extended, extended-IsOpen}

abbrev pub joined : List (List ℕ) → List ℕ
joined [] = []
joined (c ∷ cs) = c ++ joined cs

-- The three parts of an update, one after the other.
pub record IsDelivered (p : Partition) (image : List ℕ) (begun uploaded ended : OtaRun)
    : Type 0 where
  pub begin_ok : begun.result ≡ err_ok
  pub chunks_ok : uploaded.result ≡ err_ok
  pub end_ok : ended.result ≡ err_ok
  pub staged_image : staged uploaded.history ≡ image
  pub session_over : ended.state ≡ cleared
  pub booted : boots ended.history ≡ some p ∷ boots begun.history

abbrev go_on : ProtocolError → OtaRun → OtaRun → OtaRun
go_on err_ok rest r = rest
go_on _ rest r = r

module _ (env : Env) where
  -- The host's loop over the chunks: it stops at the first error.
  pub upload : OtaState → History → ℕ → ℕ → List (List ℕ) → OtaRun
  upload s h number offset [] = ran s h err_ok
  upload s h number offset (c ∷ cs) =
      let r = write_data env s h (data_payload number offset c) (8 + length c) in
      let rest = upload r.state r.history (number + 1) (offset + length c) cs in
      go_on r.result rest r

  -- What a complete upload leaves.
  pub record IsUploaded (s : OtaState) (h : History) (cs : List (List ℕ)) (r : OtaRun)
      : Type 0 where
    pub accepted : r.result ≡ err_ok
    pub still_active : r.state.active ≡ true
    pub session : IsOpen r.state r.history
    pub image : staged r.history ≡ staged h ++ joined cs
    pub size_same : r.state.firmware_size ≡ s.firmware_size
    pub digest_same : r.state.expected_sha256 ≡ s.expected_sha256
    pub partition_same : r.state.partition ≡ s.partition
    pub boots_same : boots r.history ≡ boots h

  upload-IsUploaded :
      (s : OtaState) (h : History) (number offset : ℕ) (cs : List (List ℕ))
      → ((h' : History) (k : ℕ) (x : List ℕ) → env.ota_write h' k x ≡ esp_ok)
      → s.active ≡ true
      → IsOpen s h
      → All IsChunk cs
      → offset ≡ s.bytes_received
      → offset + length (joined cs) ≤ s.firmware_size
      → IsUploaded s h cs (upload s h number offset cs)
  unfolding upload
  upload-IsUploaded s h number offset [] ok busy o chunks at fits = record {
    accepted = refl;
    still_active = busy;
    session = o;
    image = sym (append-nil (staged h));
    size_same = refl;
    digest_same = refl;
    partition_same = refl;
    boots_same = refl;
  }
  upload-IsUploaded s h number offset (c ∷ cs) ok busy o chunks at fits =
      let room : s.bytes_received + length c ≤ s.firmware_size =
        omega (arith, length-append c (joined cs)) in
      let s' = extended s (length c) c in
      let h' = ota_wrote s.handle c esp_ok ∷ h in
      let open' : IsOpen s' h' =
        subst (λ t. IsOpen s' (ota_wrote s.handle t esp_ok ∷ h))
          (take_all c (length c) (omega arith))
          (extended-IsOpen s h (length c) c esp_ok refl o (omega arith) chunks.0.1
            (ground (arith, o.no_wrap))) in
      let rest =
        upload-IsUploaded s' h' (number + 1) (offset + length c) cs ok busy open' chunks.1
          (omega (arith, o.no_wrap)) (omega (arith, length-append c (joined cs))) in
      subst
        (λ (r : OtaRun).
          IsUploaded s h (c ∷ cs)
            (go_on r.result (upload r.state r.history (number + 1) (offset + length c) cs) r))
        (sym (
          ap (λ t. write_data env s h t (8 + length c))
            (ap (λ k. data_payload number k c) at
              ∙ sym (append-nil (data_payload number s.bytes_received c)))
          ∙ write_next env s h number c [] ok busy o chunks.0 room))
        (record {
          accepted = rest.accepted;
          still_active = rest.still_active;
          session = rest.session;
          image = rest.image ∙ append_assoc (staged h) c (joined cs);
          size_same = rest.size_same;
          digest_same = rest.digest_same;
          partition_same = rest.partition_same;
          boots_same = rest.boots_same;
        })

  -- On an idle device whose platform succeeds, and computes the announced digest in the end, an
  -- image that fits the partition, cut into chunks of 1 to 1016 bytes, is taken: OTA_BEGIN, each
  -- chunk at its offset and OTA_END are all answered ERR_OK, the staged bytes are the image, and
  -- the offered partition is made bootable.
  pub transfer_delivers :
      (h : History) (p : Partition) (digest : List ℕ) (cs : List (List ℕ))
      → Succeeds env p digest
      → length digest ≡ sha256_size
      → All IsChunk cs
      → 0 < length (joined cs)
      → length (joined cs) ≤ p.size
      → p.size + max_chunk_size < 2 ^ 32
      → let begun = begin env cleared h (begin_payload (length (joined cs)) digest) 36 in
        let uploaded = upload begun.state begun.history 0 0 cs in
        IsDelivered p (joined cs) begun uploaded (finish env uploaded.state uploaded.history)
  unfolding cleared
  transfer_delivers h p digest cs k sized chunks pos fits small =
      subst
        (λ (begun : OtaRun).
          let uploaded = upload begun.state begun.history 0 0 cs in
          IsDelivered p (joined cs) begun uploaded (finish env uploaded.state uploaded.history))
        (sym (
          ap (λ t. begin env cleared h t 36)
            (sym (append-nil (begin_payload (length (joined cs)) digest)))
          ∙ begin_next env h p (length (joined cs)) digest [] k sized pos fits (omega arith)))
        (subst (λ r. IsDelivered p (joined cs) (ran s h' err_ok) up r) (sym ended)
          (record {
            begin_ok = refl;
            chunks_ok = done.accepted;
            end_ok = refl;
            staged_image = done.image;
            session_over = refl;
            booted = ap₂ (λ q bs. q ∷ bs) done.partition_same done.boots_same;
          }))
    where
      size : ℕ
      size = length (joined cs)

      handle : ℕ
      handle = (env.ota_begin h (some p) size).1

      s : OtaState
      s = record cleared {
        active = true;
        firmware_size = size;
        handle = handle;
        partition = some p;
        expected_sha256 = digest;
      }

      h' : History
      h' = ota_began (some p) size handle esp_ok ∷ h

      up : OtaRun
      up = upload s h' 0 0 cs

      done : IsUploaded s h' cs up
      done =
          upload-IsUploaded s h' 0 0 cs k.writes refl
            ((opened-OtaInv size handle p digest h esp_ok refl (omega arith) sized).open_session
              refl)
            chunks refl (omega arith)

      ended :
          finish env up.state up.history
          ≡ ran cleared
              (boot_set up.state.partition esp_ok
                ∷ hashed up.state.partition esp_ok digest
                ∷ ota_ended up.state.handle esp_ok
                ∷ up.history)
              err_ok
      ended =
          finish_next env up.state up.history p digest k done.still_active
            (sym done.session.received ∙ ap (length {A = ℕ}) done.image ∙ sym done.size_same)
            done.digest_same
