-- ===== src/Link/Delivery.antt =====
-- The update over the link from its first byte to its last acknowledgement.
use esp32_ota_link.Base.{
  ℕ, suc, ◌+◌, ◌^◌, ◌≤◌, ◌<◌, ◌≡◌, refl, sym, ap, ap₂, subst, ◌∙◌, List, [], ◌∷◌, ◌++◌, some, true,
  arith, All, IsBytes, IsBytes-append, length,
}
use esp32_ota_link.Idf.{Env, History, Partition, esp_ok, ota_began, ota_ended, hashed, boot_set}
use esp32_ota_link.Idf.Traffic.{writes}
use esp32_ota_link.Protocol.Fields.{le32, IsBytes-le32}
use esp32_ota_link.Protocol.Frame.{writer_in_use}
use esp32_ota_link.Ota.{OtaState, cleared, begin, max_chunk_size, sha256_size}
use esp32_ota_link.Ota.Staged.{staged, boots}
use esp32_ota_link.Ota.Invariant.{opened-OtaInv}
use esp32_ota_link.Ota.Steps.{begin_payload, Succeeds, begin_next, finish_next}
use esp32_ota_link.Ota.Transfer.{joined}
use esp32_ota_link.Commands.Route.{begin_request, end_request}
use esp32_ota_link.Link.{Link}
use esp32_ota_link.Link.Channel.{Serves, Channel}
use esp32_ota_link.Link.Loop.{receive, receive-append}
use esp32_ota_link.Link.Update.{
  data_stream, data_acks, IsByteChunk, IsUploaded, upload-IsUploaded, IsOpen-sent,
}

-- What an update asks for: an image of some bytes in chunks that fit the requests and the
-- partition, the size of its digest, and numbers for its requests.
pub record IsOffer (env : Env) (ch : Channel env) (p : Partition) (digest : List ℕ) (n : ℕ)
    (cs : List (List ℕ)) : Type 0 where
  pub platform : Succeeds env p digest
  pub digest_sized : length digest ≡ sha256_size
  pub digest_bytes : IsBytes digest
  pub chunks : All (IsByteChunk ch.room) cs
  pub not_empty : 0 < length (joined cs)
  pub fits : length (joined cs) ≤ p.size
  pub small : p.size + max_chunk_size < 2 ^ 32
  pub numbers : (i : ℕ) → i < length cs + 2 → ch.InRange (n + i)

module _ (env : Env) (ch : Channel env) where
  -- All bytes of an update.
  unfoldable pub update_stream : ℕ → List ℕ → List (List ℕ) → List ℕ
  update_stream n digest cs =
      ch.request begin_request n (begin_payload (length (joined cs)) digest)
      ++ (data_stream env ch (n + 1) 0 0 cs ++ ch.request end_request (n + 1 + length cs) [])

  -- All acknowledgements of an update of `k` chunks, the newest first, and what was sent before.
  unfoldable pub update_acks : ℕ → ℕ → List (List ℕ) → List (List ℕ)
  update_acks n k ws =
      ch.reply end_request (n + 1 + k) ∷ data_acks env ch (n + 1) k (ch.reply begin_request n ∷ ws)

  -- The update has gone through: see the theorem.
  pub record IsUpdated (l : Link) (p : Partition) (cs : List (List ℕ)) (n : ℕ) (r : Link)
      : Type 0 where
    pub listens : ch.Listens (n + length cs + 2) r
    pub session_over : r.app.ota ≡ cleared
    pub image_staged : staged r.app.history ≡ joined cs
    pub booted : boots r.app.history ≡ some p ∷ boots l.app.history
    pub answered : writes r.app.history ≡ update_acks n (length cs) (writes l.app.history)

module _ (env : Env) (ch : Channel env) (p : Partition) (digest : List ℕ) (n : ℕ)
    (cs : List (List ℕ)) (k : IsOffer env ch p digest n cs) where
  -- The session that OTA_BEGIN opens.
  abbrev opened_state : History → OtaState
  unfolding cleared
  opened_state h = record cleared {
    active = true;
    firmware_size = length (joined cs);
    handle = (env.ota_begin h (some p) (length (joined cs))).1;
    partition = some p;
    expected_sha256 = digest;
  }

  abbrev opened_history : History → History
  opened_history h =
      ota_began (some p) (length (joined cs)) (env.ota_begin h (some p) (length (joined cs))).1
        esp_ok
      ∷ h

  begun :
      (l : Link)
      → ch.Listens n l
      → l.app.ota ≡ cleared
      → Serves
          (ch.Listens (n + 1))
          l
          (ch.reply begin_request n)
          (opened_state l.app.history)
          (opened_history l.app.history)
          (receive env l (ch.request begin_request n (begin_payload (length (joined cs)) digest)))
  unfolding opened_state
  begun l listening idle =
      let size = length (joined cs) in
      let payload = begin_payload size digest in
      let long : length payload ≡ 36 = omega (arith, k.digest_sized) in
      ch.serves begin_request l n payload _ _ listening first
        (IsBytes-append (le32 size) digest (IsBytes-le32 size) k.digest_bytes)
        (omega (arith, ch.enough, long)) tt
        (λ rest.
          ap₂ (λ s m. begin env s l.app.history (payload ++ rest) m) idle long
          ∙ begin_next env l.app.history p size digest rest k.platform k.digest_sized k.not_empty
              k.fits (omega (arith, k.fits, k.small)))
    where
      first : ch.InRange n
      first = let e : n + 0 ≡ n = omega arith in subst ch.InRange e (k.numbers 0 (omega arith))

  -- OTA_END after the last chunk.
  ended :
      (l : Link) (j : ℕ)
      → ch.Listens j l
      → ch.InRange j
      → l.app.ota.active ≡ true
      → l.app.ota.bytes_received ≡ l.app.ota.firmware_size
      → l.app.ota.expected_sha256 ≡ digest
      → Serves
          (ch.Listens (j + 1))
          l
          (ch.reply end_request j)
          cleared
          (boot_set l.app.ota.partition esp_ok
            ∷ hashed l.app.ota.partition esp_ok digest
            ∷ ota_ended l.app.ota.handle esp_ok
            ∷ l.app.history)
          (receive env l (ch.request end_request j []))
  ended l j listening range busy complete expected =
      let finished =
        finish_next env l.app.ota l.app.history p digest k.platform busy complete expected in
      ch.serves end_request l j [] _ _ listening range tt (omega (arith, ch.enough)) refl
        (λ rest. finished)

  -- The three parts of an update, one after the other.
  IsUpdated-parts :
      (l l1 l2 r : Link)
      → Serves
          (ch.Listens (n + 1))
          l
          (ch.reply begin_request n)
          (opened_state l.app.history)
          (opened_history l.app.history)
          l1
      → IsUploaded env ch l1 (n + 1) cs l2
      → Serves
          (ch.Listens (n + 1 + length cs + 1))
          l2
          (ch.reply end_request (n + 1 + length cs))
          cleared
          (boot_set l2.app.ota.partition esp_ok
            ∷ hashed l2.app.ota.partition esp_ok digest
            ∷ ota_ended l2.app.ota.handle esp_ok
            ∷ l2.app.history)
          r
      → IsUpdated env ch l p cs n r
  unfolding opened_state update_acks
  IsUpdated-parts l l1 l2 r first up last = record {
    listens =
        let e : n + 1 + length cs + 1 ≡ n + length cs + 2 = omega arith in
        subst (λ j. ch.Listens j r) e last.listens;
    session_over = last.ota_is;
    image_staged =
        ap staged last.history_is ∙ up.image ∙ ap (λ h. staged h ++ joined cs) first.history_is;
    booted =
        ap boots last.history_is
        ∙ ap₂ (λ q bs. q ∷ bs) (up.partition_same ∙ ap (λ (o : OtaState). o.partition) first.ota_is)
            (up.boots_same ∙ ap boots first.history_is);
    answered =
        ap writes last.history_is
        ∙ ap (λ ws. ch.reply end_request (n + 1 + length cs) ∷ ws)
            (up.answered
              ∙ ap (λ h. data_acks env ch (n + 1) (length cs) (writes h)) first.history_is);
  }

  -- A device that listens and has no session open receives the requests of an update that its
  -- platform and its partition can take: OTA_BEGIN, the chunks in order, OTA_END, with numbers that
  -- count up. Then the image is staged, the offered partition is made bootable, just once, the
  -- session is over, every request is acknowledged, in order, nothing else is sent, and the device
  -- listens again.
  pub receive_update :
      (l : Link)
      → ch.Listens n l
      → l.app.ota ≡ cleared
      → IsUpdated env ch l p cs n (receive env l (update_stream env ch n digest cs))
  unfolding update_stream opened_state
  receive_update l listening idle =
      subst (IsUpdated env ch l p cs n)
        (sym
          (receive-append env l start (chunks_sent ++ end) ∙ receive-append env l1 chunks_sent end))
        (IsUpdated-parts l l1 l2 (receive env l2 end) first up (
          ended l2 (n + 1 + length cs) up.listens last_number up.still_active
            (sym up.session.received
              ∙ ap (length {A = ℕ}) (up.image ∙ ap (λ h. staged h ++ joined cs) first.history_is)
              ∙ sym (up.size_same ∙ ap (λ (o : OtaState). o.firmware_size) first.ota_is))
            (up.digest_same ∙ ap (λ (o : OtaState). o.expected_sha256) first.ota_is)))
    where
      start : List ℕ
      start = ch.request begin_request n (begin_payload (length (joined cs)) digest)

      chunks_sent : List ℕ
      chunks_sent = data_stream env ch (n + 1) 0 0 cs

      end : List ℕ
      end = ch.request end_request (n + 1 + length cs) []

      l1 : Link
      l1 = receive env l start

      l2 : Link
      l2 = receive env l1 chunks_sent

      last_number : ch.InRange (n + 1 + length cs)
      last_number =
          let e : n + suc (length cs) ≡ n + 1 + length cs = omega arith in
          subst ch.InRange e (k.numbers (suc (length cs)) (omega arith))

      first :
          Serves
            (ch.Listens (n + 1))
            l
            (ch.reply begin_request n)
            (opened_state l.app.history)
            (opened_history l.app.history)
            l1
      first = begun l listening idle

      up : IsUploaded env ch l1 (n + 1) cs l2
      up =
          upload-IsUploaded env ch l1 (n + 1) 0 0 cs k.platform.writes first.listens
            (λ i h.
              let e : n + suc i ≡ n + 1 + i = omega arith in
              subst ch.InRange e (k.numbers (suc i) (omega arith)))
            (ap (λ (o : OtaState). o.active) first.ota_is)
            (IsOpen-sent (opened_state l.app.history) (opened_history l.app.history) l1.app.history
              (writer_in_use l.app.sender) (ch.reply begin_request n) l1.app.ota first.ota_is
              first.history_is
              ((opened-OtaInv (length (joined cs))
                  (env.ota_begin l.app.history (some p) (length (joined cs))).1 p digest
                  l.app.history esp_ok refl (omega (arith, k.fits, k.small))
                  k.digest_sized).open_session
                refl))
            k.chunks (ap (λ (o : OtaState). o.bytes_received) (sym first.ota_is))
            (omega (arith, ap (λ (o : OtaState). o.firmware_size) first.ota_is))
