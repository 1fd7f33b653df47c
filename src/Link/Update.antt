-- ===== src/Link/Update.antt =====
-- The chunks of an update over the link: the bytes of the host's requests through the parser, the
-- dispatcher and the OTA manager to the flash, and the acknowledgements back.
use esp32_ota_link.Base.{
  ℕ, zero, suc, ◌+◌, ◌^◌, ◌≤◌, ◌<◌, ◌≡◌, refl, sym, ap, subst, ◌∙◌, List, [], ◌∷◌, ◌++◌, append-nil,
  append_assoc, true, false, arith, ltb, u32, All, IsBytes, IsBytes-append, length, length-append,
  take_all,
}
use esp32_ota_link.Idf.{Env, History, Writer, esp_ok, wrote, ota_wrote}
use esp32_ota_link.Idf.Traffic.{writes}
use esp32_ota_link.Protocol.Frame.{writer_in_use}
use esp32_ota_link.Ota.{OtaState, write_data, max_chunk_size}
use esp32_ota_link.Ota.Staged.{staged, boots}
use esp32_ota_link.Ota.Invariant.{IsOpen, extended, extended-IsOpen}
use esp32_ota_link.Ota.Steps.{data_payload, write_next}
use esp32_ota_link.Ota.Transfer.{joined}
use esp32_ota_link.Commands.Route.{data_request}
use esp32_ota_link.Link.{Link, task_loop}
use esp32_ota_link.Link.Channel.{Serves, Channel}
use esp32_ota_link.Link.Loop.{receive, receive-append}

-- A chunk of bytes that fits a request with this room.
abbrev pub IsByteChunk : ℕ → List ℕ → Type 0
IsByteChunk room c = (0 < length c) × (8 + length c ≤ room) × IsBytes c

data-IsBytes : (number offset : ℕ) (c : List ℕ) → IsBytes c → IsBytes (data_payload number offset c)
data-IsBytes number offset c bytes =
    IsBytes-append (data_payload number offset []) c (omega arith) bytes

not_beyond :
    (got n size : ℕ)
    → got + n ≤ size
    → size + max_chunk_size < 2 ^ 32
    → ltb size (u32 (got + n)) ≡ false
not_beyond got n size room small = ground arith

-- The session does not care about what was sent.
pub IsOpen-sent :
    (s : OtaState) (h h' : History) (w : Writer) (bytes : List ℕ) (s' : OtaState)
    → s' ≡ s
    → h' ≡ wrote w bytes ∷ h
    → IsOpen s h
    → IsOpen s' h'
IsOpen-sent s h h' w bytes s' same next o =
    subst (λ t. IsOpen t h') (sym same)
      (subst (IsOpen s) (sym next) (record {
        session = o.session;
        received = o.received;
        within = o.within;
        no_wrap = o.no_wrap;
        last_end = o.last_end;
        last_small = o.last_small;
        last_sized = o.last_sized;
        last_bytes = o.last_bytes;
        digest_sized = o.digest_sized;
      }))

module _ (env : Env) (ch : Channel env) where
  -- The requests with the chunks.
  unfoldable pub data_stream : ℕ → ℕ → ℕ → List (List ℕ) → List ℕ
  data_stream n number offset [] = []
  data_stream n number offset (c ∷ cs) =
      ch.request data_request n (data_payload number offset c)
      ++ data_stream (n + 1) (number + 1) (offset + length c) cs

  -- The acknowledgements of `k` chunks from the number `n` on, the newest first, and what was sent
  -- before.
  unfoldable pub data_acks : ℕ → ℕ → List (List ℕ) → List (List ℕ)
  data_acks n zero ws = ws
  data_acks n (suc k) ws = data_acks (n + 1) k (ch.reply data_request n ∷ ws)

  -- The chunks are in the flash.
  pub record IsUploaded (l : Link) (n : ℕ) (cs : List (List ℕ)) (r : Link) : Type 0 where
    pub listens : ch.Listens (n + length cs) r
    pub still_active : r.app.ota.active ≡ true
    pub session : IsOpen r.app.ota r.app.history
    pub image : staged r.app.history ≡ staged l.app.history ++ joined cs
    pub size_same : r.app.ota.firmware_size ≡ l.app.ota.firmware_size
    pub digest_same : r.app.ota.expected_sha256 ≡ l.app.ota.expected_sha256
    pub partition_same : r.app.ota.partition ≡ l.app.ota.partition
    pub boots_same : boots r.app.history ≡ boots l.app.history
    pub answered : writes r.app.history ≡ data_acks n (length cs) (writes l.app.history)

  -- One chunk and then the others.
  joined_up :
      (l l1 r : Link) (n : ℕ) (c : List ℕ) (cs : List (List ℕ))
      → Serves
          (ch.Listens (n + 1))
          l
          (ch.reply data_request n)
          (extended l.app.ota (length c) c)
          (ota_wrote l.app.ota.handle c esp_ok ∷ l.app.history)
          l1
      → IsUploaded l1 (n + 1) cs r
      → IsUploaded l n (c ∷ cs) r
  unfolding data_acks
  joined_up l l1 r n c cs v rest = record {
    listens =
        let e : n + 1 + length cs ≡ n + length (c ∷ cs) = omega arith in
        subst (λ k. ch.Listens k r) e rest.listens;
    still_active = rest.still_active;
    session = rest.session;
    image =
        rest.image
        ∙ ap (λ h. staged h ++ joined cs) v.history_is
        ∙ append_assoc (staged l.app.history) c (joined cs);
    size_same = rest.size_same ∙ ap (λ (o : OtaState). o.firmware_size) v.ota_is;
    digest_same = rest.digest_same ∙ ap (λ (o : OtaState). o.expected_sha256) v.ota_is;
    partition_same = rest.partition_same ∙ ap (λ (o : OtaState). o.partition) v.ota_is;
    boots_same = rest.boots_same ∙ ap boots v.history_is;
    answered = rest.answered ∙ ap (λ h. data_acks (n + 1) (length cs) (writes h)) v.history_is;
  }

  -- The request with the next chunk.
  chunk-Serves :
      (l : Link) (n number : ℕ) (c : List ℕ)
      → ((h' : History) (k : ℕ) (x : List ℕ) → env.ota_write h' k x ≡ esp_ok)
      → ch.Listens n l
      → ch.InRange n
      → l.app.ota.active ≡ true
      → IsOpen l.app.ota l.app.history
      → IsByteChunk ch.room c
      → l.app.ota.bytes_received + length c ≤ l.app.ota.firmware_size
      → Serves
          (ch.Listens (n + 1))
          l
          (ch.reply data_request n)
          (extended l.app.ota (length c) c)
          (ota_wrote l.app.ota.handle c esp_ok ∷ l.app.history)
          (receive env l
            (ch.request data_request n (data_payload number l.app.ota.bytes_received c)))
  chunk-Serves l n number c ok k range busy o chunk fits =
      let payload = data_payload number l.app.ota.bytes_received c in
      ch.serves data_request l n payload (extended l.app.ota (length c) c)
        (ota_wrote l.app.ota.handle c esp_ok ∷ l.app.history) k range
        (data-IsBytes number l.app.ota.bytes_received c chunk.2) (omega (arith, chunk.1)) tt
        (λ rest.
          let long : length payload ≡ 8 + length c = omega arith in
          ap (write_data env l.app.ota l.app.history (payload ++ rest)) long
          ∙ write_next env l.app.ota l.app.history number c rest ok busy o
              (chunk.0, omega (arith, chunk.1, ch.small)) fits)

  pub upload-IsUploaded :
      (l : Link) (n number offset : ℕ) (cs : List (List ℕ))
      → ((h' : History) (k : ℕ) (x : List ℕ) → env.ota_write h' k x ≡ esp_ok)
      → ch.Listens n l
      → ((i : ℕ) → i < length cs → ch.InRange (n + i))
      → l.app.ota.active ≡ true
      → IsOpen l.app.ota l.app.history
      → All (IsByteChunk ch.room) cs
      → offset ≡ l.app.ota.bytes_received
      → offset + length (joined cs) ≤ l.app.ota.firmware_size
      → IsUploaded l n cs (receive env l (data_stream n number offset cs))
  unfolding data_stream data_acks receive task_loop
  upload-IsUploaded l n number offset [] ok k range busy o chunks at fits = record {
    listens = let e : n ≡ n + 0 = omega arith in subst (λ j. ch.Listens j l) e k;
    still_active = busy;
    session = o;
    image = sym (append-nil (staged l.app.history));
    size_same = refl;
    digest_same = refl;
    partition_same = refl;
    boots_same = refl;
    answered = refl;
  }
  upload-IsUploaded l n number offset (c ∷ cs) ok k range busy o chunks at fits =
      subst (IsUploaded l n (c ∷ cs)) (sym (receive-append env l first rest)) (
        joined_up l l1 (receive env l1 rest) n c cs served (
          upload-IsUploaded l1 (n + 1) (number + 1) (offset + length c) cs ok served.listens later
            (ap (λ (t : OtaState). t.active) served.ota_is ∙ busy)
            (IsOpen-sent s' h' l1.app.history (writer_in_use l.app.sender) (ch.reply data_request n)
              l1.app.ota served.ota_is served.history_is open')
            chunks.1
            (omega (arith, o.no_wrap, ap (λ (t : OtaState). t.bytes_received) served.ota_is))
            (omega (
              arith,
              length-append c (joined cs),
              ap (λ (t : OtaState). t.firmware_size) served.ota_is,
            ))))
    where
      room : l.app.ota.bytes_received + length c ≤ l.app.ota.firmware_size
      room = omega (arith, length-append c (joined cs))

      here : ch.InRange n
      here = let e : n + 0 ≡ n = omega arith in subst ch.InRange e (range 0 (omega arith))

      later : (i : ℕ) → i < length cs → ch.InRange (n + 1 + i)
      later i h =
          let e : n + suc i ≡ n + 1 + i = omega arith in
          subst ch.InRange e (range (suc i) (omega arith))

      first : List ℕ
      first = ch.request data_request n (data_payload number offset c)

      rest : List ℕ
      rest = data_stream (n + 1) (number + 1) (offset + length c) cs

      l1 : Link
      l1 = receive env l first

      s' : OtaState
      s' = extended l.app.ota (length c) c

      h' : History
      h' = ota_wrote l.app.ota.handle c esp_ok ∷ l.app.history

      open' : IsOpen s' h'
      open' =
          subst (λ t. IsOpen s' (ota_wrote l.app.ota.handle t esp_ok ∷ l.app.history))
            (take_all c (length c) (omega arith))
            (extended-IsOpen l.app.ota l.app.history (length c) c esp_ok refl o (omega arith)
              (omega (arith, chunks.0.1, ch.small))
              (not_beyond l.app.ota.bytes_received (length c) l.app.ota.firmware_size room
                o.no_wrap))

      served : Serves (ch.Listens (n + 1)) l (ch.reply data_request n) s' h' l1
      served =
          subst
            (λ j.
              Serves (ch.Listens (n + 1)) l (ch.reply data_request n) s' h'
                (receive env l (ch.request data_request n (data_payload number j c))))
            (sym at) (chunk-Serves l n number c ok k here busy o chunks.0 room)
