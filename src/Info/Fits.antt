-- ===== src/Info/Fits.antt =====
-- When `device_info_build_payload` of device_info.c has an answer: the size of the payload, of its
-- texts and of its list of slots.
use esp32_ota_link.Base.{
  ℕ, ◌+◌, ◌≤◌, ◌≡◌, ap, subst, ◌∙◌, List, [], ◌∷◌, ◌++◌, Option, none, some, not, ◌||◌, arith, ltb,
  ◌==◌, if_cases, length, length-append, set, All,
}
use esp32_ota_link.Idf.{Env, History, Partition}
use esp32_ota_link.Info.Names.{ota_state_name}
use esp32_ota_link.Info.Version.{◌>>=◌}
use esp32_ota_link.Info.Build.{
  Out, put_byte, put_str8, put_all, partition_is_ota_slot, put_slots, put_slot_list, put_fixed,
  info_texts, build_payload, label_or, slot_state,
}
use esp32_ota_link.Info.Bounds.{IfSome}
use esp32_ota_link.Info.Layout.{str8, texts, texts-append, Holds}
use esp32_ota_link.Info.Contents.{build_payload-Holds}
use esp32_ota_link.Info.Reference.{
  ota_slots, ota_slots_taken, ota_slots_skipped, slot_names, fixed_bytes, info_bytes,
}

-- There is a result, and it is so.
abbrev pub Gives {ℓ} : {A : Type ℓ} → (A → Type 0) → Option A → Type 0
Gives P none = ⊥
Gives P (some a) = P a

Gives-bind {ℓ κ} :
    {A : Type ℓ} {B : Type κ} (P : A → Type 0) (Q : B → Type 0) (o : Option A) (f : A → Option B)
    → Gives P o
    → ((a : A) → P a → Gives Q (f a))
    → Gives Q (o >>= f)
Gives-bind P Q none f h k = absurd h
Gives-bind P Q (some a) f h k = k a h

Gives-IfSome {ℓ} :
    {A : Type ℓ} (P : A → Type 0) (Q : A → Type 0) (o : Option A)
    → Gives P o
    → IfSome Q o
    → Gives Q o
Gives-IfSome P Q none h k = absurd h
Gives-IfSome P Q (some a) h k = k

abbrev pub IsShort : List ℕ → Type 0
IsShort t = length t ≤ 255

-- The output ends there.
abbrev Ends : ℕ → Out → Type 0
Ends n o = o.offset ≡ n

put_str8-Gives :
    (capacity : ℕ) (o : Out) (t : List ℕ)
    → IsShort t
    → o.offset + length (str8 t) ≤ capacity
    → Gives (Ends (o.offset + length (str8 t))) (put_str8 capacity o t)
unfolding put_str8 put_byte
put_str8-Gives capacity o t short fits =
    if_cases (Gives (Ends (o.offset + length (str8 t))))
      (ltb 255 (length t) || ltb capacity (o.offset + 1 + length t)) (λ long. absurd (ground arith))
      (λ ok. omega arith)

put_all-Gives :
    (capacity : ℕ) (o : Out) (ts : List (List ℕ))
    → All IsShort ts
    → o.offset + length (texts ts) ≤ capacity
    → Gives (Ends (o.offset + length (texts ts))) (put_all capacity o ts)
unfolding put_all
put_all-Gives capacity o [] short fits = omega arith
put_all-Gives capacity o (t ∷ ts) short fits =
    Gives-bind (Ends (o.offset + length (str8 t))) (Ends (o.offset + length (texts (t ∷ ts))))
      (put_str8 capacity o t) (λ q. put_all capacity q ts)
      (put_str8-Gives capacity o t short.0 (omega (arith, fits, length-append (str8 t) (texts ts))))
      (λ q at.
        subst (λ (n : ℕ). Gives (Ends n) (put_all capacity q ts))
          (omega (arith, at, length-append (str8 t) (texts ts)))
          (put_all-Gives capacity q ts short.1
            (omega (arith, at, fits, length-append (str8 t) (texts ts)))))

module _ (env : Env) (h : History) where
  -- There is room for these slots, behind `n` of them and from this offset on.
  pub record HasRoom (capacity offset n : ℕ) (slots : List (Option Partition)) : Type 0 where
    pub short : All IsShort (slot_names env h slots)
    pub few : n + length slots ≤ 255
    pub fits : offset + length (texts (slot_names env h slots)) ≤ capacity

  abbrev names : Option Partition → List (List ℕ)
  names s = label_or s [] ∷ ota_state_name (slot_state env h s) ∷ []

  abbrev Done : Out × ℕ → Type 0
  Done r = Unit

  put_slots-Gives :
      (capacity : ℕ) (o : Out) (n : ℕ) (slots : List (Option Partition))
      → HasRoom capacity o.offset n (ota_slots env slots)
      → Gives Done (put_slots env h capacity o n slots)
  unfolding put_slots ota_slots slot_names
  put_slots-Gives capacity o n [] room = tt
  put_slots-Gives capacity o n (s ∷ ss) room =
      if_cases (Gives Done) (not (partition_is_ota_slot env s))
        (λ other.
          put_slots-Gives capacity o n ss
            (subst (HasRoom capacity o.offset n) (ota_slots_skipped env s ss other) room))
        (λ ota.
          let room' = subst (HasRoom capacity o.offset n) (ota_slots_taken env s ss ota) room in
          if_cases (Gives Done) (n == 255) (λ full. absurd (ground (arith, room'.few)))
            (λ more.
              let rest = slot_names env h (ota_slots env ss) in
              let parted : length (texts (names s ++ rest))
                  ≡ length (texts (names s)) + length (texts rest) =
                ap length (texts-append (names s) rest)
                ∙ length-append (texts (names s)) (texts rest) in
              Gives-bind (Ends (o.offset + length (texts (names s)))) Done
                (put_all capacity o (names s)) (λ q. put_slots env h capacity q (n + 1) ss)
                (put_all-Gives capacity o (names s) (room'.short.0, (room'.short.1.0, tt))
                  (omega (arith, room'.fits, parted)))
                (λ q at. put_slots-Gives capacity q (n + 1) ss (record {
                  short = room'.short.1.1;
                  few = omega (arith, room'.few);
                  fits = omega (arith, room'.fits, parted, at);
                }))))

  put_slot_list-Gives :
      (capacity : ℕ) (o : Out)
      → HasRoom capacity (o.offset + 1) 0 (ota_slots env (env.app_partitions h))
      → Gives (λ (r : Out). Unit) (put_slot_list env h capacity o)
  unfolding put_slot_list
  put_slot_list-Gives capacity o room =
      if_cases (Gives (λ (r : Out). Unit)) (ltb capacity (o.offset + 1))
        (λ full. absurd (ground (arith, room.fits)))
        (λ more.
          Gives-bind Done (λ (r : Out). Unit)
            (put_slots env h capacity (record o { offset = o.offset + 1 }) 0 (env.app_partitions h))
            (λ r. some (record r.0 { buffer = set r.0.buffer o.offset r.1 }))
            (put_slots-Gives capacity (record o { offset = o.offset + 1 }) 0 (env.app_partitions h)
              room)
            (λ r done. tt))

-- The payload can be sent: its texts and its slots can be counted by one byte.
pub record IsReportable (env : Env) (h : History) : Type 0 where
  pub short : All IsShort (info_texts env h)
  pub slots_short : All IsShort (slot_names env h (ota_slots env (env.app_partitions h)))
  pub slots_few : length (ota_slots env (env.app_partitions h)) ≤ 255

length-info_bytes :
    (env : Env) (h : History) (boot_count : ℕ)
    → length (info_bytes env h boot_count)
      ≡ 18
        + length (texts (info_texts env h))
        + length (texts (slot_names env h (ota_slots env (env.app_partitions h))))
unfolding info_bytes fixed_bytes
length-info_bytes env h boot_count =
    let slots = ota_slots env (env.app_partitions h) in
    let rest = length slots ∷ texts (slot_names env h slots) in
    omega (
      arith,
      length-append (fixed_bytes env h boot_count ++ texts (info_texts env h)) rest,
      length-append (fixed_bytes env h boot_count) (texts (info_texts env h)),
    )

module _ (env : Env) (h : History) where
  -- On a payload that fits and whose texts and slots one byte can count,
  -- `device_info_build_payload` answers, and the buffer then holds that payload: the version byte,
  -- the firmware's version, the uptime, the free heap, the boot counter, the rollback flag, the
  -- seven texts, the count of the OTA slots among the application partitions, and their labels and
  -- states. Whatever the buffer held before, and whatever else the iterator gives.
  pub build_payload-Gives :
      (boot_count : ℕ) (buffer : List ℕ) (capacity : ℕ)
      → capacity ≤ length buffer
      → IsReportable env h
      → length (info_bytes env h boot_count) ≤ capacity
      → Gives
          (Holds (length buffer) (info_bytes env h boot_count))
          (build_payload env h boot_count buffer capacity)
  unfolding build_payload
  build_payload-Gives boot_count buffer capacity large k fits =
      let total = length-info_bytes env h boot_count in
      let fixed = put_fixed env h boot_count (record { buffer = buffer; offset = 0 }) in
      Gives-IfSome (λ (r : Out). Unit) (Holds (length buffer) (info_bytes env h boot_count))
        (build_payload env h boot_count buffer capacity)
        (if_cases (Gives (λ (r : Out). Unit)) (ltb capacity 17)
          (λ tiny. absurd (ground (arith, total, fits)))
          (λ room.
            Gives-bind (Ends (17 + length (texts (info_texts env h)))) (λ (r : Out). Unit)
              (put_all capacity fixed (info_texts env h)) (put_slot_list env h capacity)
              (put_all-Gives capacity fixed (info_texts env h) k.short (omega (arith, total, fits)))
              (λ q at. put_slot_list-Gives env h capacity q (record {
                short = k.slots_short;
                few = omega (arith, k.slots_few);
                fits = omega (arith, at, total, fits);
              }))))
        (build_payload-Holds env h boot_count buffer capacity large)
