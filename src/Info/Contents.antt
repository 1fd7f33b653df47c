-- ===== src/Info/Contents.antt =====
-- `device_info_build_payload` of device_info.c and the layout of `Reference`.
use esp32_ota_link.Base.{
  ℕ, suc, ◌+◌, ◌/◌, ◌≤◌, ◌<◌, ◌≡◌, refl, sym, ap, subst, ◌∙◌, List, [], ◌∷◌, ◌++◌, append-nil,
  append_assoc, get_or, zero, Option, none, some, not, arith, ltb, ◌==◌, if◌then◌else◌, if_cases,
  length, length-append, take, set, length-set, set-append, u32,
}
use esp32_ota_link.Idf.{Env, History, Partition}
use esp32_ota_link.Protocol.Wire.{version_1}
use esp32_ota_link.Info.Names.{ota_state_name}
use esp32_ota_link.Info.Version.{◌>>=◌}
use esp32_ota_link.Info.Build.{
  Out, put_all, partition_is_ota_slot, put_slots, put_slot_list, put_fixed, info_texts,
  build_payload, label_or, slot_state, described_version,
}
use esp32_ota_link.Info.Bounds.{IfSome, IfSome-bind}
use esp32_ota_link.Info.Layout.{
  texts, texts-append, Holds, put_byte-Holds, put_u32_le-Holds, put_all-Holds,
}
use esp32_ota_link.Info.Reference.{
  ota_slots, ota_slots_taken, ota_slots_skipped, slot_names, fixed_bytes, info_bytes,
}

-- The byte at an index, whatever it is, and a byte that is written over.
take-suc :
    (xs : List ℕ) (n : ℕ) → n < length xs → take (suc n) xs ≡ take n xs ++ (get_or xs n 0 ∷ [])
take-suc [] n h = absurd (omega arith)
take-suc (x ∷ xs) zero h = refl
take-suc (x ∷ xs) (suc n) h = ap (◌∷◌ x) (take-suc xs n (omega arith))

take-set : (xs : List ℕ) (n k v : ℕ) → take n (set xs k v) ≡ set (take n xs) k v
take-set xs zero k v = refl
take-set [] (suc n) k v = refl
take-set (x ∷ xs) (suc n) zero v = refl
take-set (x ∷ xs) (suc n) (suc k) v = ap (◌∷◌ x) (take-set xs n k v)

module _ (env : Env) where
  module _ (size : ℕ) (h : History) where
    -- What `put_slots` has written, from the count so far.
    abbrev Slots : List ℕ → ℕ → List (Option Partition) → Out × ℕ → Type 0
    Slots bytes n slots r =
        Holds size (bytes ++ texts (slot_names env h slots)) r.0 × (r.1 ≡ n + length slots)

    abbrev names : Option Partition → List (List ℕ)
    names s = label_or s [] ∷ ota_state_name (slot_state env h s) ∷ []

    further :
        (bytes : List ℕ) (n : ℕ) (s : Option Partition) (slots : List (Option Partition))
        (r : Option (Out × ℕ))
        → IfSome (Slots (bytes ++ texts (names s)) (n + 1) slots) r
        → IfSome (Slots bytes n (s ∷ slots)) r
    unfolding slot_names
    further bytes n s slots none w = tt
    further bytes n s slots (some r) w = (
      subst (λ (bs : List ℕ). Holds size bs r.0)
          (append_assoc bytes (texts (names s)) (texts (slot_names env h slots))
            ∙ ap (λ (bs : List ℕ). bytes ++ bs)
                (sym (texts-append (names s) (slot_names env h slots))))
          w.0,
      omega (arith, w.1),
    )

    put_slots-Holds :
        (capacity : ℕ) (bytes : List ℕ) (o : Out) (n : ℕ) (slots : List (Option Partition))
        → capacity ≤ size
        → Holds size bytes o
        → IfSome (Slots bytes n (ota_slots env slots)) (put_slots env h capacity o n slots)
    unfolding put_slots ota_slots slot_names
    put_slots-Holds capacity bytes o n [] large k =
        (subst (λ (bs : List ℕ). Holds size bs o) (sym (append-nil bytes)) k, omega arith)
    put_slots-Holds capacity bytes o n (s ∷ ss) large k =
        if_cases (IfSome (Slots bytes n (ota_slots env (s ∷ ss))))
          (not (partition_is_ota_slot env s))
          (λ other.
            subst
              (λ (t : List (Option Partition)).
                IfSome (Slots bytes n t) (put_slots env h capacity o n ss))
              (sym (ota_slots_skipped env s ss other))
              (put_slots-Holds capacity bytes o n ss large k))
          (λ ota.
            if_cases (IfSome (Slots bytes n (ota_slots env (s ∷ ss)))) (n == 255) (λ full. tt)
              (λ more.
                subst
                  (λ (t : List (Option Partition)).
                    IfSome (Slots bytes n t)
                      (put_all capacity o (names s) >>= λ q. put_slots env h capacity q (n + 1) ss))
                  (sym (ota_slots_taken env s ss ota))
                  (IfSome-bind (Holds size (bytes ++ texts (names s)))
                    (Slots bytes n (s ∷ ota_slots env ss)) (put_all capacity o (names s))
                    (λ q. put_slots env h capacity q (n + 1) ss)
                    (put_all-Holds size capacity bytes o (names s) large k)
                    (λ q holds.
                      further bytes n s (ota_slots env ss) (put_slots env h capacity q (n + 1) ss) (
                        put_slots-Holds capacity (bytes ++ texts (names s)) q (n + 1) ss large
                          holds)))))

    skipped-Holds :
        (bytes : List ℕ) (o : Out)
        → o.offset < size
        → Holds size bytes o
        → Holds size
            (bytes ++ (get_or o.buffer o.offset 0 ∷ []))
            (record o { offset = o.offset + 1 })
    skipped-Holds bytes o low k = record {
      there =
          ap (λ (n : ℕ). take n o.buffer) {y = suc o.offset} (omega arith)
          ∙ take-suc o.buffer o.offset (omega (arith, low, k.kept))
          ∙ ap (λ (bs : List ℕ). bs ++ (get_or o.buffer o.offset 0 ∷ [])) k.there;
      ends = omega (arith, length-append bytes (get_or o.buffer o.offset 0 ∷ []), k.ends);
      room = omega (arith, low);
      kept = k.kept;
    }

    -- A byte within what is written, written again.
    patched-Holds :
        (bytes rest : List ℕ) (o : Out) (old v : ℕ)
        → Holds size ((bytes ++ (old ∷ [])) ++ rest) o
        → Holds size (bytes ++ (v ∷ rest)) (record o { buffer = set o.buffer (length bytes) v })
    patched-Holds bytes rest o old v k = record {
      there =
          take-set o.buffer o.offset (length bytes) v
          ∙ ap (λ (bs : List ℕ). set bs (length bytes) v)
              (k.there ∙ append_assoc bytes (old ∷ []) rest)
          ∙ set-append bytes rest old v
          ∙ append_assoc bytes (v ∷ []) rest;
      ends = omega (
        arith,
        k.ends,
        length-append (bytes ++ (old ∷ [])) rest,
        length-append bytes (old ∷ []),
        length-append bytes (v ∷ rest),
      );
      room = k.room;
      kept = length-set o.buffer (length bytes) v ∙ k.kept;
    }

    put_slot_list-Holds :
        (capacity : ℕ) (bytes : List ℕ) (o : Out)
        → capacity ≤ size
        → Holds size bytes o
        → IfSome
            (Holds size (
              bytes
              ++ (length (ota_slots env (env.app_partitions h))
                  ∷ texts (slot_names env h (ota_slots env (env.app_partitions h))))))
            (put_slot_list env h capacity o)
    unfolding put_slot_list
    put_slot_list-Holds capacity bytes o large k =
        let slots = ota_slots env (env.app_partitions h) in
        let Whole = Holds size (bytes ++ (length slots ∷ texts (slot_names env h slots))) in
        let old = get_or o.buffer o.offset 0 in
        if_cases (IfSome Whole) (ltb capacity (o.offset + 1)) (λ full. tt)
          (λ more.
            IfSome-bind (Slots (bytes ++ (old ∷ [])) 0 slots) Whole
              (put_slots env h capacity (record o { offset = o.offset + 1 }) 0
                (env.app_partitions h))
              (λ r. some (record r.0 { buffer = set r.0.buffer o.offset r.1 }))
              (put_slots-Holds capacity (bytes ++ (old ∷ [])) (record o { offset = o.offset + 1 }) 0
                (env.app_partitions h) large (skipped-Holds bytes o (ground (arith, large)) k))
              (λ r w.
                let counted : r.1 ≡ length slots = omega (arith, w.1) in
                subst (λ (at : ℕ). Whole (record r.0 { buffer = set r.0.buffer at r.1 }))
                  (sym k.ends)
                  (subst
                    (λ (c : ℕ).
                      Holds size (bytes ++ (c ∷ texts (slot_names env h slots)))
                        (record r.0 { buffer = set r.0.buffer (length bytes) r.1 }))
                    counted
                    (patched-Holds bytes (texts (slot_names env h slots)) r.0 old r.1 w.0))))

    put_fixed-Holds :
        (boot_count : ℕ) (buffer : List ℕ)
        → 17 ≤ size
        → length buffer ≡ size
        → Holds size
            (fixed_bytes env h boot_count)
            (put_fixed env h boot_count (record { buffer = buffer; offset = 0 }))
    unfolding put_fixed fixed_bytes
    put_fixed-Holds boot_count buffer room kept =
        let version = described_version (env.app_description h) in
        let empty : Holds size [] (record { buffer = buffer; offset = 0 }) = record {
          there = refl;
          ends = refl;
          room = omega arith;
          kept = kept;
        } in
        let k0 = put_byte-Holds size [] _ version_1 (omega (arith, room)) empty in
        let k1 = put_byte-Holds size _ _ version.0 (omega (arith, room)) k0 in
        let k2 = put_byte-Holds size _ _ version.1 (omega (arith, room)) k1 in
        let k3 = put_byte-Holds size _ _ version.2 (omega (arith, room)) k2 in
        let k4 =
          put_u32_le-Holds size _ _ (u32 (env.timer_us h / 1000000)) (omega (arith, room)) k3 in
        let k5 = put_u32_le-Holds size _ _ (u32 (env.free_heap h)) (omega (arith, room)) k4 in
        let k6 = put_u32_le-Holds size _ _ boot_count (omega (arith, room)) k5 in
        put_byte-Holds size _ _ (if env.rollback_possible h then 1 else 0) (omega (arith, room)) k6

  pub build_payload-Holds :
      (h : History) (boot_count : ℕ) (buffer : List ℕ) (capacity : ℕ)
      → capacity ≤ length buffer
      → IfSome
          (Holds (length buffer) (info_bytes env h boot_count))
          (build_payload env h boot_count buffer capacity)
  unfolding build_payload info_bytes
  build_payload-Holds h boot_count buffer capacity large =
      let size = length buffer in
      let fixed = put_fixed env h boot_count (record { buffer = buffer; offset = 0 }) in
      let Whole = Holds size (info_bytes env h boot_count) in
      if_cases (IfSome Whole) (ltb capacity 17) (λ tiny. tt)
        (λ room.
          IfSome-bind (Holds size (fixed_bytes env h boot_count ++ texts (info_texts env h))) Whole
            (put_all capacity fixed (info_texts env h)) (put_slot_list env h capacity)
            (put_all-Holds size capacity (fixed_bytes env h boot_count) fixed (info_texts env h)
              large (put_fixed-Holds size h boot_count buffer (ground (arith, large)) refl))
            (λ o w.
              put_slot_list-Holds size h capacity
                (fixed_bytes env h boot_count ++ texts (info_texts env h)) o large w))
