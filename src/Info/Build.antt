-- ===== src/Info/Build.antt =====
-- `device_info_build_payload` of device_info.c and its writers into the caller's buffer.
use esp32_ota_link.Base.{
  ℕ, ◌+◌, ◌/◌, List, [], ◌∷◌, Option, none, some, Bool, false, not, ◌&&◌, ◌||◌, ltb, leb, ◌==◌,
  if◌then◌else◌, set, overwrite, length, bit_and, u8, u32, ◌>>>◌,
}
use esp32_ota_link.Idf.{Env, History, Partition, ImgState, img_undefined, AppDescription}
use esp32_ota_link.Protocol.Wire.{version_1}
use esp32_ota_link.Info.Names.{text, ota_state_name, chip_model_name}
use esp32_ota_link.Info.Version.{◌>>=◌, parse_app_version}

-- The buffer and `offset`.
pub record Out : Type 0 where
  pub buffer : List ℕ
  pub offset : ℕ

-- `buffer[offset++] = value`.
unfoldable pub put_byte : Out → ℕ → Out
put_byte o value = record { buffer = set o.buffer o.offset value; offset = o.offset + 1 }

unfoldable pub put_u32_le : Out → ℕ → Out
unfolding put_byte
put_u32_le o value =
    put_byte
      (put_byte (put_byte (put_byte o (bit_and value 0xff)) (bit_and (value >>> 8) 0xff))
        (bit_and (value >>> 16) 0xff))
      (bit_and (value >>> 24) 0xff)

-- `none` is the result false.
unfoldable pub put_str8 : ℕ → Out → List ℕ → Option Out
unfolding put_byte
put_str8 capacity o value =
    if ltb 255 (length value) || ltb capacity (o.offset + 1 + length value)
    then none
    else (let o' = put_byte o (u8 (length value)) in
        some (record {
          buffer = overwrite o'.buffer o'.offset value;
          offset = o'.offset + length value;
        }))

-- A chain of `put_str8`, joined by `||` in the source.
unfoldable pub put_all : ℕ → Out → List (List ℕ) → Option Out
unfolding put_str8
put_all capacity o [] = some o
put_all capacity o (v ∷ vs) = put_str8 capacity o v >>= λ o'. put_all capacity o' vs

abbrev or_undefined : Option ImgState → ImgState
or_undefined none = img_undefined
or_undefined (some s) = s

abbrev pub label_or : Option Partition → List ℕ → List ℕ
label_or none d = d
label_or (some p) d = p.label

abbrev described : Option AppDescription → (AppDescription → List ℕ) → List ℕ → List ℕ
described none f d = d
described (some a) f d = f a

abbrev pub described_version : Option AppDescription → ℕ × ℕ × ℕ
described_version none = parse_app_version none
described_version (some a) = parse_app_version (some a.version)

module _ (env : Env) where
  unfoldable pub partition_is_ota_slot : Option Partition → Bool
  partition_is_ota_slot none = false
  partition_is_ota_slot (some p) =
      p.kind == env.partition_type_app
      && leb env.ota_subtype_min p.subtype
      && leb p.subtype env.ota_subtype_max

  unfoldable pub slot_state : History → Option Partition → ImgState
  slot_state h p = or_undefined (env.state_partition h p).1

  -- The `while` loop over the iterator, with the partitions left and `slot_count`.
  unfoldable pub put_slots : History → ℕ → Out → ℕ → List (Option Partition) → Option (Out × ℕ)
  unfolding partition_is_ota_slot slot_state put_all
  put_slots h capacity o slot_count [] = some (o, slot_count)
  put_slots h capacity o slot_count (slot ∷ slots) =
      let skip = put_slots h capacity o slot_count slots in
      let names = label_or slot [] ∷ ota_state_name (slot_state h slot) ∷ [] in
      let taken =
        put_all capacity o names >>= λ o'. put_slots h capacity o' (slot_count + 1) slots in
      if not (partition_is_ota_slot slot) then skip else if slot_count == 255 then none else taken

  -- From the slot count on; the count is written when the loop has ended.
  unfoldable pub put_slot_list : History → ℕ → Out → Option Out
  unfolding put_slots
  put_slot_list h capacity o =
      if ltb capacity (o.offset + 1)
      then none
      else put_slots h capacity (record o { offset = o.offset + 1 }) 0 (env.app_partitions h)
        >>= λ r. some (record r.0 { buffer = set r.0.buffer o.offset r.1 })

  -- The 17 bytes of fixed size.
  unfoldable pub put_fixed : History → ℕ → Out → Out
  unfolding put_u32_le
  put_fixed h boot_count o =
      let version = described_version (env.app_description h) in
      let o1 = put_byte o version_1 in
      let o2 = put_byte (put_byte (put_byte o1 version.0) version.1) version.2 in
      let o3 = put_u32_le o2 (u32 (env.timer_us h / 1000000)) in
      let o4 = put_u32_le o3 (u32 (env.free_heap h)) in
      let o5 = put_u32_le o4 boot_count in put_byte o5 (if env.rollback_possible h then 1 else 0)

  -- The seven texts.
  unfoldable pub info_texts : History → List (List ℕ)
  unfolding slot_state
  info_texts h =
      let running = env.running_partition h in
      let boot = env.boot_partition h in
      let desc = env.app_description h in
      chip_model_name (env.chip_model h)
      ∷ label_or running (text "unknown")
      ∷ label_or boot (text "unknown")
      ∷ ota_state_name (running_state running)
      ∷ described desc (λ a. a.idf_ver) (text "unknown")
      ∷ described desc (λ a. a.project_name) (text "esp32_ota_link")
      ∷ described desc (λ a. a.date) (text "unknown")
      ∷ []
    where
      running_state : Option Partition → ImgState
      running_state none = img_undefined
      running_state (some p) = slot_state h (some p)

  -- The buffer and the length; `none` is the result 0 (the buffer may hold a part then).
  unfoldable pub build_payload : History → ℕ → List ℕ → ℕ → Option Out
  unfolding put_fixed info_texts put_slot_list
  build_payload h boot_count buffer capacity =
      if ltb capacity 17
      then none
      else put_all capacity (put_fixed h boot_count (record { buffer = buffer; offset = 0 }))
          (info_texts h)
        >>= λ o. put_slot_list h capacity o
