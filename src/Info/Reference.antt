-- ===== src/Info/Reference.antt =====
-- The layout of the GET_INFO payload that `device_info_build_payload` of device_info.c builds: its
-- bytes, as one list.
use esp32_ota_link.Base.{
  ℕ, ◌/◌, ◌≡◌, refl, List, [], ◌∷◌, ◌++◌, Option, true, false, not, arith, if◌then◌else◌, length,
  u32,
}
use esp32_ota_link.Idf.{Env, History, Partition}
use esp32_ota_link.Protocol.Wire.{version_1}
use esp32_ota_link.Protocol.Fields.{le32}
use esp32_ota_link.Info.Names.{ota_state_name}
use esp32_ota_link.Info.Build.{
  partition_is_ota_slot, info_texts, label_or, slot_state, described_version,
}
use esp32_ota_link.Info.Layout.{texts}

module _ (env : Env) where
  -- The partitions of the iterator that are OTA slots.
  unfoldable pub ota_slots : List (Option Partition) → List (Option Partition)
  ota_slots [] = []
  ota_slots (s ∷ ss) =
      let rest = ota_slots ss in if partition_is_ota_slot env s then s ∷ rest else rest

  unfoldable pub slot_names : History → List (Option Partition) → List (List ℕ)
  slot_names h [] = []
  slot_names h (s ∷ ss) = label_or s [] ∷ ota_state_name (slot_state env h s) ∷ slot_names h ss

  -- The whole payload: the part of fixed size, the texts, the count of the slots and their texts.
  unfoldable pub fixed_bytes : History → ℕ → List ℕ
  fixed_bytes h boot_count =
      let version = described_version (env.app_description h) in
      version_1
      ∷ version.0
      ∷ version.1
      ∷ version.2
      ∷ (le32 (u32 (env.timer_us h / 1000000))
          ++ le32 (u32 (env.free_heap h))
          ++ le32 boot_count
          ++ ((if env.rollback_possible h then 1 else 0) ∷ []))

  unfoldable pub info_bytes : History → ℕ → List ℕ
  unfolding fixed_bytes ota_slots slot_names
  info_bytes h boot_count =
      let slots = ota_slots (env.app_partitions h) in
      (fixed_bytes h boot_count ++ texts (info_texts env h))
      ++ (length slots ∷ texts (slot_names h slots))

  pub ota_slots_taken :
      (s : Option Partition) (ss : List (Option Partition))
      → not (partition_is_ota_slot env s) ≡ false
      → ota_slots (s ∷ ss) ≡ s ∷ ota_slots ss
  unfolding ota_slots
  ota_slots_taken s ss e =
      let yes : partition_is_ota_slot env s ≡ true = ground arith in rw yes refl

  pub ota_slots_skipped :
      (s : Option Partition) (ss : List (Option Partition))
      → not (partition_is_ota_slot env s) ≡ true
      → ota_slots (s ∷ ss) ≡ ota_slots ss
  unfolding ota_slots
  ota_slots_skipped s ss e =
      let no : partition_is_ota_slot env s ≡ false = ground arith in rw no refl
