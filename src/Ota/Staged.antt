-- ===== src/Ota/Staged.antt =====
-- What the calls of the past say about the image that is being received: the bytes that
-- `esp_ota_write` took since the last session was opened, and how that session was opened.
use esp32_ota_link.Base.{ℕ, List, [], ◌∷◌, ◌++◌, Option, none, some}
use esp32_ota_link.Idf.{History, Partition, esp_ok, ota_began, ota_wrote, boot_set}

-- The bytes written since the last successful `esp_ota_begin`.
abbrev pub staged : History → List ℕ
staged [] = []
staged (ota_began p size handle esp_ok ∷ h) = []
staged (ota_wrote handle bytes esp_ok ∷ h) = staged h ++ bytes
staged (e ∷ h) = staged h

-- The partition, the size and the handle of the last successful `esp_ota_begin`.
abbrev pub opened : History → Option (Option Partition × ℕ × ℕ)
opened [] = none
opened (ota_began p size handle esp_ok ∷ h) = some (p, size, handle)
opened (e ∷ h) = opened h

-- The partitions that were made bootable, the latest first.
abbrev pub boots : History → List (Option Partition)
boots [] = []
boots (boot_set p esp_ok ∷ h) = p ∷ boots h
boots (e ∷ h) = boots h
