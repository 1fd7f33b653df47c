-- ===== src/Ota/Examples.antt =====
-- Tests of the session's properties, on the platform of `Demo`.
use esp32_ota_link.Base.{ℕ, ◌-◌, ◌≡◌, ◌≢◌, refl, ◌⊎◌, List, [], ◌∷◌, some, true, arith, take, drop}
use esp32_ota_link.Demo.Facts.{demo-SmallPartitions, demo-Succeeds}
use esp32_ota_link.Demo.{demo_env, update_partition, image_digest}
use esp32_ota_link.Idf.{History, esp_ok, ota_began}
use esp32_ota_link.Protocol.Wire.{err_ok}
use esp32_ota_link.Ota.{
  OtaState, ran, cleared, begin, write_data, finish, data_header_size, read_u32_le,
}
use esp32_ota_link.Ota.Staged.{staged, boots}
use esp32_ota_link.Ota.Invariant.{OtaInv, cleared-OtaInv, opened-OtaInv}
use esp32_ota_link.Ota.Chunks.{chunk_offset, chunk_bytes}
use esp32_ota_link.Ota.Retry.{write_data_acked, write_data_twice}
use esp32_ota_link.Ota.Finish.{HashSized, BootsBy, IsVerified, finish-BootsBy}
use esp32_ota_link.Ota.Session.{
  begins, writes, ends, perform, session, session-OtaInv, perform-boots,
}
use esp32_ota_link.Ota.Steps.{begin_payload, data_payload}
use esp32_ota_link.Ota.Transfer.{upload, IsDelivered, transfer_delivers}

demo-HashSized : HashSized demo_env
demo-HashSized h p = refl

-- A session for an image of three bytes.
abbrev opened_state : OtaState
opened_state = record cleared {
  active = true;
  firmware_size = 3;
  handle = 1;
  partition = some update_partition;
  expected_sha256 = image_digest;
}

abbrev opened_history : History
opened_history = ota_began (some update_partition) 3 1 esp_ok ∷ []

opened-OtaInv_demo : OtaInv opened_state opened_history
opened-OtaInv_demo =
    opened-OtaInv 3 1 update_partition image_digest [] esp_ok refl (omega arith) refl

abbrev three_bytes : List ℕ
three_bytes = data_payload 0 0 (5 ∷ 6 ∷ 7 ∷ [])

session-OtaInv_example :
    let r =
      session demo_env
        (begins (begin_payload 3 image_digest) 36 ∷ writes three_bytes 11 ∷ ends ∷ [])
        cleared
        [] in
    OtaInv r.0 r.1
session-OtaInv_example =
    session-OtaInv demo_env
      (begins (begin_payload 3 image_digest) 36 ∷ writes three_bytes 11 ∷ ends ∷ []) cleared []
      demo-SmallPartitions (omega arith, (omega arith, (tt, tt))) (cleared-OtaInv [])

perform-boots_example :
    (boots (perform demo_env ends opened_state opened_history).history ≡ boots opened_history)
    ⊎ ((ends ≡ ends)
        × IsVerified demo_env opened_state opened_history
        × (boots (perform demo_env ends opened_state opened_history).history
            ≡ opened_state.partition ∷ boots opened_history))
perform-boots_example =
    perform-boots demo_env ends opened_state opened_history demo-HashSized opened-OtaInv_demo

finish-BootsBy_example :
    BootsBy demo_env opened_state opened_history (finish demo_env opened_state opened_history)
finish-BootsBy_example =
    finish-BootsBy demo_env opened_state opened_history demo-HashSized opened-OtaInv_demo

write_data_acked_example :
    let r = write_data demo_env opened_state opened_history three_bytes 11 in
    (r.result ≡ err_ok
      → take (11 - data_header_size) (drop (chunk_offset three_bytes) (staged r.history))
        ≡ chunk_bytes three_bytes 11)
    × (r.result ≢ err_ok → (r.state ≡ opened_state) × (staged r.history ≡ staged opened_history))
write_data_acked_example =
    write_data_acked demo_env opened_state opened_history three_bytes 11 opened-OtaInv_demo
      (omega arith)

write_data_twice_example :
    let r = write_data demo_env opened_state opened_history three_bytes 11 in
    write_data demo_env r.state r.history three_bytes 11 ≡ ran r.state r.history err_ok
unfolding write_data read_u32_le cleared
write_data_twice_example =
    write_data_twice demo_env opened_state opened_history three_bytes 11 opened-OtaInv_demo
      (omega arith) refl

transfer_delivers_example :
    let begun = begin demo_env cleared [] (begin_payload 3 image_digest) 36 in
    let uploaded = upload demo_env begun.state begun.history 0 0 ((5 ∷ 6 ∷ []) ∷ (7 ∷ []) ∷ []) in
    IsDelivered update_partition
      (5 ∷ 6 ∷ 7 ∷ [])
      begun
      uploaded
      (finish demo_env uploaded.state uploaded.history)
transfer_delivers_example =
    transfer_delivers demo_env [] update_partition image_digest ((5 ∷ 6 ∷ []) ∷ (7 ∷ []) ∷ [])
      demo-Succeeds refl ((omega arith, omega arith), ((omega arith, omega arith), tt))
      (omega arith) (omega arith) (omega arith)
