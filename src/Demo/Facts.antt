-- ===== src/Demo/Facts.antt =====
-- What the concrete platform meets of the hypotheses of the theorems.
use esp32_ota_link.Base.{
  ℕ, ◌%◌, ◌≡◌, refl, ap, Option, none, some, arith, length, length-replicate, IsBytes-replicate,
}
use esp32_ota_link.Demo.{demo_env, update_partition, image_digest}
use esp32_ota_link.Idf.{Partition}
use esp32_ota_link.Ota.Invariant.{SmallPartitions}
use esp32_ota_link.Ota.Steps.{Succeeds}
use esp32_ota_link.Auth.Cache.{ShaSized}

pub demo-SmallPartitions : SmallPartitions demo_env
demo-SmallPartitions h p e =
    let size : 4096 ≡ p.size =
      ap (λ (o : Option Partition). elim o [ none ↦ 0 | some q ↦ q.size ]) e in
    omega arith

pub demo-Succeeds : Succeeds demo_env update_partition image_digest
demo-Succeeds = record {
  offers = λ h. refl;
  begins = λ h q n. refl;
  writes = λ h k c. refl;
  ends = λ h k. refl;
  hashes = λ h q. refl;
  boots_it = λ h q. refl;
}

pub demo-ShaSized : ShaSized demo_env
demo-ShaSized input =
    (length-replicate {A = ℕ} 32 (length input % 256), IsBytes-replicate 32 _ (omega arith))
