-- ===== src/Ota/Session.antt =====
-- The operations of ota_manager.c in any order.
use esp32_ota_link.Base.{ℕ, ◌≤◌, ◌≡◌, refl, ◌⊎◌, inl, inr, List, [], ◌∷◌, length, All}
use esp32_ota_link.Idf.{Env, History}
use esp32_ota_link.Ota.{OtaState, OtaRun, begin, abort, write_data, finish}
use esp32_ota_link.Ota.Staged.{boots}
use esp32_ota_link.Ota.Invariant.{
  OtaInv, SmallPartitions, begin-Keeps, write_data-Keeps, abort-Keeps, finish-Keeps,
}
use esp32_ota_link.Ota.Finish.{
  HashSized, IsVerified, finish-BootsBy, begin-boots, abort-boots, write_data-boots,
}

-- A call of one of the four functions, with its payload array and length.
pub data Operation : Type 0 where
  begins writes : List ℕ → ℕ → Operation
  aborts ends : Operation

-- The length is within the array.
abbrev pub IsCall : Operation → Type 0
IsCall (begins payload n) = n ≤ length payload
IsCall (writes payload n) = n ≤ length payload
IsCall aborts = Unit
IsCall ends = Unit

module _ (env : Env) where
  pub perform : Operation → OtaState → History → OtaRun
  perform (begins payload n) s h = begin env s h payload n
  perform (writes payload n) s h = write_data env s h payload n
  perform aborts s h = abort env s h
  perform ends s h = finish env s h

  pub session : List Operation → OtaState → History → OtaState × History
  session [] s h = (s, h)
  session (o ∷ os) s h = let r = perform o s h in session os r.state r.history

  pub perform-Keeps :
      (o : Operation) (s : OtaState) (h : History)
      → SmallPartitions env
      → IsCall o
      → OtaInv s h
      → let r = perform o s h in OtaInv r.state r.history
  unfolding perform
  perform-Keeps (begins payload n) s h small call v = begin-Keeps env s h payload n small v
  perform-Keeps (writes payload n) s h small call v = write_data-Keeps env s h payload n call v
  perform-Keeps aborts s h small call v = abort-Keeps env s h v
  perform-Keeps ends s h small call v = finish-Keeps env s h v

  -- From a session in RAM that agrees with what was written to flash (the cleared one at start-up
  -- does), after any calls in any order and with any answers of the platform:
  -- the session still agrees with the flash, where the update partition leaves
  -- room below 4 GB and the lengths lie within the payload arrays.
  pub session-OtaInv :
      (os : List Operation) (s : OtaState) (h : History)
      → SmallPartitions env
      → All IsCall os
      → OtaInv s h
      → let r = session os s h in OtaInv r.0 r.1
  unfolding session
  session-OtaInv [] s h small calls v = v
  session-OtaInv (o ∷ os) s h small calls v =
      session-OtaInv os (perform o s h).state (perform o s h).history small calls.1
        (perform-Keeps o s h small calls.0 v)

  -- In a session that agrees with the flash, one call changes the list of partitions that were
  -- made bootable only if it is `ota_manager_end`, and the image of the session is complete,
  -- accepted by `esp_ota_end`, and has the announced digest; then it adds the session's partition.
  pub perform-boots :
      (o : Operation) (s : OtaState) (h : History)
      → HashSized env
      → OtaInv s h
      → let r = perform o s h in
        (boots r.history ≡ boots h)
        ⊎ ((o ≡ ends) × IsVerified env s h × (boots r.history ≡ s.partition ∷ boots h))
  unfolding perform
  perform-boots (begins payload n) s h sized v = inl (begin-boots env s h payload n)
  perform-boots (writes payload n) s h sized v = inl (write_data-boots env s h payload n)
  perform-boots aborts s h sized v = inl (abort-boots env s h)
  perform-boots ends s h sized v = elim (finish-BootsBy env s h sized v) [
    | inl (same, bad) ↦ inl same
    | inr (verified, ok, clear, added) ↦ inr (refl, verified, added)
  ]
