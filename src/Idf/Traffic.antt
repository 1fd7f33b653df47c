-- ===== src/Idf/Traffic.antt =====
-- What the calls of the past did to the world outside: what was sent, and how often the device was
-- restarted.
use esp32_ota_link.Base.{ℕ, suc, ◌≡◌, List, [], ◌∷◌, Bool, true, false}
use esp32_ota_link.Idf.{History, wrote, restarted, rolled_back, is_ok}

-- What was written to the transport, the newest first.
abbrev pub writes : History → List (List ℕ)
writes [] = []
writes (wrote w bytes ∷ h) = bytes ∷ writes h
writes (e ∷ h) = writes h

-- How often the device was restarted or rolled back.
abbrev pub resets : History → ℕ
resets [] = 0
resets (restarted ∷ h) = suc (resets h)
resets (rolled_back e ∷ h) = suc (resets h)
resets (e ∷ h) = resets h

-- The last call does not return: the device restarts.
abbrev pub is_stopped : History → Bool
is_stopped [] = false
is_stopped (restarted ∷ h) = true
is_stopped (rolled_back e ∷ h) = is_ok e
is_stopped (e ∷ h) = false

pub record IsSilent (h h' : History) : Type 0 where
  pub no_write : writes h' ≡ writes h
  pub no_reset : resets h' ≡ resets h
