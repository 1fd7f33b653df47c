-- ===== src/Link/Channel.antt =====
-- What the host needs of the link to update a device: that a request to the OTA manager is served
-- and acknowledged. A device without a key offers it, and so does a device with an open session.
use esp32_ota_link.Base.{ℕ, ◌+◌, ◌≤◌, ◌≡◌, List, ◌∷◌, ◌++◌, length, IsBytes}
use esp32_ota_link.Idf.{Env, History, wrote}
use esp32_ota_link.Protocol.Wire.{err_ok, max_payload}
use esp32_ota_link.Protocol.Frame.{writer_in_use}
use esp32_ota_link.Ota.{OtaState, ran}
use esp32_ota_link.Commands.Route.{OtaRequest, operation, HasShape}
use esp32_ota_link.Link.{Link}
use esp32_ota_link.Link.Loop.{receive}

-- After the request: the OTA manager's state and calls, then the acknowledgement, and the device
-- listens again.
pub record Serves (Listens : Link → Type 0) (l : Link) (ack : List ℕ) (s : OtaState) (h : History)
    (r : Link) : Type 0 where
  pub listens : Listens r
  pub ota_is : r.app.ota ≡ s
  pub history_is : r.app.history ≡ wrote (writer_in_use l.app.sender) ack ∷ h

pub record Channel (env : Env) : Type 1 where
  -- The device waits for the request with this number.
  pub Listens : ℕ → Link → Type 0
  -- The host may use this number.
  pub InRange : ℕ → Type 0
  -- How long the payload of a request may be.
  pub room : ℕ
  pub enough : 36 ≤ room
  pub small : room ≤ max_payload
  -- The bytes of a request, and those of its acknowledgement.
  pub request : OtaRequest → ℕ → List ℕ → List ℕ
  pub reply : OtaRequest → ℕ → List ℕ
  -- A request that the OTA manager takes is acknowledged.
  pub serves :
      (o : OtaRequest) (l : Link) (n : ℕ) (payload : List ℕ) (s : OtaState) (h : History)
      → Listens n l
      → InRange n
      → IsBytes payload
      → length payload ≤ room
      → HasShape o (length payload)
      → ((rest : List ℕ)
          → operation env o l.app.ota l.app.history (payload ++ rest) (length payload)
            ≡ ran s h err_ok)
      → Serves (Listens (n + 1)) l (reply o n) s h (receive env l (request o n payload))
