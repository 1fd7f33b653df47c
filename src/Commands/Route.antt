-- ===== src/Commands/Route.antt =====
-- Where `commands_handle_packet` sends the protected commands.
use esp32_ota_link.Base.{ℕ, ◌≡◌, refl, sym, subst, true, List, ◌<◌, arith}
use esp32_ota_link.Idf.{Env, History}
use esp32_ota_link.Ota.{OtaState, OtaRun}
use esp32_ota_link.Ota
use esp32_ota_link.Protocol.Wire.{
  Packet, version_1, cmd_reboot, cmd_rollback, cmd_ota_begin, cmd_ota_data, cmd_ota_end,
  cmd_ota_abort,
}
use esp32_ota_link.Auth.State.{command_is_protected}
use esp32_ota_link.Commands.{App, guarded, dispatch, handle}
use esp32_ota_link.Commands.Cases.{
  GatedCommand, reboots, rollbacks, begins, aborts, writes, ends, fresh_of,
}

abbrev pub code_of : GatedCommand → ℕ
code_of reboots = cmd_reboot
code_of rollbacks = cmd_rollback
code_of begins = cmd_ota_begin
code_of aborts = cmd_ota_abort
code_of writes = cmd_ota_data
code_of ends = cmd_ota_end

pub code_of-protected : (o : GatedCommand) → command_is_protected (code_of o) ≡ true
unfolding command_is_protected
code_of-protected reboots = refl
code_of-protected rollbacks = refl
code_of-protected begins = refl
code_of-protected aborts = refl
code_of-protected writes = refl
code_of-protected ends = refl

-- The requests to the OTA manager.
pub data OtaRequest : Type 0 where
  begin_request data_request end_request abort_request : OtaRequest

abbrev pub gated : OtaRequest → GatedCommand
gated begin_request = begins
gated data_request = writes
gated end_request = ends
gated abort_request = aborts

pub code_of-byte : (o : OtaRequest) → code_of (gated o) < 256
code_of-byte begin_request = omega arith
code_of-byte data_request = omega arith
code_of-byte end_request = omega arith
code_of-byte abort_request = omega arith

-- What the OTA manager makes of a request.
abbrev pub operation : Env → OtaRequest → OtaState → History → List ℕ → ℕ → OtaRun
operation env begin_request s h payload n = Ota.begin env s h payload n
operation env data_request s h payload n = Ota.write_data env s h payload n
operation env end_request s h payload n = Ota.finish env s h
operation env abort_request s h payload n = Ota.abort env s h

-- OTA_END and OTA_ABORT have no payload.
abbrev pub HasShape : OtaRequest → ℕ → Type 0
HasShape end_request n = n ≡ 0
HasShape abort_request n = n ≡ 0
HasShape _ n = Unit

module _ (env : Env) (a : App) where
  -- A property of a packet with this version and this command.
  packet_at :
      (P : Packet → Type 0) (p : Packet) (c : ℕ)
      → p.version ≡ version_1
      → p.command ≡ c
      → P (record p { version = version_1; command = c })
      → P p
  packet_at P p c v e t =
      subst (λ n. P (record p { version = n })) (sym v)
        (subst (λ n. P (record p { version = version_1; command = n })) (sym e) t)

  Routed : GatedCommand → Packet → Type 0
  Routed o p = handle env a p ≡ guarded env (fresh_of env o) a p

  Routed-at :
      (o : GatedCommand) (p : Packet)
      → Routed o (record p { version = version_1; command = code_of o })
  unfolding handle dispatch Routed
  Routed-at reboots p = refl
  Routed-at rollbacks p = refl
  Routed-at begins p = refl
  Routed-at aborts p = refl
  Routed-at writes p = refl
  Routed-at ends p = refl

  pub handle-guarded :
      (o : GatedCommand) (p : Packet)
      → p.version ≡ version_1
      → p.command ≡ code_of o
      → handle env a p ≡ guarded env (fresh_of env o) a p
  unfolding Routed
  handle-guarded o p v e = packet_at (Routed o) p (code_of o) v e (Routed-at o p)
