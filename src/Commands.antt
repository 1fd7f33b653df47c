-- ===== src/Commands.antt =====
-- The command dispatcher: firmware/components/ota_link/src/commands.c.
-- `App` gathers the statics of the components, which the handlers reach through their functions.
pub mod Cases
pub mod Reply
pub mod Keyless
pub mod Route
pub mod Signed
pub mod Gate
pub mod Quiet
pub mod Authority
pub mod Keeps
pub mod Examples
use esp32_ota_link.Base.{
  ℕ, List, ◌∷◌, Option, none, some, Bool, true, false, not, ◌||◌, ◌==◌, ◌!=◌, if◌then◌else◌,
}
use esp32_ota_link.Idf.{Env, History, delayed, restarted, rolled_back}
use esp32_ota_link.Protocol.Wire.{
  Packet, ProtocolError, err_ok, err_unknown_command, err_invalid_packet, err_invalid_length,
  err_busy, err_rollback_not_available, version_1, max_payload, cmd_ping, cmd_get_info, cmd_reboot,
  cmd_rollback, cmd_auth, cmd_ota_begin, cmd_ota_data, cmd_ota_end, cmd_ota_abort, cmd_info,
}
use esp32_ota_link.Protocol.Sender.{Sender, send_packet, send_ack, send_nack}
use esp32_ota_link.Ota.{OtaState, OtaRun, is_active}
use esp32_ota_link.Ota
use esp32_ota_link.Auth.State.{AuthState, handle_packet, unwrap_packet}
use esp32_ota_link.Auth.Replay.{check_replay, Responded, respond_ack, respond_nack}
use esp32_ota_link.Info.Build.{Out, build_payload}

pub record App : Type 0 where
  pub auth : AuthState
  pub ota : OtaState
  pub sender : Sender
  pub history : History
  pub info_payload : List ℕ
  pub boot_count : ℕ

-- `error == ERR_OK`.
abbrev pub is_err_ok : ProtocolError → Bool
is_err_ok err_ok = true
is_err_ok _ = false

-- `error != ERR_OK ? error : ERR_INVALID_LENGTH`.
abbrev pub or_invalid_length : ProtocolError → ProtocolError
or_invalid_length error = if is_err_ok error then err_invalid_length else error

-- The calls of the other components, on the state that they share.
abbrev pub with_sent : App → Sender × History → App
with_sent a (t, h) = record a { sender = t; history = h }

abbrev pub with_response : App → Responded → App
with_response a r = record a { auth = r.auth; sender = r.sender; history = r.history }

abbrev pub with_ota : App → OtaRun → App
with_ota a r = record a { ota = r.state; history = r.history }

unfoldable pub plain_ack : App → Packet → App
plain_ack a p = with_sent a (send_ack a.sender p.sequence a.history)

unfoldable pub plain_nack : App → Packet → ProtocolError → App
plain_nack a p error = with_sent a (send_nack a.sender p.sequence error a.history)

module _ (env : Env) where
  unfoldable pub ack : App → Packet → App
  ack a p = with_response a (respond_ack env a.auth a.sender a.history p)

  unfoldable pub nack : App → Packet → ProtocolError → App
  nack a p error = with_response a (respond_nack env a.auth a.sender a.history p error)

  -- `handle_authenticated_replay`: whether the packet is dealt with.
  unfoldable pub handle_authenticated_replay : App → Packet → App × Bool
  unfolding nack
  handle_authenticated_replay a p =
      let checked = check_replay env a.auth a.sender a.history p in
      let a' = record a { sender = checked.sender; history = checked.history } in
      if not (is_err_ok checked.result)
      then (nack a' p checked.result, true)
      else (a', checked.replayed)

  -- The answer to an operation that gives an error code.
  unfoldable pub answer : App → Packet → ProtocolError → App
  unfolding ack nack
  answer a p error = if is_err_ok error then ack a p else nack a p error

  -- `case CMD_GET_INFO`. A failed build leaves a part of the payload in the static buffer, which
  -- nothing reads before the next build overwrites it.
  pub sent_info : App → Packet → Option Out → App
  unfolding plain_nack
  sent_info a p none = plain_nack a p err_invalid_length
  sent_info a p (some o) =
      with_sent (record a { info_payload = o.buffer })
        (send_packet a.sender cmd_info p.sequence (some o.buffer) o.offset a.history)

  unfoldable pub handle_get_info : App → Packet → App
  unfolding sent_info
  handle_get_info a p =
      sent_info a p (build_payload env a.history a.boot_count a.info_payload max_payload)

  -- `case CMD_AUTH`.
  unfoldable pub handle_auth : App → Packet → App
  unfolding plain_nack
  handle_auth a p =
      let run = handle_packet env a.auth a.sender a.history p in
      let a' = record a { auth = run.auth; sender = run.sender; history = run.history } in
      if is_err_ok run.result then a' else plain_nack a' p run.result

  -- `case CMD_REBOOT` after the replay check. `esp_restart` does not return.
  pub reboot_fresh : App → Packet → App
  unfolding ack nack
  reboot_fresh a p =
      let (error, length) = unwrap_packet env a.auth p in
      let acked = ack a p in
      if not (is_err_ok error) || length != 0
      then nack a p (or_invalid_length error)
      else if is_active a.ota
      then nack a p err_busy
      else record acked { history = restarted ∷ delayed 100 ∷ acked.history }

  -- `case CMD_ROLLBACK` after the replay check, with `ota_link_mark_app_invalid_and_reboot`.
  pub rollback_fresh : App → Packet → App
  unfolding ack nack
  rollback_fresh a p =
      let (error, length) = unwrap_packet env a.auth p in
      let acked = ack a p in
      let waited = delayed 100 ∷ acked.history in
      if not (is_err_ok error) || length != 0
      then nack a p (or_invalid_length error)
      else if is_active a.ota
      then nack a p err_busy
      else if not (env.rollback_possible a.history)
      then nack a p err_rollback_not_available
      else record acked { history = rolled_back (env.mark_invalid_and_reboot waited) ∷ waited }

  -- An operation with a payload (`CMD_OTA_BEGIN`, `CMD_OTA_DATA`) after the replay check.
  pub with_payload_fresh : (OtaState → History → List ℕ → ℕ → OtaRun) → App → Packet → App
  unfolding answer
  with_payload_fresh operation a p =
      let (error, length) = unwrap_packet env a.auth p in
      let run = operation a.ota a.history p.payload length in
      if is_err_ok error then answer (with_ota a run) p run.result else answer a p error

  -- An operation without one (`CMD_OTA_ABORT`, `CMD_OTA_END`) after the replay check.
  pub without_payload_fresh : (OtaState → History → OtaRun) → App → Packet → App
  unfolding answer
  without_payload_fresh operation a p =
      let (error, length) = unwrap_packet env a.auth p in
      let run = operation a.ota a.history in
      if not (is_err_ok error)
      then answer a p error
      else if length != 0
      then answer a p err_invalid_length
      else answer (with_ota a run) p run.result

  -- The protected cases share their first lines.
  unfoldable pub guarded : (App → Packet → App) → App → Packet → App
  unfolding handle_authenticated_replay
  guarded fresh a p =
      let (a', replayed) = handle_authenticated_replay a p in if replayed then a' else fresh a' p

  -- The `switch`.
  pub dispatch : App → Packet → App
  unfolding handle_get_info handle_auth reboot_fresh rollback_fresh with_payload_fresh
      without_payload_fresh guarded plain_ack plain_nack
  dispatch a p =
      if p.command == cmd_ping
      then plain_ack a p
      else if p.command == cmd_get_info
      then handle_get_info a p
      else if p.command == cmd_auth
      then handle_auth a p
      else if p.command == cmd_reboot
      then guarded reboot_fresh a p
      else if p.command == cmd_rollback
      then guarded rollback_fresh a p
      else if p.command == cmd_ota_begin
      then guarded (with_payload_fresh (Ota.begin env)) a p
      else if p.command == cmd_ota_abort
      then guarded (without_payload_fresh (Ota.abort env)) a p
      else if p.command == cmd_ota_data
      then guarded (with_payload_fresh (Ota.write_data env)) a p
      else if p.command == cmd_ota_end
      then guarded (without_payload_fresh (Ota.finish env)) a p
      else plain_nack a p err_unknown_command

  -- `commands_handle_packet`.
  unfoldable pub handle : App → Packet → App
  unfolding dispatch
  handle a p = if p.version != version_1 then plain_nack a p err_invalid_packet else dispatch a p
