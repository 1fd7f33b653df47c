-- ===== src/Commands/Examples.antt =====
-- Tests of the dispatcher's properties: a reboot request on a device with a key.
use esp32_ota_link.Base.{
  ℕ, ◌++◌, arith, length-replicate, ◌≡◌, ◌⊎◌, refl, [], none, true, false, replicate,
  IsBytes-replicate,
}
use esp32_ota_link.Demo.Facts.{demo-ShaSized}
use esp32_ota_link.Demo.{demo_env}
use esp32_ota_link.Protocol.Wire.{
  Packet, buffer_size, max_payload, cmd_reboot, cmd_ota_abort, err_auth_required,
}
use esp32_ota_link.Ota
use esp32_ota_link.Auth.State
use esp32_ota_link.Auth.State.{command_is_protected}
use esp32_ota_link.Auth.Quiet.{IsAuthorised, IsSameSession}
use esp32_ota_link.Commands.{App, handle, plain_nack}
use esp32_ota_link.Commands.Gate.{handle_unauthenticated}
use esp32_ota_link.Auth.Hmac.{compute_packet_tag, hmac_sha256}
use esp32_ota_link.Auth.Replay.{scan}
use esp32_ota_link.Commands.Route.{abort_request}
use esp32_ota_link.Commands.Signed.{IsServable, IsSignedAnswer, served, handle-IsSignedAnswer}
use esp32_ota_link.Commands.Reply.{IsAnswered, handle-IsAnswered}
use esp32_ota_link.Commands.Quiet.{IsQuiet}
use esp32_ota_link.Commands.Authority.{handle-IsAuthorised}

abbrev locked_app : App
locked_app = record {
  auth = record State.cleared { required = true };
  ota = Ota.cleared;
  sender = record { uart_port = 0; write = none; tx_buffer = replicate buffer_size 0 };
  history = [];
  info_payload = replicate max_payload 0;
  boot_count = 1;
}

abbrev reboot_request : Packet
reboot_request = record {
  version = 1;
  command = cmd_reboot;
  sequence = 7;
  length = 0;
  payload = replicate max_payload 0;
}

handle_unauthenticated_example :
    handle demo_env locked_app reboot_request
    ≡ plain_nack locked_app reboot_request err_auth_required
unfolding State.cleared command_is_protected
handle_unauthenticated_example =
    handle_unauthenticated demo_env locked_app reboot_request refl refl refl refl

handle-IsAuthorised_example :
    (IsQuiet locked_app (handle demo_env locked_app reboot_request)
      × ((command_is_protected cmd_reboot ≡ false)
          ⊎ IsSameSession locked_app.auth (handle demo_env locked_app reboot_request).auth))
    ⊎ IsAuthorised demo_env locked_app.auth reboot_request
handle-IsAuthorised_example =
    handle-IsAuthorised demo_env reboot_request demo-ShaSized
      (record {
        enough = omega (arith, length-replicate {A = ℕ} max_payload 0);
        bytes = IsBytes-replicate max_payload 0 (omega arith);
      })
      locked_app refl

handle-IsAnswered_example :
    IsAnswered demo_env reboot_request locked_app (handle demo_env locked_app reboot_request)
handle-IsAnswered_example = handle-IsAnswered demo_env reboot_request locked_app

-- A signed OTA_ABORT in an open session.
abbrev session_app : App
session_app = record locked_app {
  auth = record State.cleared { required = true; authenticated = true };
}

abbrev signed_abort : Packet
signed_abort = record reboot_request {
  command = cmd_ota_abort;
  length = 16;
  payload = replicate 16 96 ++ replicate 1008 0;
}

signed_abort-IsServable : IsServable demo_env session_app signed_abort
unfolding State.cleared State.empty_entry scan compute_packet_tag hmac_sha256
signed_abort-IsServable = record {
  required = refl;
  session = refl;
  signed = record {
    long = omega arith;
    enough = omega arith;
    tag = replicate 32 96;
    computed = refl;
    tag_is = refl;
  };
  new = refl;
  version = refl;
  ready = record { sized = length-replicate {A = ℕ} buffer_size 0 };
}

handle-IsSignedAnswer_example :
    IsSignedAnswer demo_env session_app signed_abort
      (served demo_env abort_request session_app signed_abort)
      (handle demo_env session_app signed_abort)
handle-IsSignedAnswer_example =
    handle-IsSignedAnswer demo_env demo-ShaSized session_app signed_abort abort_request
      signed_abort-IsServable refl refl
