-- ===== src/Link/Examples.antt =====
-- Tests of the properties of the start, of the tasks and of the whole update: a device at start-up on
-- the platform of `Demo`.
use esp32_ota_link.Base.{
  true, ℕ, zero, suc, ◌++◌, ◌≤◌, ◌≡◌, refl, All, List, [], ◌∷◌, none, some, false, arith, replicate,
  length-replicate,
}
use esp32_ota_link.Demo.Facts.{demo-SmallPartitions, demo-Succeeds, demo-ShaSized}
use esp32_ota_link.Demo.{demo_env, update_partition, image_digest}
use esp32_ota_link.Protocol.Wire.{buffer_size, max_payload}
use esp32_ota_link.Ota
use esp32_ota_link.Ota.Invariant.{cleared-OtaInv}
use esp32_ota_link.Auth.State
use esp32_ota_link.Protocol.Parser.{parser_init}
use esp32_ota_link.Protocol.Parser.Safety.{feed-IsWellFormed}
use esp32_ota_link.Link.{
  Link, Read, byte, timed_out, failed, run_task, task_step, start_with_config,
}
use esp32_ota_link.Link.Reset.{at_reset, default_config}
use esp32_ota_link.Link.Start.{EndsFor, start_with_config-EndsFor}
use esp32_ota_link.Link.Tasks.{Device, MarkPc, mark_sleep, receive, sleep, here, later}
use esp32_ota_link.Link.Concurrent.{Reach-DeviceInv}
use esp32_ota_link.Link.Untouched.{entered, from_reset-DeviceInv}
use esp32_ota_link.Link.Loop
use esp32_ota_link.Link.Noise.{damaged_ignored}
use esp32_ota_link.Protocol.RoundTrip.{damaged}
use esp32_ota_link.Protocol.Fields.{le16}
use esp32_ota_link.Protocol.Frame.{content}
use esp32_ota_link.Protocol.Parser.{Parser}
use esp32_ota_link.Protocol.Parser.Refines.{Holds}
use esp32_ota_link.Link.Serve.{IsListening, keyless_channel}
use esp32_ota_link.Link.Session.{IsInSession, session_channel}
use esp32_ota_link.Link.Whole.{keyless_update, session_update}
use esp32_ota_link.Auth.Host.{Below}
use esp32_ota_link.Auth.State.{ReplayEntry}
use esp32_ota_link.Link.Update.{IsByteChunk}
use esp32_ota_link.Link.Delivery.{IsOffer, IsUpdated, update_stream}
use esp32_ota_link.Link.Run.{DeviceInv, run_task-DeviceInv}

abbrev started : Link
started = record {
  app = record {
    auth = State.cleared;
    ota = Ota.cleared;
    sender = record { uart_port = 0; write = none; tx_buffer = replicate buffer_size 0 };
    history = [];
    info_payload = replicate max_payload 0;
    boot_count = 1;
  };
  parser = record { buffer = replicate buffer_size 0; length = 0 };
  packet = record {
    version = 0;
    command = 0;
    sequence = 0;
    length = 0;
    payload = replicate max_payload 0;
  };
  config = record {
    uart_port = 0;
    baud_rate = 115200;
    pins = record { tx = 1; rx = 2; rts = 3; cts = 4 };
    rx_buffer_size = 2048;
    task_stack_size = 8192;
    task_priority = 5;
    auto_mark_app_valid = false;
    auto_mark_valid_delay_ms = 0;
    auth_key = none;
    auth_key_len = 0;
    require_authentication = false;
    transport = none;
    transport_context = 0;
  };
  task_handle = none;
  mark_valid_task_handle = none;
}

abbrev some_reads : List Read
some_reads = byte 0xaa ∷ timed_out ∷ byte 0x55 ∷ failed ∷ byte 1 ∷ []

run_task-DeviceInv_example : DeviceInv (run_task demo_env started some_reads)
run_task-DeviceInv_example =
    run_task-DeviceInv demo_env demo-SmallPartitions started some_reads
      (length-replicate {A = ℕ} buffer_size 0) (length-replicate {A = ℕ} max_payload 0)
      (cleared-OtaInv [])

started-DeviceInv : DeviceInv started
unfolding parser_init
started-DeviceInv = record {
  parses =
      (feed-IsWellFormed started.parser 0 started.packet).0
        (length-replicate {A = ℕ} buffer_size 0);
  array = length-replicate {A = ℕ} max_payload 0;
  app_inv = cleared-OtaInv [];
}

start_with_config-EndsFor_example :
    EndsFor demo_env
      (at_reset demo_env [])
      (default_config demo_env)
      (default_config demo_env)
      (start_with_config demo_env (at_reset demo_env []) (some (default_config demo_env)))
start_with_config-EndsFor_example =
    start_with_config-EndsFor demo_env (at_reset demo_env []) (default_config demo_env)
      (default_config demo_env) refl

-- The command task reads a byte, then the other task sleeps.
abbrev woken : Device
woken = record { link = mark_sleep demo_env started; marker = MarkPc.marking }

Reach-DeviceInv_example : DeviceInv woken.link
Reach-DeviceInv_example =
    Reach-DeviceInv demo_env demo-SmallPartitions
      {d = record { link = started; marker = MarkPc.sleeping }} {e = woken} started-DeviceInv
      (later here (sleep refl))

abbrev entered_at_reset : Device
entered_at_reset = record {
  link = entered demo_env (start_with_config demo_env (at_reset demo_env []) none).0;
  marker = MarkPc.sleeping;
}

from_reset-DeviceInv_example : DeviceInv (task_step demo_env entered_at_reset.link (byte 0xaa))
from_reset-DeviceInv_example =
    from_reset-DeviceInv demo_env [] none MarkPc.sleeping
      {d = record entered_at_reset { link = task_step demo_env entered_at_reset.link (byte 0xaa) }}
      demo-SmallPartitions (later here (receive (byte 0xaa)))

started-IsListening : IsListening started
unfolding State.cleared
started-IsListening = record {
  waits = record {
    rest = replicate buffer_size 0;
    buffered = refl;
    counted = refl;
    sized = length-replicate {A = ℕ} buffer_size 0;
  };
  array = length-replicate {A = ℕ} max_payload 0;
  ready = record { sized = length-replicate {A = ℕ} buffer_size 0 };
  keyless = refl;
  runs = refl;
}

-- An image of three bytes in two chunks.
abbrev two_chunks : List (List ℕ)
two_chunks = (7 ∷ 8 ∷ []) ∷ (9 ∷ []) ∷ []

two_chunks-IsByteChunk : (room : ℕ) → 10 ≤ room → All (IsByteChunk room) two_chunks
two_chunks-IsByteChunk room h = (
  (omega arith, omega arith, (omega arith, (omega arith, tt))),
  ((omega arith, omega arith, (omega arith, tt)), tt),
)

keyless-IsOffer :
    IsOffer demo_env (keyless_channel demo_env) update_partition image_digest 1 two_chunks
keyless-IsOffer = record {
  platform = demo-Succeeds;
  digest_sized = length-replicate {A = ℕ} 32 7;
  digest_bytes = omega arith;
  chunks = two_chunks-IsByteChunk 1024 (omega arith);
  not_empty = omega arith;
  fits = omega arith;
  small = omega arith;
  numbers = λ i h. tt;
}

keyless_update_example :
    IsUpdated demo_env (keyless_channel demo_env) started update_partition two_chunks 1 (
      Loop.receive demo_env started
        (update_stream demo_env (keyless_channel demo_env) 1 image_digest two_chunks))
keyless_update_example =
    keyless_update demo_env update_partition image_digest 1 two_chunks started keyless-IsOffer
      started-IsListening refl

-- A PING whose command arrives as 2.
damaged_ignored_example :
    (p : Parser) × Holds [] p
    × ((rest : List ℕ)
        → Loop.receive demo_env started
            (damaged (1 ∷ []) 2 (le16 5 ++ (le16 1 ++ (9 ∷ []))) (content 1 5 (9 ∷ [])) ++ rest)
          ≡ Loop.receive demo_env (record started { parser = p }) rest)
damaged_ignored_example =
    damaged_ignored demo_env started 1 5 (9 ∷ []) (1 ∷ []) (le16 5 ++ (le16 1 ++ (9 ∷ []))) 1 2 refl
      started-IsListening.waits
      (record {
        command_byte = omega arith;
        sequence_word = omega arith;
        bytes = (omega arith, tt);
        small = omega arith;
      })
      refl (omega arith) (omega arith) (omega arith) (omega arith)

-- A device with an open session under a key of zeros.
abbrev device_key : List ℕ
device_key = replicate 32 0

abbrev in_session : Link
in_session = record started {
  app = record started.app {
    auth = record State.cleared { required = true; authenticated = true };
  };
}

Below-replicate : (n k : ℕ) (e : ReplayEntry) → e.valid ≡ false → Below n (replicate k e)
Below-replicate n zero e h = tt
Below-replicate n (suc k) e h = (λ v. absurd (cc), Below-replicate n k e h)

in_session-IsInSession : IsInSession device_key 1 in_session
unfolding State.cleared State.empty_entry
in_session-IsInSession = record {
  waits = record {
    rest = replicate buffer_size 0;
    buffered = refl;
    counted = refl;
    sized = length-replicate {A = ℕ} buffer_size 0;
  };
  array = length-replicate {A = ℕ} max_payload 0;
  ready = record { sized = length-replicate {A = ℕ} buffer_size 0 };
  required = refl;
  session = refl;
  key_is = refl;
  known = Below-replicate 1 8 State.empty_entry refl;
  runs = refl;
}

session-IsOffer :
    IsOffer demo_env
      (session_channel demo_env demo-ShaSized device_key)
      update_partition
      image_digest
      1
      two_chunks
session-IsOffer = record {
  platform = demo-Succeeds;
  digest_sized = length-replicate {A = ℕ} 32 7;
  digest_bytes = omega arith;
  chunks = two_chunks-IsByteChunk 1008 (omega arith);
  not_empty = omega arith;
  fits = omega arith;
  small = omega arith;
  numbers = λ i h. omega arith;
}

session_update_example :
    IsUpdated demo_env
      (session_channel demo_env demo-ShaSized device_key)
      in_session
      update_partition
      two_chunks
      1
      (Loop.receive demo_env in_session (
        update_stream demo_env
          (session_channel demo_env demo-ShaSized device_key)
          1
          image_digest
          two_chunks))
session_update_example =
    session_update demo_env device_key update_partition image_digest 1 two_chunks in_session
      demo-ShaSized session-IsOffer in_session-IsInSession refl
