-- ===== src/Link/Reset.antt =====
-- The statics of the component after a reset, OTA_LINK_DEFAULT_CONFIG of include/ota_link.h, and
-- `ota_link_start` of ota_link.c.
use esp32_ota_link.Base.{none, some, false, replicate}
use esp32_ota_link.Idf.{Env, History, EspErr}
use esp32_ota_link.Protocol.Wire.{buffer_size, max_payload}
use esp32_ota_link.Ota
use esp32_ota_link.Auth.State
use esp32_ota_link.Link.{Link, Config, start_with_config}

-- A zeroed `ota_link_config_t`.
abbrev zeroed_config : Config
zeroed_config = record {
  uart_port = 0;
  baud_rate = 0;
  pins = record { tx = 0; rx = 0; rts = 0; cts = 0 };
  rx_buffer_size = 0;
  task_stack_size = 0;
  task_priority = 0;
  auto_mark_app_valid = false;
  auto_mark_valid_delay_ms = 0;
  auth_key = none;
  auth_key_len = 0;
  require_authentication = false;
  transport = none;
  transport_context = 0;
}

module _ (env : Env) where
  -- Statics are zero, but for `s_uart_port`.
  abbrev pub at_reset : History → Link
  at_reset h = record {
    app = record {
      auth = State.cleared;
      ota = Ota.cleared;
      sender = record {
        uart_port = env.uart_num_0;
        write = none;
        tx_buffer = replicate buffer_size 0;
      };
      history = h;
      info_payload = replicate max_payload 0;
      boot_count = 0;
    };
    parser = record { buffer = replicate buffer_size 0; length = 0 };
    packet = record {
      version = 0;
      command = 0;
      sequence = 0;
      length = 0;
      payload = replicate max_payload 0;
    };
    config = zeroed_config;
    task_handle = none;
    mark_valid_task_handle = none;
  }

  -- OTA_LINK_DEFAULT_CONFIG().
  abbrev pub default_config : Config
  default_config = record {
    uart_port = env.uart_num_0;
    baud_rate = 115200;
    pins = record {
      tx = env.uart_pin_no_change;
      rx = env.uart_pin_no_change;
      rts = env.uart_pin_no_change;
      cts = env.uart_pin_no_change;
    };
    rx_buffer_size = 2048;
    task_stack_size = 8192;
    task_priority = 5;
    auto_mark_app_valid = false;
    auto_mark_valid_delay_ms = 5000;
    auth_key = none;
    auth_key_len = 0;
    require_authentication = false;
    transport = none;
    transport_context = 0;
  }

  -- `ota_link_start`.
  unfoldable pub start : Link → Link × EspErr
  start l = start_with_config env l (some default_config)
