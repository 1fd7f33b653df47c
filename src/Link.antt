-- ===== src/Link.antt =====
-- The component's life cycle: firmware/components/ota_link/src/ota_link.c and include/ota_link.h.
-- `Validate` has the confirmation of the running image; here are the start and the command loop.
pub mod Validate
pub mod Reset
pub mod Start
pub mod Tasks
pub mod Run
pub mod Loop
pub mod Noise
pub mod Channel
pub mod Arrival
pub mod Serve
pub mod Update
pub mod Delivery
pub mod Session
pub mod Whole
pub mod Concurrent
pub mod Cases
pub mod Untouched
pub mod Examples
use esp32_ota_link.Base.{
  ℕ, List, [], ◌∷◌, Option, none, some, Bool, true, false, not, ◌&&◌, ◌||◌, ltb, ◌==◌,
  if◌then◌else◌,
}
use esp32_ota_link.Idf.{
  Env, History, EspErr, esp_ok, esp_err_invalid_arg, esp_err_invalid_state, esp_err_no_mem, is_ok,
  UartPins, Writer, link_uart, custom, ota_link_task, mark_valid_task, task_created, delayed,
  uart_installed, uart_configured, uart_pins_set, uart_deleted,
}
use esp32_ota_link.Idf.Traffic.{is_stopped}
use esp32_ota_link.Protocol.Wire.{Packet}
use esp32_ota_link.Protocol.Parser.{Parser, Fed, parser_init, feed}
use esp32_ota_link.Protocol.Sender.{set_writer}
use esp32_ota_link.Auth.State.{configure, key_max_size}
use esp32_ota_link.Info.Boot.{init}
use esp32_ota_link.Commands.{App, handle}
use Validate.{running_app_needs_validation}

-- `ota_link_transport_t` behind its pointer: NULL is `none` in the configuration; the built-in
-- UART table, or a custom one with its two callbacks (NULL is `none`).
pub data Transport : Type 0 where
  uart_transport : Transport
  custom_transport : Option ℕ → Option ℕ → Transport

-- `ota_link_config_t`.
pub record Config : Type 0 where
  pub uart_port : ℕ
  pub baud_rate : ℕ
  pub pins : UartPins
  pub rx_buffer_size : ℕ
  pub task_stack_size : ℕ
  pub task_priority : ℕ
  pub auto_mark_app_valid : Bool
  pub auto_mark_valid_delay_ms : ℕ
  pub auth_key : Option (List ℕ)
  pub auth_key_len : ℕ
  pub require_authentication : Bool
  pub transport : Option Transport
  pub transport_context : ℕ

-- The statics of ota_link.c, and those of the other components.
pub record Link : Type 0 where
  pub app : App
  pub parser : Parser
  pub packet : Packet
  pub config : Config
  pub task_handle : Option ℕ
  pub mark_valid_task_handle : Option ℕ

abbrev pub with_history : Link → History → Link
with_history l h = record l { app = record l.app { history = h } }

-- The test on the key when authentication is required.
pub key_is_invalid : Config → Bool
key_is_invalid c =
    c.require_authentication
    && (missing c.auth_key || c.auth_key_len == 0 || ltb key_max_size c.auth_key_len)
  where
    missing : Option (List ℕ) → Bool
    missing none = true
    missing (some key) = false

-- The write callback and its context as the writer, given the configuration after the start has
-- filled in the UART table.
pub writer_of : Config → Option Transport → Option Writer
writer_of c none = none
writer_of c (some uart_transport) = some (link_uart c.transport_context)
writer_of c (some (custom_transport read none)) = none
writer_of c (some (custom_transport read (some write))) = some (custom write c.transport_context)

-- `protocol_set_writer(s_config.transport->write, s_config.transport_context)`.
pub install_writer : Link → Option Writer → Link
install_writer l w = record l { app = record l.app { sender = set_writer l.app.sender w } }

-- What the transport's `read` of one byte gives: the byte, nothing in time, or an error.
pub data Read : Type 0 where
  byte : ℕ → Read
  timed_out failed : Read

module _ (env : Env) where
  -- The second task, created on request.
  pub start_mark_valid : Link → Link × EspErr
  unfolding running_app_needs_validation
  start_mark_valid l =
      let h = l.app.history in
      let (created, handle) = env.task_create h mark_valid_task in
      let l' = with_history l (task_created mark_valid_task created ∷ h) in
      if l.config.auto_mark_app_valid && running_app_needs_validation env h
      then (if created then record l' { mark_valid_task_handle = some handle } else l', esp_ok)
      else (l, esp_ok)

  -- The clean-up when the command task cannot be created; `given` is the caller's transport.
  pub release_uart : Link → Option Transport → Link
  release_uart l none = with_history l (uart_deleted l.config.uart_port ∷ l.app.history)
  release_uart l (some t) = l

  -- From `protocol_set_writer` on.
  pub start_task : Link → Option Transport → Link × EspErr
  unfolding install_writer writer_of start_mark_valid release_uart
  start_task l given =
      let l1 = install_writer l (writer_of l.config l.config.transport) in
      let h = l1.app.history in
      let (created, handle) = env.task_create h ota_link_task in
      let l2 = with_history l1 (task_created ota_link_task created ∷ h) in
      if not created
      then (record (release_uart l2 given) { task_handle = none }, esp_err_no_mem)
      else start_mark_valid (record l2 { task_handle = some handle })

  -- `transport == NULL`: the UART driver is installed and set up; each failure after the
  -- installation deletes it.
  pub start_uart : Link → Link × EspErr
  unfolding start_task
  start_uart l =
      let c = l.config in
      let h0 = l.app.history in
      let install_err = env.uart_driver_install h0 c.uart_port c.rx_buffer_size in
      let h1 = uart_installed c.uart_port c.rx_buffer_size install_err ∷ h0 in
      let config_err = env.uart_param_config h1 c.uart_port c.baud_rate in
      let h2 = uart_configured c.uart_port c.baud_rate config_err ∷ h1 in
      let pin_err = env.uart_set_pin h2 c.uart_port c.pins in
      let h3 = uart_pins_set c.uart_port pin_err ∷ h2 in
      let filled = record c { transport = some uart_transport; transport_context = c.uart_port } in
      if not (is_ok install_err)
      then (with_history l h1, install_err)
      else if not (is_ok config_err)
      then (with_history l (uart_deleted c.uart_port ∷ h2), config_err)
      else if not (is_ok pin_err)
      then (with_history l (uart_deleted c.uart_port ∷ h3), pin_err)
      else start_task (record (with_history l h3) { config = filled }) none

  -- The three forms of the transport.
  pub start_transport : Link → Option Transport → Link × EspErr
  unfolding start_uart
  start_transport l none = start_uart l
  start_transport l (some uart_transport) = start_task l (some uart_transport)
  start_transport l (some (custom_transport none write)) = (l, esp_err_invalid_arg)
  start_transport l (some (custom_transport (some read) none)) = (l, esp_err_invalid_arg)
  start_transport l (some (custom_transport (some read) (some write))) =
      start_task l (some (custom_transport (some read) (some write)))

  -- From `s_config = *config` on.
  pub start_configured : Link → Config → Link × EspErr
  unfolding start_transport key_is_invalid
  start_configured l c =
      let (boot_count, h) = init env l.app.history l.app.boot_count in
      let auth = configure c.auth_key c.auth_key_len c.require_authentication in
      let app = record l.app { auth = auth; boot_count = boot_count; history = h } in
      if key_is_invalid c
      then (record l { config = c }, esp_err_invalid_arg)
      else start_transport (record l { config = c; app = app }) c.transport

  -- `ota_link_start_with_config`; `none` is a NULL configuration.
  unfoldable pub start_with_config : Link → Option Config → Link × EspErr
  unfolding start_configured
  start_with_config l none = (l, esp_err_invalid_arg)
  start_with_config l (some c) = elim l.task_handle [
    | none ↦ start_configured l c
    | some running ↦ (l, esp_err_invalid_state)
  ]

  -- `if (read == 1 && protocol_parser_feed(…)) commands_handle_packet(…)`.
  pub deliver : Link → Fed → Link
  deliver l (parser, packet, true) = record l {
    parser = parser;
    packet = packet;
    app = handle env l.app packet;
  }
  deliver l (parser, packet, false) = record l { parser = parser; packet = packet }

  -- One round of the loop of `ota_link_task`.
  unfoldable pub task_step : Link → Read → Link
  unfolding deliver
  task_step l (byte b) = deliver l (feed l.parser b l.packet)
  task_step l timed_out = l
  task_step l failed = with_history l (delayed 10 ∷ l.app.history)

  -- The loop, for as long as the transport gives results and the device does not restart.
  unfoldable pub task_loop : Link → List Read → Link
  unfolding task_step
  task_loop l [] = l
  task_loop l (r ∷ rs) =
      let rest = task_loop (task_step l r) rs in if is_stopped l.app.history then l else rest

  -- `ota_link_task`.
  unfoldable pub run_task : Link → List Read → Link
  unfolding task_loop
  run_task l reads = task_loop (record l { parser = parser_init l.parser }) reads
