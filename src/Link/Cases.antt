-- ===== src/Link/Cases.antt =====
-- The ways through the set-up of the UART in `ota_link_start_with_config` of ota_link.c.
use esp32_ota_link.Base.{◌≡◌, ◌∷◌, none, some, true, false, not, if_cases}
use esp32_ota_link.Idf.{
  Env, History, EspErr, is_ok, uart_installed, uart_configured, uart_pins_set, uart_deleted,
}
use esp32_ota_link.Link.{Link, uart_transport, with_history, start_task, start_uart}

-- The results of the three calls, each with the history before it.
module _ (env : Env) (l : Link) where
  abbrev pub install_err : EspErr
  install_err = env.uart_driver_install l.app.history l.config.uart_port l.config.rx_buffer_size

  abbrev pub installing : History
  installing = uart_installed l.config.uart_port l.config.rx_buffer_size install_err ∷ l.app.history

  abbrev pub config_err : EspErr
  config_err = env.uart_param_config installing l.config.uart_port l.config.baud_rate

  abbrev pub configuring : History
  configuring = uart_configured l.config.uart_port l.config.baud_rate config_err ∷ installing

  abbrev pub pin_err : EspErr
  pin_err = env.uart_set_pin configuring l.config.uart_port l.config.pins

  abbrev pub connecting : History
  connecting = uart_pins_set l.config.uart_port pin_err ∷ configuring

  -- The device with its UART set up.
  abbrev pub connected : Link
  connected = record (with_history l connecting) {
    config = record l.config {
      transport = some uart_transport;
      transport_context = l.config.uart_port;
    };
  }

  pub start_uart_cases :
      (P : Link × EspErr → Type 0)
      → (not (is_ok install_err) ≡ true → P (with_history l installing, install_err))
      → (not (is_ok install_err) ≡ false
          → not (is_ok config_err) ≡ true
          → P (with_history l (uart_deleted l.config.uart_port ∷ configuring), config_err))
      → (not (is_ok install_err) ≡ false
          → not (is_ok config_err) ≡ false
          → not (is_ok pin_err) ≡ true
          → P (with_history l (uart_deleted l.config.uart_port ∷ connecting), pin_err))
      → (not (is_ok install_err) ≡ false → P (start_task env connected none))
      → P (start_uart env l)
  unfolding start_uart
  start_uart_cases P installs configures pins starts =
      if_cases P (not (is_ok install_err)) installs (λ e1.
        if_cases P (not (is_ok config_err)) (configures e1)
          (λ e2. if_cases P (not (is_ok pin_err)) (pins e1 e2) (λ e3. starts e1)))
