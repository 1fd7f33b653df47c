-- ===== src/Idf.antt =====
-- What the component calls of ESP-IDF and FreeRTOS, as parameters. A call's result is a function
-- of all calls before it, so that the platform may answer in any way, and differently each time.
-- Each call that has an effect leaves an `Event` with its arguments and its result.
pub mod Traffic
use esp32_ota_link.Base.{ℕ, List, Bool, Option}

-- `esp_err_t`: the values that the code names, and the others.
pub data EspErr : Type 0 where
  esp_ok esp_err_invalid_arg esp_err_invalid_state esp_err_no_mem : EspErr
  esp_err_nvs_no_free_pages esp_err_nvs_new_version_found esp_err_nvs_not_found : EspErr
  esp_err_other : ℕ → EspErr

-- `err == ESP_OK`.
abbrev pub is_ok : EspErr → Bool
is_ok esp_ok = Bool.true
is_ok _ = Bool.false

-- The fields of `esp_partition_t` that the code reads.
pub record Partition : Type 0 where
  pub label : List ℕ
  pub kind : ℕ
  pub subtype : ℕ
  pub size : ℕ

-- Where `s_write` sends bytes: the built-in UART writer of protocol.c, that of ota_link.c, or
-- the callback of a custom transport with its context (pointers are numbers).
pub data Writer : Type 0 where
  protocol_uart link_uart : ℕ → Writer
  custom : ℕ → ℕ → Writer

-- `esp_ota_img_states_t`; `img_other` is any other value.
pub data ImgState : Type 0 where
  img_new img_pending_verify img_valid img_invalid img_aborted img_undefined img_other : ImgState

-- `esp_chip_model_t`; `chip_other` is any other value.
pub data ChipModel : Type 0 where
  esp32 esp32s2 esp32s3 esp32c2 esp32c3 esp32c5 esp32c6 esp32c61 esp32h2 esp32h21 : ChipModel
  esp32h4 esp32p4 esp32s31 posix_linux chip_other : ChipModel

-- The texts of `esp_app_desc_t` that the code reads, without the terminating zero.
pub record AppDescription : Type 0 where
  pub version : List ℕ
  pub project_name : List ℕ
  pub date : List ℕ
  pub idf_ver : List ℕ

-- The four pin numbers of `uart_set_pin`, as the bit patterns of their `int`s.
pub record UartPins : Type 0 where
  pub tx : ℕ
  pub rx : ℕ
  pub rts : ℕ
  pub cts : ℕ

-- The tasks that the component and the example application create.
pub data Task : Type 0 where
  ota_link_task mark_valid_task app_health_task : Task

pub data Event : Type 0 where
  wrote : Writer → List ℕ → Event
  filled_random : List ℕ → Event
  ota_began : Option Partition → ℕ → ℕ → EspErr → Event
  ota_wrote : ℕ → List ℕ → EspErr → Event
  ota_ended : ℕ → EspErr → Event
  ota_aborted : ℕ → EspErr → Event
  hashed : Option Partition → EspErr → List ℕ → Event
  boot_set : Option Partition → EspErr → Event
  delayed : ℕ → Event
  restarted : Event
  rolled_back : EspErr → Event
  marked_valid : EspErr → Event
  nvs_stored : ℕ → ℕ → EspErr → Event
  nvs_committed : ℕ → EspErr → Event
  nvs_closed : ℕ → Event
  uart_installed : ℕ → ℕ → EspErr → Event
  uart_configured : ℕ → ℕ → EspErr → Event
  uart_pins_set : ℕ → EspErr → Event
  uart_deleted : ℕ → Event
  task_created : Task → Bool → Event
  task_deleted : Task → Event

-- The calls of the past, the newest first.
abbrev pub History : Type 0
History = List Event

-- The answers of the platform.
pub record Env : Type 0 where
  -- `esp_sha(SHA2_256, …)`.
  pub sha : List ℕ → List ℕ
  -- `esp_fill_random`, at the number of bytes asked for.
  pub fill_random : History → ℕ → List ℕ
  -- `esp_ota_get_next_update_partition(NULL)`.
  pub next_update_partition : History → Option Partition
  -- `esp_ota_begin`: the result and the handle.
  pub ota_begin : History → Option Partition → ℕ → EspErr × ℕ
  -- `esp_ota_write`.
  pub ota_write : History → ℕ → List ℕ → EspErr
  -- `esp_ota_end`.
  pub ota_end : History → ℕ → EspErr
  -- `esp_ota_abort`.
  pub ota_abort : History → ℕ → EspErr
  -- `esp_partition_get_sha256`: the result and the digest.
  pub partition_sha256 : History → Option Partition → EspErr × List ℕ
  -- `esp_ota_set_boot_partition`.
  pub set_boot_partition : History → Option Partition → EspErr
  -- `esp_ota_check_rollback_is_possible`.
  pub rollback_possible : History → Bool
  -- `esp_ota_mark_app_invalid_rollback_and_reboot`; it returns only on failure.
  pub mark_invalid_and_reboot : History → EspErr
  -- `esp_ota_mark_app_valid_cancel_rollback`.
  pub mark_valid : History → EspErr
  -- `esp_ota_get_running_partition` and `esp_ota_get_boot_partition`.
  pub running_partition : History → Option Partition
  pub boot_partition : History → Option Partition
  -- `esp_ota_get_state_partition`: the result, and the state if it was written.
  pub state_partition : History → Option Partition → EspErr × Option ImgState
  -- `esp_app_get_description` and the model of `esp_chip_info`.
  pub app_description : History → Option AppDescription
  pub chip_model : History → ChipModel
  -- `esp_timer_get_time` and `heap_caps_get_free_size`.
  pub timer_us : History → ℕ
  pub free_heap : History → ℕ
  -- What the iterator of `esp_partition_find` for all app partitions gives, in order.
  pub app_partitions : History → List (Option Partition)
  -- ESP_PARTITION_TYPE_APP, ESP_PARTITION_SUBTYPE_APP_OTA_0 and …_OTA_15.
  pub partition_type_app : ℕ
  pub ota_subtype_min : ℕ
  pub ota_subtype_max : ℕ
  -- The calls of NVS; `nvs_get_u32` gives the value if it was written.
  pub nvs_flash_init : History → EspErr
  pub nvs_open : History → EspErr × ℕ
  pub nvs_get_u32 : History → ℕ → EspErr × Option ℕ
  pub nvs_set_u32 : History → ℕ → ℕ → EspErr
  pub nvs_commit : History → ℕ → EspErr
  -- UART_NUM_0, and UART_PIN_NO_CHANGE as a bit pattern.
  pub uart_num_0 : ℕ
  pub uart_pin_no_change : ℕ
  -- The calls of the UART driver, at the port.
  pub uart_driver_install : History → ℕ → ℕ → EspErr
  pub uart_param_config : History → ℕ → ℕ → EspErr
  pub uart_set_pin : History → ℕ → UartPins → EspErr
  -- `xTaskCreate(…) == pdPASS`, and the handle.
  pub task_create : History → Task → Bool × ℕ
