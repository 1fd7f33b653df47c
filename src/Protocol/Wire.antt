-- ===== src/Protocol/Wire.antt =====
-- protocol.h: the constants of the wire format, the error codes, the decoded packet; and the
-- little-endian reads and writes of protocol.c.
use esp32_ota_link.Base.{ℕ, ◌+◌, List, bit_and, bit_or, u16, u32, ◌<<<◌, ◌>>>◌, get_or, set, take}

abbrev pub magic_0 : ℕ
magic_0 = 0xaa

abbrev pub magic_1 : ℕ
magic_1 = 0x55

abbrev pub version_1 : ℕ
version_1 = 1

abbrev pub max_payload : ℕ
max_payload = 1024

-- `sizeof(parser->buffer)`: 2 + 1 + 1 + 2 + 2 + PROTOCOL_MAX_PAYLOAD + 4.
abbrev pub buffer_size : ℕ
buffer_size = 1036

abbrev pub header_size : ℕ
header_size = 8

abbrev pub crc_size : ℕ
crc_size = 4

-- `protocol_command_t`. A packet carries the command as a byte, so the names are numbers.
abbrev pub cmd_ping : ℕ
cmd_ping = 0x01

abbrev pub cmd_get_info : ℕ
cmd_get_info = 0x02

abbrev pub cmd_reboot : ℕ
cmd_reboot = 0x03

abbrev pub cmd_rollback : ℕ
cmd_rollback = 0x04

abbrev pub cmd_auth : ℕ
cmd_auth = 0x05

abbrev pub cmd_ota_begin : ℕ
cmd_ota_begin = 0x10

abbrev pub cmd_ota_data : ℕ
cmd_ota_data = 0x11

abbrev pub cmd_ota_end : ℕ
cmd_ota_end = 0x12

abbrev pub cmd_ota_abort : ℕ
cmd_ota_abort = 0x13

abbrev pub cmd_ack : ℕ
cmd_ack = 0xf0

abbrev pub cmd_nack : ℕ
cmd_nack = 0xf1

abbrev pub cmd_info : ℕ
cmd_info = 0xf2

-- `protocol_error_t`.
pub data ProtocolError : Type 0 where
  err_ok err_unknown_command err_invalid_packet err_crc_error err_invalid_length : ProtocolError
  err_busy err_auth_required err_ota_already_started err_ota_not_started : ProtocolError
  err_ota_invalid_offset err_ota_flash_error err_ota_hash_mismatch : ProtocolError
  err_ota_invalid_image err_ota_size_error err_rollback_not_available : ProtocolError

abbrev pub error_code : ProtocolError → ℕ
error_code err_ok = 0x00
error_code err_unknown_command = 0x01
error_code err_invalid_packet = 0x02
error_code err_crc_error = 0x03
error_code err_invalid_length = 0x04
error_code err_busy = 0x05
error_code err_auth_required = 0x06
error_code err_ota_already_started = 0x10
error_code err_ota_not_started = 0x11
error_code err_ota_invalid_offset = 0x12
error_code err_ota_flash_error = 0x13
error_code err_ota_hash_mismatch = 0x14
error_code err_ota_invalid_image = 0x15
error_code err_ota_size_error = 0x16
error_code err_rollback_not_available = 0x17

-- `protocol_packet_t`. `payload` is the whole array; the first `length` bytes of it are valid.
pub record Packet : Type 0 where
  pub version : ℕ
  pub command : ℕ
  pub sequence : ℕ
  pub length : ℕ
  pub payload : List ℕ

-- The valid bytes of the payload.
abbrev pub body : Packet → List ℕ
body p = take p.length p.payload

-- `data` is the pointer's view: the array from the element that it points at.
unfoldable pub read_le16 : List ℕ → ℕ
read_le16 xs = u16 (bit_or (get_or xs 0 0) (get_or xs 1 0 <<< 8))

unfoldable pub read_le32 : List ℕ → ℕ
read_le32 xs = u32 (
    bit_or (bit_or (bit_or (get_or xs 0 0) (get_or xs 1 0 <<< 8)) (get_or xs 2 0 <<< 16))
      (get_or xs 3 0 <<< 24))

-- `write_le16(&array[i], value)`.
unfoldable pub write_le16 : List ℕ → ℕ → ℕ → List ℕ
write_le16 xs i value = set (set xs i (bit_and value 0xff)) (i + 1) (bit_and (value >>> 8) 0xff)

-- `write_le32(&array[i], value)`.
unfoldable pub write_le32 : List ℕ → ℕ → ℕ → List ℕ
write_le32 xs i value =
    set
      (set (set (set xs i (bit_and value 0xff)) (i + 1) (bit_and (value >>> 8) 0xff)) (i + 2)
        (bit_and (value >>> 16) 0xff))
      (i + 3) (bit_and (value >>> 24) 0xff)
