-- ===== src/Protocol/Sender.antt =====
-- The sender of protocol.c: `protocol_set_writer`, `protocol_set_uart_port` and
-- `protocol_send_packet` with the static buffer that it fills.
use esp32_ota_link.Base.{
  ℕ, ◌+◌, ◌-◌, List, [], ◌∷◌, Option, none, some, ltb, if◌then◌else◌, set, take, drop, overwrite,
}
use esp32_ota_link.Idf.{Writer, protocol_uart, wrote, History}
use esp32_ota_link.Protocol.Wire.{
  magic_0, magic_1, version_1, header_size, crc_size, cmd_ack, cmd_nack, ProtocolError, err_ok,
  error_code, write_le16, write_le32,
}
use esp32_ota_link.Protocol.Crc.{protocol_crc32}

-- The statics `s_uart_port`, `s_write` with `s_write_context`, and `s_tx_buffer`.
pub record Sender : Type 0 where
  pub uart_port : ℕ
  pub write : Option Writer
  pub tx_buffer : List ℕ

-- `none` is a NULL callback.
unfoldable pub set_writer : Sender → Option Writer → Sender
set_writer s w = record s { write = w }

unfoldable pub set_uart_port : Sender → ℕ → Sender
unfolding set_writer
set_uart_port s port = set_writer (record s { uart_port = port }) (some (protocol_uart port))

-- The test `s_write == NULL` and the call under it.
unfoldable pub ensure_writer : Sender → Sender
unfolding set_uart_port
ensure_writer s = elim s.write [ none ↦ set_uart_port s s.uart_port | some w ↦ s ]

-- `(void)s_write(s_write_context, …)`: a NULL writer cannot be called.
unfoldable pub write_out : Sender → List ℕ → History → History
write_out s bytes h = elim s.write [ none ↦ h | some w ↦ wrote w bytes ∷ h ]

-- The test `length > 0 && payload != NULL` and the copy under it.
unfoldable pub copy_payload : List ℕ → Option (List ℕ) → ℕ → List ℕ
copy_payload buffer none length = buffer
copy_payload buffer (some payload) length =
    if ltb 0 length then overwrite buffer header_size (take length payload) else buffer

-- `s_tx_buffer` as `protocol_send_packet` fills it.
unfoldable pub fill_buffer : List ℕ → ℕ → ℕ → Option (List ℕ) → ℕ → List ℕ
unfolding copy_payload
fill_buffer buffer command sequence payload length =
    let fixed = set (set (set (set buffer 0 magic_0) 1 magic_1) 2 version_1) 3 command in
    let header = write_le16 (write_le16 fixed 4 sequence) 6 length in
    let filled = copy_payload header payload length in
    let crc = protocol_crc32 (drop 2 filled) (header_size - 2 + length) in
    write_le32 filled (header_size + length) crc

unfoldable pub send_packet : Sender → ℕ → ℕ → Option (List ℕ) → ℕ → History → Sender × History
unfolding fill_buffer ensure_writer write_out
send_packet s command sequence payload length h =
    let filled =
      ensure_writer
        (record s { tx_buffer = fill_buffer s.tx_buffer command sequence payload length }) in
    (filled, write_out filled (take (header_size + length + crc_size) filled.tx_buffer) h)

unfoldable pub send_ack : Sender → ℕ → History → Sender × History
unfolding send_packet
send_ack s sequence h = send_packet s cmd_ack sequence (some (error_code err_ok ∷ [])) 1 h

unfoldable pub send_nack : Sender → ℕ → ProtocolError → History → Sender × History
unfolding send_packet
send_nack s sequence error h = send_packet s cmd_nack sequence (some (error_code error ∷ [])) 1 h
