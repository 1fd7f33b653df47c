-- ===== src/Protocol/Sent.antt =====
-- What `protocol_send_packet` of protocol.c does to the world outside: one write.
use esp32_ota_link.Base.{ℕ, ◌+◌, ◌≡◌, refl, ap, ◌∙◌, List, ◌∷◌, take, Option, none, some}
use esp32_ota_link.Idf.{History, Writer}
use esp32_ota_link.Idf.Traffic.{writes, resets, IsSilent}
use esp32_ota_link.Protocol.Wire.{header_size, crc_size}
use esp32_ota_link.Protocol.Sender.{
  Sender, ensure_writer, fill_buffer, write_out, set_writer, set_uart_port, send_packet,
}

-- `s_write` is set when `protocol_send_packet` calls it.
write_out-ensure_writer :
    (port : ℕ) (write : Option Writer) (xs bytes : List ℕ) (h : History)
    → let h' =
        write_out
          (ensure_writer (record { uart_port = port; write = write; tx_buffer = xs }))
          bytes
          h in
      (writes h' ≡ bytes ∷ writes h) × (resets h' ≡ resets h)
unfolding ensure_writer write_out set_uart_port set_writer
write_out-ensure_writer port none xs bytes h = (refl, refl)
write_out-ensure_writer port (some w) xs bytes h = (refl, refl)

module _ (t : Sender) (command sequence : ℕ) (payload : Option (List ℕ)) (n : ℕ) where
  abbrev filled : List ℕ
  filled = fill_buffer t.tx_buffer command sequence payload n

  -- What `protocol_send_packet` puts on the transport: one frame, whatever was called before.
  abbrev pub sent_bytes : List ℕ
  sent_bytes =
      take (header_size + n + crc_size) (ensure_writer (record t { tx_buffer = filled })).tx_buffer

-- Exactly one frame was written since, by one `protocol_send_packet` with this sequence number.
pub record IsReply (t : Sender) (sequence : ℕ) (h h' : History) : Type 0 where
  pub command : ℕ
  pub payload : Option (List ℕ)
  pub size : ℕ
  pub said : writes h' ≡ sent_bytes t command sequence payload size ∷ writes h
  pub no_reset : resets h' ≡ resets h

module _ (t : Sender) (command sequence : ℕ) (payload : Option (List ℕ)) (n : ℕ) where
  pub writes-send_packet :
      (h : History)
      → writes (send_packet t command sequence payload n h).1
        ≡ sent_bytes t command sequence payload n ∷ writes h
  unfolding send_packet
  writes-send_packet h =
      (write_out-ensure_writer t.uart_port t.write (filled t command sequence payload n)
        (sent_bytes t command sequence payload n) h).0

  pub resets-send_packet :
      (h : History) → resets (send_packet t command sequence payload n h).1 ≡ resets h
  unfolding send_packet
  resets-send_packet h =
      (write_out-ensure_writer t.uart_port t.write (filled t command sequence payload n)
        (sent_bytes t command sequence payload n) h).1

  pub send_packet-IsReply :
      (h : History) → IsReply t sequence h (send_packet t command sequence payload n h).1
  send_packet-IsReply h = record {
    command = command;
    payload = payload;
    size = n;
    said = writes-send_packet h;
    no_reset = resets-send_packet h;
  }

-- A reply after calls that send nothing is a reply to what was before them.
pub IsReply-after :
    (t : Sender) (sequence : ℕ) (h h' h'' : History)
    → IsSilent h h'
    → IsReply t sequence h' h''
    → IsReply t sequence h h''
IsReply-after t sequence h h' h'' q r = record {
  command = r.command;
  payload = r.payload;
  size = r.size;
  said = r.said ∙ ap (λ ws. sent_bytes t r.command sequence r.payload r.size ∷ ws) q.no_write;
  no_reset = r.no_reset ∙ q.no_reset;
}
