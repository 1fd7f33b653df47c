-- ===== src/Protocol.antt =====
-- The wire protocol: firmware/components/ota_link/src/protocol.h and protocol.c.
-- The children hold the CRC, the little-endian fields, the streaming parser and the sender.
pub mod Wire
pub mod Crc
pub mod Fields
pub mod Frame
pub mod RoundTrip
pub mod Resync
pub mod Parser
pub mod Sender
pub mod Sent
pub mod Examples
