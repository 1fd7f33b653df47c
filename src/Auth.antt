-- ===== src/Auth.antt =====
-- Link authentication: firmware/components/ota_link/src/auth.h and auth.c.
-- `Hmac` has the keyed hashes, `State` the session and the handshake, `Replay` the replay cache
-- with the signed responses.
pub mod Hmac
pub mod State
pub mod Replay
pub mod Equal
pub mod Quiet
pub mod Reply
pub mod Cache
pub mod Retry
pub mod Handshake
pub mod Accept
pub mod Host
pub mod Examples
