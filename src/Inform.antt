-- ===== src/Inform.antt =====
-- internal/inform: the TNBU packet codec, the heartbeat schedule and the controller clock.
pub mod Packet
pub mod Padding
pub mod Crypto
pub mod Codec
pub mod Schedule
pub mod Clock
