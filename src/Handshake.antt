-- ===== src/Handshake.antt =====
-- The crate `handshake`: the handshake's states, its run over a stream, and the messages behind it.
pub mod Error
pub mod Version
pub mod Noise
pub mod States
pub mod Run
pub mod Messages
