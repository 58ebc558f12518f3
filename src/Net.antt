-- ===== src/Net.antt =====
-- The network layer: byte codecs, encryption and message buffers.
pub mod Bytes
pub mod Xtea
pub mod Checksum
pub mod Buffer
pub mod Message
pub mod Protocol
