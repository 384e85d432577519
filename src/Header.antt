-- ===== src/Header.antt =====
-- src/header.rs: the packets, and their encoding to and from bytes.
pub mod Types
pub mod Rw
pub mod BlockNumber
pub mod Data
pub mod Ack
pub mod Failed
pub mod Packet
