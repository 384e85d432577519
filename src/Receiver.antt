-- ===== src/Receiver.antt =====
-- src/receive.rs: `ReceiveFile`, the receiving side of a transfer.
pub mod Storage
pub mod Data
pub mod Packets
pub mod Drive
