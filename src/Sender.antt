-- ===== src/Sender.antt =====
-- src/send.rs: `SendFile`, the sending side of a transfer.
pub mod Blocks
pub mod Window
pub mod Drive
