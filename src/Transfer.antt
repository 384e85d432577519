-- ===== src/Transfer.antt =====
-- What the senders and the receiver share: a future beside the world, the lock, and the two
-- futures of client.rs that send one packet.
pub mod Session
pub mod SendData
pub mod SendError
