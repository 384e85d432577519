-- ===== src/Tests.antt =====
-- Concrete packets, senders and worlds, on which the theorems are applied.
pub mod ListBits
pub mod Headers
pub mod Sockets
pub mod Senders
pub mod Receivers
pub mod Clients
pub mod CommandLines
