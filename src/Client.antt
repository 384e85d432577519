-- ===== src/Client.antt =====
-- `TFTPClient` of client.rs, which is the client and the server.
pub mod Confined
pub mod Files
pub mod Idle
pub mod Missing
pub mod Requests
pub mod Serving
