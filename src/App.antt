-- ===== src/App.antt =====
-- The application of example-tftp-app/src/main.rs: its command line and its client.
pub mod Args
pub mod Cache
pub mod Fetch
pub mod Server
