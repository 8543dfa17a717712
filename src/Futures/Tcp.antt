-- ===== src/Futures/Tcp.antt =====
-- src/futures/tcp.rs: listeners and streams.
pub mod Defs
pub mod Sockets
pub mod Connects
