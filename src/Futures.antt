-- ===== src/Futures.antt =====
-- src/futures/: what the futures of the library do with their handles and with system calls.
pub mod SockAddr
pub mod Transfer
pub mod Files
pub mod Tcp
pub mod Timer
pub mod Events
pub mod Locks
pub mod Expiry
pub mod Reads
pub mod Datagrams
pub mod Tokens
pub mod Exclusion
pub mod Accepts
pub mod Actions
pub mod Udp
