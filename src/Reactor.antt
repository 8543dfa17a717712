-- ===== src/Reactor.antt =====
-- src/reactor/: handles, stores of results, the ring, and the reactor as a whole.
pub mod Io
pub mod Result
pub mod Ring
pub mod Lane
pub mod System
