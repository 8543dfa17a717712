-- ===== src/Reactor/Io.antt =====
-- src/reactor/uring/io/: the value of a completion, and the two kinds of I/O handle.
pub mod Value
pub mod Oneshot
pub mod Multishot
