-- ===== src/Uring.antt =====
-- The crate `io_uring` and the kernel behind it as an interface: what uring.rs and multishot.rs call,
-- with the behaviour that io_uring(7) documents. `Uring/Scripted.antt` and `Uring/Eager.antt` have values that meet it.
pub mod Scripted
pub mod Eager
mod Api
pub use Api.*
