-- ===== src/Reactor/Result.antt =====
-- src/reactor/uring/result.rs: where completions wait until their future is polled.
pub mod Oneshot
pub mod Multishot
mod Store
unfoldable pub use Store.*
