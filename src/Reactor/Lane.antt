-- ===== src/Reactor/Lane.antt =====
-- What the reactor promises of one kind of I/O, apart from its slabs: operations in flight, result
-- slots, and the handles of futures. The stores of result.rs and the handles of io/ refine it.
pub mod Keeps
mod Spec
pub use Spec.*
