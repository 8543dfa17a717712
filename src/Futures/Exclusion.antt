-- ===== src/Futures/Exclusion.antt =====
-- src/futures/mutex.rs with many tasks: the attempts to lock one mutex, in any order of steps.
pub mod Defs
pub mod Polls
pub mod Invariant
pub mod Safety
