-- ===== src/Task.antt =====
-- src/task.rs: tasks, wakers and the executor.
pub mod Defs
pub mod Wakes
pub mod Invariant
pub mod Loop
pub mod Termination
pub mod Join
pub mod Joining
pub mod React
pub mod Reacting
pub mod Safety
pub mod Blocks
pub mod Somewhere
pub mod Owing
pub mod Blocking
pub mod Jobs
pub mod Scenarios
