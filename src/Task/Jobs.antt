-- ===== src/Task/Jobs.antt =====
-- Tasks of src/task.rs that await operations of src/reactor/: the executor over the whole reactor.
pub mod Defs
pub mod Polls
pub mod Fair
pub mod Fitting
pub mod Keeps
pub mod Following
pub mod Turns
pub mod Wakings
pub mod Draining
pub mod Finishing
