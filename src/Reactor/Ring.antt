-- ===== src/Reactor/Ring.antt =====
-- src/reactor/uring.rs: `ReactorInner` and `IoCompletionIter`.
pub mod Defs
pub mod Submit
pub mod Complete
pub mod Links
