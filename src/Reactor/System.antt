-- ===== src/Reactor/System.antt =====
-- The reactor with the handles of all futures: every sequence of polls, drops and completions.
pub mod Defs
pub mod Lanes
pub mod Invariant
pub mod OneshotSteps
pub mod MultishotSteps
pub mod Completions
pub mod Safety
pub mod Delivery
pub mod Streams
pub mod Overflow
