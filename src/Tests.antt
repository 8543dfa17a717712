-- ===== src/Tests.antt =====
-- Concrete runs: the theorems at inputs that meet their conditions, and tests.
mod Reactor
mod Streams
mod Task
mod Futures
mod Locks
mod Executor
mod Blocking
mod Jobs
mod WebServer
