-- ===== src/Examples.antt =====
-- examples/: programs that use the library.
pub mod WebServer
pub mod Echo
