-- ===== src/Examples/WebServer.antt =====
-- examples/web_server.rs: a server of files over HTTP.
pub mod Text
pub mod Response
pub mod Api
pub mod Request
pub mod Server
pub mod Bodies
pub mod Reading
pub mod Parsing
pub mod Serving
