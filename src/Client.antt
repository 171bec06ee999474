-- ===== src/Client.antt =====
-- src/client.rs: the client of the service, and the relay of `serve-stdio`.
pub mod Endpoint
pub mod Queue
pub mod Call
pub mod Stdio
