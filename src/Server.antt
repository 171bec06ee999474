-- ===== src/Server.antt =====
-- src/server.rs: the HTTP service before the store. The crate rmcp, which dispatches the messages of
-- MCP and keeps sessions of its own, is a parameter.
pub mod Http
pub mod Auth
pub mod Guard
pub mod Finish
pub mod Tools
pub mod State
pub mod World
