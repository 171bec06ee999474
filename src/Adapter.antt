-- ===== src/Adapter.antt =====
-- src/adapter.rs: the ledger of a thread, and the observation that a hook event becomes.
pub mod Rows
pub mod Observation
pub mod Handle
pub mod Query
