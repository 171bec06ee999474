-- ===== src/Store.antt =====
-- src/store.rs: the memory store, its SQLite tables and its operations.
pub mod Words
pub mod Hit
pub mod Tables
pub mod Keeps
pub mod Inversion
pub mod Exec
pub mod Rows
pub mod Put
pub mod Facts
pub mod Write
pub mod Lineage
pub mod Erase
pub mod Derived
pub mod Observe
pub mod Maintain
pub mod Read
pub mod Page
pub mod Cursor
pub mod Search
pub mod Open
pub mod Admit
pub mod Call
pub mod Stable
pub mod Tombstones
pub mod History
pub mod Reads
pub mod Atomic
pub mod Replay
pub mod Answers
pub mod Effects
pub mod Keyed
pub mod Invalidation
