-- ===== src/Tests.antt =====
-- Tests of the model on concrete inputs, and the theorems at these inputs.
pub mod Fixture
pub mod Parts
pub mod Calls
pub mod Service
pub mod Ledger
