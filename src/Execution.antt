-- ===== src/Execution.antt =====
-- The execution package (src/execution): domain models and lifecycle tables.
pub mod Models
pub mod Orders
pub mod StateMachine
pub mod Ids
pub mod Service
