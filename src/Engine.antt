-- ===== src/Engine.antt =====
-- The execution engine (src/execution/engine.py).
pub mod ChildStatus
pub mod Exposure
pub mod Record
pub mod Terminal
pub mod Gates
pub mod Intervals
pub mod Fills
pub mod Session
pub mod Submit
pub mod Cancel
pub mod Refresh
pub mod Reconcile
pub mod Demand
pub mod Run
pub mod Lifecycle
pub mod Rounds
pub mod Summary
