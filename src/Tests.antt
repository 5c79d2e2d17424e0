-- ===== src/Tests.antt =====
-- The theorems applied at concrete inputs.
mod Samples
mod Tracker
mod Executions
mod Decisions
mod Rounds
mod Simulations
mod Summaries
mod Runtimes
