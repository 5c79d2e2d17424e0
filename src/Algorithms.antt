-- ===== src/Algorithms.antt =====
-- The pure decision helpers of the two algorithms (src/algorithms).
pub mod Chase
pub mod Twap
