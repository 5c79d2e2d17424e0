-- ===== src/Risk.antt =====
-- The risk package (src/risk): rounding to exchange steps and pre-trade validation.
pub mod DecimalMath
pub mod Validation
