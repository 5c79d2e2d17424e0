-- ===== src/Api.antt =====
-- The HTTP service's package (src/api).
pub mod Runtime
