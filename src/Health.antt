-- ===== src/Health.antt =====
-- The health package.
pub mod Observer
