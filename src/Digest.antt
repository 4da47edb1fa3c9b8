-- ===== src/Digest.antt =====
-- internal/digest.
pub mod Schedule
