-- ===== src/Action.antt =====
-- internal/action: what a notification holds, and which receivers get it.
pub mod Http
pub mod Route
