-- ===== src/Portal.antt =====
-- internal/application/portal.
pub mod Types
pub mod Hub
mod Tests
