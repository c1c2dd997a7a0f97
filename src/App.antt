-- ===== src/App.antt =====
-- The desktop application, app/src.
pub mod BoardViewModel
pub mod ReplayController
pub mod Tests
