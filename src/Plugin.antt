-- ===== src/Plugin.antt =====
-- The plugin SDK, plugin/include/plugin and plugin/src.
pub mod State
pub mod Difficulty
pub mod Player
pub mod HumanPlayer
pub mod MatchCoordinator
pub mod Tests
