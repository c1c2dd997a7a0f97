-- ===== src/Engine/Mcts/Returns.antt =====
-- MCTS::Search of engine/src/mcts.cpp gives a policy: no null pointer, no missing evaluation.
pub mod Pick
pub mod Found
pub mod Rounds
pub mod Whole
