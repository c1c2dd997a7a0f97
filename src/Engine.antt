-- ===== src/Engine.antt =====
-- The C++ engine, engine/src.
pub mod Action
pub mod BatchQueue
pub mod Board
pub mod Vcf
pub mod Mcts
pub mod RandomEvaluator
pub mod SelfPlay
