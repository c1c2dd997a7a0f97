-- ===== src/Engine/SelfPlay.antt =====
-- engine/src/self_play.h and self_play.cpp: games of the engine against itself. An evaluator is named
-- by a number, in place of its address, and `none` is an exception. Random numbers and the arithmetic
-- on doubles are parameters.
pub mod Sample
pub mod Run
pub mod Generate
pub mod Choice
pub mod Searches
pub mod Sound
pub mod Guard
pub mod Examples
mod Tests
use gomoku.Prelude.{ℕ, Bool, List, Option}
use gomoku.Prelude.Int.{ℤ}
use gomoku.Engine.Board.{Board, Result}
use gomoku.Engine.Mcts.Policy.{DirichletNoiseConfig}

pub record SelfPlayConfig {ℓ} (W : Type ℓ) : Type ℓ where
  pub simulations : ℤ
  pub batch_size : ℤ
  pub c_puct : W
  pub seed : ℕ
  pub keep_last_moves : ℤ
  pub dirichlet_noise : Option (DirichletNoiseConfig W)
  pub dirichlet_noise_plies : ℤ
  pub stochastic_action_plies : ℤ
  pub sample_actions : Bool

pub record PositionRecord {ℓ} (W : Type ℓ) : Type ℓ where
  pub board : Board
  pub policy : List W

pub record PlayedGame {ℓ} (W : Type ℓ) : Type ℓ where
  pub final_board : Board
  pub history : List (PositionRecord W)
  pub action_count : ℕ

pub record TrainingExample {ℓ} (W : Type ℓ) : Type ℓ where
  pub board : Board
  pub policy : List W
  pub value : W

pub record GameResult : Type 0 where
  pub result : Result
  pub action_count : ℕ
