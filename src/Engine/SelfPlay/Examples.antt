-- ===== src/Engine/SelfPlay/Examples.antt =====
-- The training examples of engine/src/self_play.cpp.
use gomoku.Prelude.{ℕ, ◌≤◌, ◌≡◌, List, [], ◌∷◌, length, Option, some}
use mathlib.Core.Option
use gomoku.Prelude.Int.{ℤ, pos, negsuc}
use gomoku.Prelude.Float.{Float}
use gomoku.Engine.Board.{Board, Seat, Result}
use gomoku.Engine.Board.Rules.Valid.{IsValid}
use gomoku.Engine.Mcts.Fits.Support.{LegalOnly}
use gomoku.Engine.SelfPlay.Sound.{IsWhole}
use gomoku.Engine.SelfPlay.{PositionRecord, PlayedGame, TrainingExample}

-- A position with a valid board and a policy of legal actions.
abbrev pub IsGood {ℓ} : {W : Type ℓ} ⦃f : Float W⦄ → PositionRecord W → Type ℓ
IsGood position = IsValid position.board × LegalOnly position.board position.policy

abbrev pub AllOf {ℓ ℓ'} : {A : Type ℓ} → (A → Type ℓ') → List A → Type ℓ'
AllOf P [] = Unit
AllOf P (x ∷ xs) = P x × AllOf P xs

-- What a result is worth to a seat: a win 1, a loss -1, and else 0.
abbrev pub Reward : Result → Seat → ℤ → Type 0
Reward Result.player_a_win Seat.a value = value ≡ pos 1
Reward Result.player_a_win Seat.b value = value ≡ negsuc 0
Reward Result.player_b_win Seat.a value = value ≡ negsuc 0
Reward Result.player_b_win Seat.b value = value ≡ pos 1
Reward _ seat value = value ≡ pos 0

-- An example with a valid board, a policy of legal actions, and the reward of a result for the seat to
-- move.
pub record IsLabelled {ℓ} {W : Type ℓ} ⦃f : Float W⦄ (result : Result) (example : TrainingExample W)
    : Type ℓ where
  pub valid : IsValid example.board
  pub only_legal : LegalOnly example.board example.policy
  pub reward : ℤ
  pub rewarded : Reward result example.board.current_player reward
  pub labelled : example.value ≡ f.of_int reward

-- The training examples of a game that was played to its end: at most `most`, each labelled by the
-- result of that game.
pub record IsTraining {ℓ} {W : Type ℓ} ⦃f : Float W⦄ (rng : ℕ → ℕ) (most : ℕ) (game : PlayedGame W)
    (examples : List (TrainingExample W)) : Type ℓ where
  pub whole : IsWhole rng game
  pub few : length examples ≤ most
  pub labels : AllOf (λ (x : TrainingExample W). IsLabelled game.final_board.result x) examples

module _ {ℓ} {W : Type ℓ} {E : Type 0} ⦃f : Float W⦄ (rng : ℕ → ℕ) where
  -- The examples and the world, of a game that was played.
  abbrev pub Trains : ℕ → Option (PlayedGame W × E) → List (TrainingExample W) × E → Type ℓ
  Trains most played (examples, world) =
      (game : PlayedGame W) × (played ≡ some (game, world)) × IsTraining rng most game examples
