-- ===== src/Engine/SelfPlay/Generate.antt =====
-- GenerateGame of engine/src/self_play.cpp: the training examples of a game.
use gomoku.Engine.SelfPlay.Run.{run_game}
use gomoku.Engine.SelfPlay.Sample.{Sampling}
use gomoku.Prelude.{
  ℕ, zero, suc, ◌-◌, Bool, true, List, [], ◌∷◌, if◌then◌else◌, length, min, Option, none, some,
}
use mathlib.Core.Option
use gomoku.Prelude.Int.{pos, pos_part, ◌==ℤ◌}
use gomoku.Prelude.Float.{Float}
use gomoku.Engine.Board.{Board}
use gomoku.Engine.Board.Play.{get_value_for_seat}
use gomoku.Engine.RandomEvaluator.{random_evaluator}
use gomoku.Engine.Mcts.Policy.{Random}
use gomoku.Engine.Mcts.Search.{Evaluator, Clock}
use gomoku.Engine.Mcts.Run.{Solvers}
use gomoku.Engine.SelfPlay.{SelfPlayConfig, PositionRecord, PlayedGame, TrainingExample}

-- The positions that are kept.
abbrev pub is_kept : Option (Board → Bool) → Board → Bool
is_kept none board = true
is_kept (some training_position_filter) board = training_position_filter board

abbrev pub keep_of {ℓ} : {W : Type ℓ} → SelfPlayConfig W → ℕ → ℕ
keep_of config positions =
    if config.keep_last_moves ==ℤ pos 0
    then positions
    else min (pos_part config.keep_last_moves) positions

abbrev pub skip {ℓ} : {A : Type ℓ} → ℕ → List A → List A
skip zero xs = xs
skip (suc n) [] = []
skip (suc n) (x ∷ xs) = skip n xs

module _ {ℓ} {W : Type ℓ} ⦃f : Float W⦄ where
  abbrev pub make_example : Board → PositionRecord W → TrainingExample W
  make_example final position = record {
    board = position.board;
    policy = position.policy;
    value = f.of_int (get_value_for_seat final position.board.current_player);
  }

  abbrev pub make_examples :
      Option (Board → Bool) → Board → List (PositionRecord W) → List (TrainingExample W)
  make_examples accepts final [] = []
  make_examples accepts final (position ∷ history) =
      let later = make_examples accepts final history in
      if is_kept accepts position.board then make_example final position ∷ later else later

  -- The loop of GenerateGame over the last positions.
  unfoldable pub label_positions :
      SelfPlayConfig W → Option (Board → Bool) → PlayedGame W → List (TrainingExample W)
  label_positions config accepts game =
      make_examples accepts game.final_board
        (skip (length game.history - keep_of config (length game.history)) game.history)

-- One evaluator for every board; without one it is the random evaluator.
abbrev pub active_evaluator {ℓ} :
    {W : Type ℓ} {E : Type 0} ⦃f : Float W⦄ → Option (Evaluator W E) → Evaluator W E
active_evaluator none = random_evaluator
active_evaluator (some evaluator) = evaluator

module _ {ℓ} {W D : Type ℓ} {R E : Type 0} ⦃f : Float W⦄ ⦃random : Random W R⦄
    ⦃timer : Clock E⦄ where
  unfoldable pub generate_game :
      (ℕ → ℕ)
      → Sampling W D R
      → SelfPlayConfig W
      → (ℕ → Evaluator W E)
      → Solvers
      → Option (Board → Option ℕ)
      → Option (Board → Bool)
      → E
      → Option (List (TrainingExample W) × E)
  generate_game rng s config evaluators solvers selector accepts world =
      Option.map (λ (r : PlayedGame W × E). (label_positions config accepts r.0, r.1))
        (run_game rng s config evaluators solvers selector world)

  unfoldable pub generate_self_game :
      (ℕ → ℕ)
      → Sampling W D R
      → SelfPlayConfig W
      → Option (Evaluator W E)
      → Solvers
      → E
      → Option (List (TrainingExample W) × E)
  generate_self_game rng s config evaluator solvers world =
      generate_game rng s config (λ key. active_evaluator evaluator) solvers
        (some (λ board. some 0)) none world
