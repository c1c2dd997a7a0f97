-- ===== src/Engine/RandomEvaluator/Tests.antt =====
-- A batch that the random evaluator answers.
use gomoku.Prelude.{List, [], ◌∷◌, ◌≡◌, length, Option}
use gomoku.Prelude.Int.{ℤ}
use gomoku.Engine.Board.{Board}
use gomoku.Engine.Mcts.Samples.{whole_numbers, empty_board}
use gomoku.Engine.RandomEvaluator.{Matches, evaluate_random, evaluate_random-Matches}

abbrev two_boards : List Board
two_boards = empty_board ∷ empty_board ∷ []

evaluate_random-Matches_example :
    (length (evaluate_random {W = Option ℤ} two_boards) ≡ length two_boards)
    × Matches {W = Option ℤ} two_boards (evaluate_random {W = Option ℤ} two_boards)
evaluate_random-Matches_example = evaluate_random-Matches (Option ℤ) two_boards
