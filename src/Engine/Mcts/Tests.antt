-- ===== src/Engine/Mcts/Tests.antt =====
-- A tree on which the theorems about the tree search are applied.
use gomoku.Engine.Mcts.Walk.{Leaf}
use gomoku.Engine.Mcts.Search.{Cache}
use gomoku.Engine.Mcts.Batch.{evaluate_leaves}
use gomoku.Engine.Mcts.Returns.Found.{HasLeaves, evaluate_leaves-HasLeaves}
use gomoku.Engine.Board.{Seat}
use gomoku.Engine.Mcts.Samples.{
  whole_numbers, counting, even, ticking, even-Answers, whole_IsAbove, keys, empty_board,
  empty_board-IsValid, wary,
}
use gomoku.Prelude.Results.{IfSome, Returns}
use gomoku.Prelude.{Bool, List, ℕ, refl, false, [], ◌∷◌, Option, none, some, arith, replicate}
use gomoku.Prelude.Int.{ℤ, pos, negsuc}
use gomoku.Engine.Board.Rules.{apply}
use gomoku.Engine.Mcts.{nil, Node, new_info, expand, num_actions}
use gomoku.Engine.Mcts.Search.{simulations, Mcts, select_action, has_value}
use gomoku.Engine.Mcts.Run.{search_board}
use gomoku.Engine.Mcts.Fits.{FitsNode, FitsRoot, expand-FitsNode}
use gomoku.Engine.Mcts.Fits.Whole.{Searched, search_board-Searched, select_action-FitsRoot}
use gomoku.Engine.Mcts.Returns.Whole.{search_board-Returns}

-- The root at the first board, expanded.
abbrev first_root : Node (Option ℤ)
first_root =
    expand empty_board (replicate num_actions (some (pos 1)))
      (new_info (negsuc 0) (some (pos 1)) empty_board.current_player, nil)

first_root-FitsNode : FitsNode keys empty_board first_root
first_root-FitsNode =
    expand-FitsNode keys empty_board (replicate num_actions (some (pos 1))) _ empty_board-IsValid
      (record { seat = refl; opened = λ o. ground arith; closed = λ o. refl }, tt)

abbrev searcher : Mcts (Option ℤ) ℕ
searcher = record {
  batch_size = 2;
  c_puct = some (pos 1);
  virtual_loss = 3;
  dirichlet_noise = none;
  random_engine = 0;
  randomize_ties = false;
  root_noise_applied = false;
  defensive_filter_applied = false;
  root_defensive_mask_active = false;
  root = some first_root;
  evaluation_cache = [];
}

search_board-Searched_example :
    IfSome
      (Searched keys {E = ℕ} empty_board)
      (search_board 4 keys wary (simulations (pos 3)) empty_board searcher 0)
search_board-Searched_example =
    search_board-Searched keys 4 wary (simulations (pos 3)) empty_board searcher 0
      empty_board-IsValid first_root-FitsNode

search_board-Returns_example : Returns (Searched keys {E = ℕ} empty_board) (
    search_board 4 keys
      (record { endgame_solver = none; defensive_solver = none })
      (simulations (pos 3))
      empty_board
      searcher
      0)
search_board-Returns_example =
    search_board-Returns keys none empty_board even-Answers 4 3 searcher 0
      (λ q e p r t engine d. whole_IsAbove p.0.c_puct p.0.virtual_loss t) refl (omega arith)
      empty_board-IsValid first_root-FitsNode (omega arith) (omega arith)

select_action-FitsRoot_example :
    FitsRoot keys (apply keys empty_board (pos 112)) (select_action searcher (pos 112)).root
select_action-FitsRoot_example =
    select_action-FitsRoot keys empty_board searcher (pos 112) first_root-FitsNode

-- Two leaves at one board.
abbrev two_leaves : List Leaf
two_leaves =
    record { path = []; board = empty_board; seat = Seat.a }
    ∷ record { path = []; board = empty_board; seat = Seat.a }
    ∷ []

evaluate_leaves-HasLeaves_example :
    Returns
      (λ (r : Cache (Option ℤ) × ℕ). HasLeaves r.0 two_leaves)
      (evaluate_leaves none two_leaves [] 0)
evaluate_leaves-HasLeaves_example = evaluate_leaves-HasLeaves none two_leaves [] 0 even-Answers

-- Whether the search behind the mask has a result: `true`.
abbrev has_result : Bool
has_result =
    has_value
      (search_board ⦃evaluator = even⦄ 4 keys wary (simulations (pos 3)) empty_board searcher 0)
