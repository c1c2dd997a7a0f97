-- ===== src/Engine/SelfPlay/Tests.antt =====
-- A game on which the theorems about self play are applied.
use gomoku.Engine.SelfPlay.Sample.{Sampling, nth_action}
use gomoku.Engine.SelfPlay.Run.{new_play, play_on, run_game}
use gomoku.Prelude.{
  ℕ, ◌+◌, ◌≡◌, List, Option, none, some, true, false, arith, [], ◌∷◌, ◌==◌, if◌then◌else◌,
}
use gomoku.Prelude.Int.{ℤ, pos}
use gomoku.Prelude.Results.{IfSome}
use gomoku.Engine.Action.{num_cells, swap2_choose_white}
use gomoku.Engine.Board.{Board, Result}
use gomoku.Engine.Board.Rules.Valid.{count_stones}
use gomoku.Engine.Mcts.Policy.{is_legal_action}
use gomoku.Engine.Mcts.Run.{Solvers}
use gomoku.Engine.Mcts.Samples.{whole_numbers, counting, even, ticking, keys}
use gomoku.Engine.SelfPlay.{SelfPlayConfig, PlayedGame}
use gomoku.Engine.SelfPlay.Sound.{IsWhole, run_game-IsWhole}
use gomoku.Engine.SelfPlay.Guard.{play_on_bound}

abbrev drawing : Sampling (Option ℤ) (Option ℤ) ℕ
drawing = record {
  double = whole_numbers;
  widen = λ a. a;
  draw_index = λ n engine. (n, engine + 1);
  draw_real = λ total engine. (total, engine + 1);
}

abbrev config : SelfPlayConfig (Option ℤ)
config = record {
  simulations = pos 3;
  batch_size = pos 2;
  c_puct = some (pos 1);
  seed = 7;
  keep_last_moves = pos 3;
  dirichlet_noise = none;
  dirichlet_noise_plies = pos 0;
  stochastic_action_plies = pos 4;
  sample_actions = true;
}

-- A game by its count of stones: black has five at 0 to 4.
abbrev script : List ℤ
script = pos 0 ∷ pos 100 ∷ pos 1 ∷ pos 120 ∷ pos 2 ∷ pos 140 ∷ pos 3 ∷ pos 160 ∷ pos 4 ∷ []

-- The action of the game at a board: where one may choose a colour, white.
abbrev next_action : Board → ℤ
next_action board = elim (is_legal_action board (pos swap2_choose_white)) [
  | true ↦ pos swap2_choose_white
  | false ↦ nth_action script (count_stones board.cells)
]

-- Solvers that know the game, but for a move that the tree search finds behind the mask.
abbrev guided : Solvers
guided = record {
  endgame_solver =
      some (λ board. if count_stones board.cells == 7 then [] else next_action board ∷ []);
  defensive_solver = some (λ board. (true, next_action board ∷ []));
}

-- One evaluator for both seats.
abbrev always : Board → Option ℕ
always board = some 0

run_game-IsWhole_example :
    IfSome
      (λ (r : PlayedGame (Option ℤ) × ℕ). IsWhole keys r.0)
      (run_game keys drawing config (λ key. even) guided (some always) 0)
run_game-IsWhole_example = run_game-IsWhole keys drawing config (λ key. even) guided (some always) 0

play_on_bound_example :
    play_on keys drawing config (λ key. even) guided 500 always (new_play keys config 0)
    ≡ play_on keys drawing config
        (λ key. even)
        guided
        (num_cells + 5)
        always
        (new_play keys config 0)
play_on_bound_example =
    play_on_bound keys drawing config (λ key. even) guided always 0 500 (omega arith)

-- How a game ends, and after how many actions: this one, with a win of seat A after 10.
abbrev end_of : Option (PlayedGame (Option ℤ) × ℕ) → Option (Result × ℕ)
end_of none = none
end_of (some (g, w)) = some (g.final_board.result, g.action_count)

abbrev game_end : Option (Result × ℕ)
game_end = end_of (run_game keys drawing config (λ key. even) guided (some always) 0)
