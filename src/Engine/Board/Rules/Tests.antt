-- ===== src/Engine/Board/Rules/Tests.antt =====
-- Boards and runs on which the theorems about the board are applied.
use gomoku.Prelude.{
  ℕ, ◌+◌, ◌≡◌, refl, inl, inr, true, false, arith, replicate, set, ◌≤◌, ◌↔◌, List, ◌∷◌,
}
use gomoku.Prelude.Int.{contains, ℤ, pos, ◌+ℤ◌, ◌-ℤ◌}
use gomoku.Engine.Action.{num_cells}
use gomoku.Engine.Board.{Board, Player, Seat, Phase, Result, black, white, toggle_hash}
use gomoku.Engine.Board.Win.{
  check_win, check_lines, count_line, forward, backward, holds, directions,
}
use gomoku.Engine.Board.Play.{get_legal_actions, get_child_current_player}
use gomoku.Engine.Board.Play.Legal.{get_legal_actions_progress, get_legal_actions_iff}
use gomoku.Engine.Board.Win.Exact.{check_win-Five, Any, FiveAlong}
use gomoku.Engine.Board.Rules.{apply, retract, new_board}
use gomoku.Engine.Board.Rules.Valid.{IsValid, IsLegal}
use gomoku.Engine.Board.Rules.Hash.{full_signature}
use gomoku.Engine.Board.Rules.RoundTrip.{retract-apply}
use gomoku.Engine.Board.Rules.Invariant.{apply-IsValid}
use gomoku.Engine.Board.Rules.Turn.{get_child_current_player-apply}
use gomoku.Engine.Board.Rules.Game.{Game, start, move, Game-Sound, Game-length}
use gomoku.Engine.Board.Rules.Outcome.{
  Outcome, MakesFive, Worth, apply-Outcome, get_value_for_seat-apply,
}

-- Keys that differ from one another.
abbrev keys : ℕ → ℕ
keys n = n + 1

-- Four black and four white stones in the first row: nine stones, and white, seat A, to move.
abbrev rows : List Player
rows =
    black
    ∷ black
    ∷ black
    ∷ black
    ∷ Player.none
    ∷ white
    ∷ white
    ∷ white
    ∷ white
    ∷ Player.none
    ∷ black
    ∷ replicate 214 Player.none

abbrev mid_game : Board
mid_game = record {
  cells = rows;
  phase = Phase.standard;
  current_player = Seat.a;
  stone_to_place = white;
  move_count = pos 9;
  seat_a_stone = white;
  seat_b_stone = black;
  result = Result.undetermined;
  zobrists = (5, 6);
}

mid_game-IsValid : IsValid mid_game
mid_game-IsValid = record {
  sized = refl;
  counted = refl;
  stage = (omega arith, refl, inr (refl, refl), inl (refl, refl), λ _. omega arith);
}

mid_game-IsLegal : IsLegal mid_game (pos 9)
mid_game-IsLegal = record { open_game = refl; allowed = (9, refl, omega arith, refl) }

retract-apply_example : retract keys (apply keys mid_game (pos 9)) (pos 9) ≡ mid_game
retract-apply_example = retract-apply keys mid_game (pos 9) mid_game-IsValid mid_game-IsLegal

apply-IsValid_example : IsValid (apply keys mid_game (pos 9))
apply-IsValid_example = apply-IsValid keys mid_game (pos 9) mid_game-IsValid mid_game-IsLegal

first_move : IsLegal (new_board keys) (pos 112)
unfolding new_board toggle_hash
first_move = record { open_game = refl; allowed = (112, refl, omega arith, refl) }

abbrev opened : Game keys 1 (apply keys (new_board keys) (pos 112))
opened = move (pos 112) start first_move

Game-Sound_example :
    IsValid (apply keys (new_board keys) (pos 112))
    × ((apply keys (new_board keys) (pos 112)).zobrists
        ≡ full_signature keys (apply keys (new_board keys) (pos 112)))
Game-Sound_example = Game-Sound keys opened

Game-length_example : 1 ≤ num_cells + 2
Game-length_example = Game-length keys opened

get_legal_actions_progress_example :
    (id : ℤ) × (contains (get_legal_actions mid_game) id ≡ true) × IsLegal mid_game id
get_legal_actions_progress_example = get_legal_actions_progress mid_game mid_game-IsValid refl

get_child_current_player-apply_example :
    (apply keys mid_game (pos 9)).current_player ≡ get_child_current_player mid_game (pos 9)
get_child_current_player-apply_example =
    get_child_current_player-apply keys mid_game (pos 9) mid_game-IsValid mid_game-IsLegal

apply-Outcome_example :
    Outcome (MakesFive rows white 9) 10 Seat.a (apply keys mid_game (pos 9)).result
apply-Outcome_example =
    apply-Outcome keys mid_game 9 mid_game-IsValid mid_game-IsLegal refl (omega arith)

-- Five whites in a row win; six do not.
five_wins : check_win (set rows 9 white) white (pos 9) (pos 0) ≡ true
unfolding check_win check_lines count_line forward backward holds ◌+ℤ◌ ◌-ℤ◌
five_wins = refl

six_do_not : check_win (set (set rows 9 white) 4 white) white (pos 9) (pos 0) ≡ false
unfolding check_win check_lines count_line forward backward holds ◌+ℤ◌ ◌-ℤ◌
six_do_not = refl

check_win-Five_example :
    (check_win (set rows 9 white) white (pos 9) (pos 0) ≡ true)
    ↔ Any (FiveAlong (set rows 9 white) white (pos 9) (pos 0)) directions
check_win-Five_example = check_win-Five (set rows 9 white) white (pos 9) (pos 0)

get_legal_actions_iff_example :
    (contains (get_legal_actions mid_game) (pos 9) ≡ true) ↔ IsLegal mid_game (pos 9)
get_legal_actions_iff_example = get_legal_actions_iff mid_game (pos 9)

get_value_for_seat-apply_example :
    Worth (MakesFive rows white 9) Seat.a (apply keys mid_game (pos 9))
get_value_for_seat-apply_example =
    get_value_for_seat-apply keys mid_game 9 mid_game-IsValid mid_game-IsLegal refl (omega arith)
