-- ===== src/Engine/Board/Play.antt =====
-- The queries of Board: legal actions, the next seat, the value for a seat.
pub mod Legal
use gomoku.Prelude.{ℕ, zero, suc, ◌+◌, Bool, ◌||◌, if◌then◌else◌, List, [], ◌∷◌, get_or}
use gomoku.Prelude.Int.{ℤ, pos, negsuc, ◌==ℤ◌}
use gomoku.Engine.Action
use gomoku.Engine.Action.{num_cells}
use gomoku.Engine.Board.{
  Board, Player, Seat, Phase, Result, is_determined, ◌==P◌, ◌==S◌, other_seat,
}

-- The loop over the cells, `left` rounds from `i`.
pub empty_cells : List Player → ℕ → ℕ → List ℤ
empty_cells cells zero i = []
empty_cells cells (suc left) i =
    let rest = empty_cells cells left (i + 1) in
    if get_or cells i Player.none ==P Player.none then pos i ∷ rest else rest

unfoldable pub get_legal_actions : Board → List ℤ
unfolding empty_cells
get_legal_actions board = if is_determined board.result then [] else elim board.phase [
  | Phase.swap2_decision ↦
      pos Action.swap2_choose_white
      ∷ pos Action.swap2_choose_black
      ∷ pos Action.swap2_place_two
      ∷ []
  | Phase.choose_color ↦ pos Action.choose_white ∷ pos Action.choose_black ∷ []
  | _ ↦ empty_cells board.cells num_cells 0
]

unfoldable pub get_child_current_player : Board → ℤ → Seat
get_child_current_player board id = elim board.phase [
  | Phase.standard ↦ other_seat board.current_player
  | Phase.place_initial_three ↦ if board.move_count ==ℤ pos 2 then Seat.b else Seat.a
  | Phase.swap2_decision ↦
      if id ==ℤ pos Action.swap2_choose_white || id ==ℤ pos Action.swap2_place_two
      then Seat.b
      else Seat.a
  | Phase.swap2_place_two ↦ if board.move_count ==ℤ pos 4 then Seat.a else Seat.b
  | Phase.choose_color ↦ if id ==ℤ pos Action.choose_white then Seat.a else Seat.b
]

abbrev pub is_terminal : Board → Bool
is_terminal board = is_determined board.result

-- GetValueForSeat: its floats are 1.0, 0.0 and -1.0.
unfoldable pub get_value_for_seat : Board → Seat → ℤ
get_value_for_seat board seat = elim board.result [
  | Result.undetermined ↦ pos 0
  | Result.draw ↦ pos 0
  | Result.player_a_win ↦ if seat ==S Seat.a then pos 1 else negsuc 0
  | Result.player_b_win ↦ if seat ==S Seat.b then pos 1 else negsuc 0
]
