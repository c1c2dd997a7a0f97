-- ===== src/Plugin/State/Apply.antt =====
-- BoardState::TransitionPhase and ApplyAction.
use gomoku.Prelude.{ℕ, ◌+◌, ◌/◌, ◌%◌, ◌==◌, if◌then◌else◌, set}
use gomoku.Prelude.Int.{ℤ, pos, pos_part, ◌==ℤ◌}
use gomoku.Plugin.State.{
  BoardState, Stone, Seat, GamePhase, GameResult, other_stone, other_seat, is_legal_action,
  is_placement, check_exact_five, board_size, num_board_cells, choose_white, choose_black,
  place_two, choose_white_after_two, choose_black_after_two,
}

unfoldable pub transition_phase : BoardState → BoardState
transition_phase s = elim s.phase [
  | GamePhase.place_initial_three ↦
      if s.move_count == 1
      then record s { stone_to_place = Stone.white }
      else if s.move_count == 2
      then record s { stone_to_place = Stone.black }
      else if s.move_count == 3
      then record s {
        phase = GamePhase.swap2_decision;
        current_seat = Seat.b;
        stone_to_place = Stone.empty;
      }
      else s
  | GamePhase.swap2_place_two ↦
      if s.move_count == 4
      then record s { stone_to_place = Stone.white }
      else if s.move_count == 5
      then record s {
        phase = GamePhase.choose_color;
        current_seat = Seat.a;
        stone_to_place = Stone.empty;
      }
      else s
  | GamePhase.standard ↦ record s {
    current_seat = other_seat s.current_seat;
    stone_to_place = other_stone s.stone_to_place;
  }
  | _ ↦ s
]

abbrev pub win_of : Seat → GameResult
win_of Seat.a = GameResult.player_a_win
win_of Seat.b = GameResult.player_b_win

unfoldable pub place : BoardState → ℕ → BoardState
place s i =
    let put = record s { cells = set s.cells i s.stone_to_place; move_count = s.move_count + 1 } in
    if check_exact_five put.cells s.stone_to_place (pos (i % board_size)) (pos (i / board_size))
    then record put { result = win_of s.current_seat }
    else if put.move_count == num_board_cells
    then record put { result = GameResult.draw }
    else transition_phase put

unfoldable pub decide : BoardState → ℤ → BoardState
decide s id =
    if id ==ℤ choose_white
    then record s {
      seat_b_stone = Stone.white;
      seat_a_stone = Stone.black;
      phase = GamePhase.standard;
      current_seat = Seat.b;
      stone_to_place = Stone.white;
    }
    else if id ==ℤ choose_black
    then record s {
      seat_b_stone = Stone.black;
      seat_a_stone = Stone.white;
      phase = GamePhase.standard;
      current_seat = Seat.a;
      stone_to_place = Stone.white;
    }
    else if id ==ℤ place_two
    then record s {
      phase = GamePhase.swap2_place_two;
      current_seat = Seat.b;
      stone_to_place = Stone.black;
    }
    else if id ==ℤ choose_white_after_two
    then record s {
      seat_a_stone = Stone.white;
      seat_b_stone = Stone.black;
      phase = GamePhase.standard;
      current_seat = Seat.a;
      stone_to_place = Stone.white;
    }
    else if id ==ℤ choose_black_after_two
    then record s {
      seat_a_stone = Stone.black;
      seat_b_stone = Stone.white;
      phase = GamePhase.standard;
      current_seat = Seat.b;
      stone_to_place = Stone.white;
    }
    else s

unfoldable pub apply_action : BoardState → ℤ → BoardState
apply_action s id =
    if is_legal_action s id
    then if is_placement id then place s (pos_part id) else decide s id
    else s
