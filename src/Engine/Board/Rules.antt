-- ===== src/Engine/Board/Rules.antt =====
-- The constructor of Board, TransitionPhase, Apply, Retract and ToggleHash's callers.
pub mod Valid
pub mod Shape
pub mod Hash
pub mod Signature
pub mod RoundTrip
pub mod Invariant
pub mod Turn
pub mod Game
pub mod Outcome
mod Tests
use gomoku.Prelude.{ℕ, zero, suc, ◌+◌, ◌/◌, ◌%◌, if◌then◌else◌}
use gomoku.Prelude.{replicate, set, ◌||◌}
use gomoku.Prelude.Int.{ℤ, pos, negsuc, pos_part, ◌+ℤ◌, ◌-ℤ◌, ◌==ℤ◌}
use gomoku.Engine.Action
use gomoku.Engine.Action.{is_placement, num_cells}
use gomoku.Engine.Board.{
  Board, BoardSignature, Player, Seat, Phase, Result, black, white, is_determined, ◌==P◌, ◌==Ph◌,
  other_player, other_seat, size, toggle_hash, xor_cell,
}
use gomoku.Engine.Board.Win.{check_win}

pub transition_phase : Board → Board
transition_phase board = elim phase [
  | Phase.place_initial_three ↦
      if move_count ==ℤ pos 1
      then record board { stone_to_place = white }
      else if move_count ==ℤ pos 2
      then record board { stone_to_place = black }
      else if move_count ==ℤ pos 3
      then record board {
        phase = Phase.swap2_decision;
        stone_to_place = Player.none;
        current_player = Seat.b;
      }
      else board
  | Phase.swap2_place_two ↦
      if move_count ==ℤ pos 4
      then record board { stone_to_place = black }
      else if move_count ==ℤ pos 5
      then record board {
        phase = Phase.choose_color;
        stone_to_place = Player.none;
        current_player = Seat.a;
      }
      else board
  | Phase.standard ↦ record board {
    stone_to_place = other_player stone_to_place;
    current_player = other_seat current_player;
  }
  | _ ↦ board
]
  where
    open board use {phase, move_count, stone_to_place, current_player}

-- The result after a stone of `stone_to_place` at the cell, in the board that has it.
pub score : Board → ℕ → Result
score board i =
    if phase ==Ph Phase.standard
    then if check_win cells stone_to_place (pos (i % size)) (pos (i / size))
      then if seat_a_stone ==P stone_to_place then Result.player_a_win else Result.player_b_win
      else if move_count ==ℤ pos num_cells
      then Result.draw
      else result
    else result
  where
    open board use {cells, phase, stone_to_place, move_count, seat_a_stone, result}

pub place : Board → ℕ → Board
unfolding transition_phase score
place board i =
    let put = record board {
      cells = set board.cells i board.stone_to_place;
      move_count = board.move_count +ℤ pos 1;
    } in
    transition_phase (record put { result = score put i })

pub control : Board → ℤ → Board
control board id =
    if id ==ℤ pos Action.swap2_choose_white
    then record board {
      seat_b_stone = white;
      seat_a_stone = black;
      phase = Phase.standard;
      stone_to_place = white;
      current_player = Seat.b;
    }
    else if id ==ℤ pos Action.swap2_choose_black
    then record board {
      seat_b_stone = black;
      seat_a_stone = white;
      phase = Phase.standard;
      stone_to_place = white;
      current_player = Seat.a;
    }
    else if id ==ℤ pos Action.swap2_place_two
    then record board {
      phase = Phase.swap2_place_two;
      stone_to_place = white;
      current_player = Seat.b;
    }
    else if id ==ℤ pos Action.choose_white
    then record board {
      seat_a_stone = white;
      seat_b_stone = black;
      phase = Phase.standard;
      stone_to_place = white;
      current_player = Seat.a;
    }
    else if id ==ℤ pos Action.choose_black
    then record board {
      seat_a_stone = black;
      seat_b_stone = white;
      phase = Phase.standard;
      stone_to_place = white;
      current_player = Seat.b;
    }
    else board

-- Apply between its two calls of ToggleHash.
pub perform : Board → ℤ → Board
unfolding place control
perform board id = if is_placement id then place board (pos_part id) else control board id

-- Retract between its two calls of ToggleHash: a placement, by the count that is left.
pub unplace : Board → ℕ → Board
unplace board i =
    let left = board.move_count -ℤ pos 1 in
    let cleared = record board {
      result = Result.undetermined;
      cells = set board.cells i Player.none;
      move_count = left;
    } in
    let turned = record cleared {
      stone_to_place = other_player board.stone_to_place;
      current_player = other_seat board.current_player;
    } in
    if left ==ℤ pos 0
    then record cleared {
      phase = Phase.place_initial_three;
      stone_to_place = black;
      current_player = Seat.a;
    }
    else if left ==ℤ pos 1
    then record cleared {
      phase = Phase.place_initial_three;
      stone_to_place = white;
      current_player = Seat.a;
    }
    else if left ==ℤ pos 2
    then record cleared {
      phase = Phase.place_initial_three;
      stone_to_place = black;
      current_player = Seat.a;
    }
    else if left ==ℤ pos 3
    then if board.phase ==Ph Phase.swap2_place_two
      then record cleared { stone_to_place = white; current_player = Seat.b }
      else record cleared {
        stone_to_place = white;
        current_player = other_seat board.current_player;
      }
    else if left ==ℤ pos 4
    then if board.phase ==Ph Phase.choose_color
      then record cleared {
        phase = Phase.swap2_place_two;
        stone_to_place = black;
        current_player = Seat.b;
      }
      else turned
    else turned

-- A control action.
pub uncontrol : Board → ℤ → Board
uncontrol board id =
    let cleared = record board { result = Result.undetermined } in
    if id ==ℤ pos Action.swap2_choose_white
      || id ==ℤ pos Action.swap2_choose_black
      || id ==ℤ pos Action.swap2_place_two
    then record cleared {
      seat_a_stone = Player.none;
      seat_b_stone = Player.none;
      phase = Phase.swap2_decision;
      stone_to_place = Player.none;
      current_player = Seat.b;
    }
    else if id ==ℤ pos Action.choose_white || id ==ℤ pos Action.choose_black
    then record cleared {
      seat_a_stone = Player.none;
      seat_b_stone = Player.none;
      phase = Phase.choose_color;
      stone_to_place = Player.none;
      current_player = Seat.a;
    }
    else cleared

pub unperform : Board → ℤ → Board
unfolding unplace uncontrol
unperform board id = if is_placement id then unplace board (pos_part id) else uncontrol board id

module _ (rng : ℕ → ℕ) where
  pub apply : Board → ℤ → Board
  apply board id =
      if is_determined board.result
      then board
      else toggle_hash rng (perform (toggle_hash rng board id) id) id

  pub retract : Board → ℤ → Board
  retract board id = toggle_hash rng (unperform (toggle_hash rng board id) id) id

  -- for (int i = 0; i < kNumCells; ++i) XorCell(zobrists_, i, cells_[i]), `left` rounds from `i`.
  pub xor_empty_cells : ℕ → ℕ → BoardSignature → BoardSignature
  xor_empty_cells zero i sig = sig
  xor_empty_cells (suc left) i sig = xor_empty_cells left (i + 1) (xor_cell rng sig i Player.none)

  -- The constructor before its last call of ToggleHash, with `n` cells.
  abbrev pub blank : ℕ → Board
  blank n = record {
    cells = replicate n Player.none;
    phase = Phase.place_initial_three;
    current_player = Seat.a;
    stone_to_place = black;
    move_count = pos 0;
    seat_a_stone = Player.none;
    seat_b_stone = Player.none;
    result = Result.undetermined;
    zobrists = xor_empty_cells n 0 (0, 0);
  }

  pub new_board : Board
  new_board = toggle_hash rng (blank num_cells) (negsuc 0)
