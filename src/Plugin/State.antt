-- ===== src/Plugin/State.antt =====
-- plugin/include/plugin/gomoku_types.h and plugin/src/gomoku_types.cpp: BoardState.
-- An `int` action id is an integer; move_count only grows, and is a number.
pub mod Apply
pub mod Legal
pub mod Progress
use gomoku.Prelude.{
  ℕ, zero, suc, ◌+◌, ◌*◌, ◌/◌, ◌%◌, Bool, true, false, ◌&&◌, ◌||◌, List, [], ◌∷◌, ◌==◌,
  if◌then◌else◌, get_or, set, replicate, not,
}
use gomoku.Prelude.Int.{ℤ, pos, negsuc, in_range, pos_part, ◌+ℤ◌, ◌-ℤ◌, ◌==ℤ◌}

pub data Stone : Type 0 where
  empty black white : Stone

pub data Seat : Type 0 where
  a b : Seat

pub data GamePhase : Type 0 where
  place_initial_three swap2_decision swap2_place_two choose_color standard : GamePhase

pub data GameResult : Type 0 where
  undetermined player_a_win player_b_win draw : GameResult

-- The enumerators' values.
abbrev pub stone_id : Stone → ℕ
stone_id Stone.empty = 0
stone_id Stone.black = 1
stone_id Stone.white = 2

abbrev pub other_stone : Stone → Stone
other_stone Stone.black = Stone.white
other_stone Stone.white = Stone.black
other_stone Stone.empty = Stone.empty

abbrev pub other_seat : Seat → Seat
other_seat Seat.a = Seat.b
other_seat Seat.b = Seat.a

infix 50 ◌==St◌
abbrev pub ◌==St◌ : Stone → Stone → Bool
s ==St t = stone_id s == stone_id t

abbrev pub is_undetermined : GameResult → Bool
is_undetermined GameResult.undetermined = true
is_undetermined _ = false

abbrev pub board_size : ℕ
board_size = 15

abbrev pub num_board_cells : ℕ
num_board_cells = 225

-- Swap2Action.
abbrev pub choose_white : ℤ
choose_white = pos 225

abbrev pub choose_black : ℤ
choose_black = pos 226

abbrev pub place_two : ℤ
place_two = pos 227

abbrev pub choose_white_after_two : ℤ
choose_white_after_two = pos 228

abbrev pub choose_black_after_two : ℤ
choose_black_after_two = pos 229

pub record BoardState : Type 0 where
  pub cells : List Stone
  pub phase : GamePhase
  pub current_seat : Seat
  pub stone_to_place : Stone
  pub move_count : ℕ
  pub result : GameResult
  pub seat_a_stone : Stone
  pub seat_b_stone : Stone

unfoldable pub new_state : BoardState
new_state = record {
  cells = replicate num_board_cells Stone.empty;
  phase = GamePhase.place_initial_three;
  current_seat = Seat.a;
  stone_to_place = Stone.black;
  move_count = 0;
  result = GameResult.undetermined;
  seat_a_stone = Stone.empty;
  seat_b_stone = Stone.empty;
}

abbrev pub is_placement : ℤ → Bool
is_placement action_id = in_range action_id num_board_cells

abbrev pub is_terminal : BoardState → Bool
is_terminal s = not (is_undetermined s.result)

-- A placement on an empty cell.
abbrev pub may_place : List Stone → ℤ → Bool
may_place cells id = is_placement id && get_or cells (pos_part id) Stone.empty ==St Stone.empty

unfoldable pub is_legal_action : BoardState → ℤ → Bool
is_legal_action s id = if not (is_undetermined s.result) then false else elim s.phase [
  | GamePhase.swap2_decision ↦ id ==ℤ choose_white || id ==ℤ choose_black || id ==ℤ place_two
  | GamePhase.choose_color ↦ id ==ℤ choose_white_after_two || id ==ℤ choose_black_after_two
  | _ ↦ may_place s.cells id
]

-- The loop over the cells, `left` rounds from `i`.
pub empty_cells : List Stone → ℕ → ℕ → List ℤ
empty_cells cells zero i = []
empty_cells cells (suc left) i =
    let rest = empty_cells cells left (i + 1) in
    if get_or cells i Stone.empty ==St Stone.empty then pos i ∷ rest else rest

pub get_legal_actions : BoardState → List ℤ
get_legal_actions s = if not (is_undetermined s.result) then [] else elim s.phase [
  | GamePhase.swap2_decision ↦ choose_white ∷ choose_black ∷ place_two ∷ []
  | GamePhase.choose_color ↦ choose_white_after_two ∷ choose_black_after_two ∷ []
  | _ ↦ empty_cells s.cells num_board_cells 0
]

-- constexpr int dirs[4][2].
abbrev pub dirs : List (ℤ × ℤ)
dirs = (pos 1, pos 0) ∷ (pos 0, pos 1) ∷ (pos 1, pos 1) ∷ (pos 1, negsuc 0) ∷ []

module _ (cells : List Stone) (s : Stone) where
  -- The test of the two loops.
  unfoldable pub on_stone : ℤ → ℤ → Bool
  on_stone x y =
      in_range x board_size
      && in_range y board_size
      && get_or cells (pos_part y * board_size + pos_part x) Stone.empty ==St s

  unfoldable pub positive : ℤ → ℤ → ℕ → ℕ → ℤ → ℤ → ℕ
  positive dx dy zero count nx ny = count
  positive dx dy (suc fuel) count nx ny =
      let rest = positive dx dy fuel (count + 1) (nx +ℤ dx) (ny +ℤ dy) in
      if on_stone nx ny then rest else count

  unfoldable pub negative : ℤ → ℤ → ℕ → ℕ → ℤ → ℤ → ℕ
  negative dx dy zero count nx ny = count
  negative dx dy (suc fuel) count nx ny =
      let rest = negative dx dy fuel (count + 1) (nx -ℤ dx) (ny -ℤ dy) in
      if on_stone nx ny then rest else count

  unfoldable pub five_in : ℤ → ℤ → List (ℤ × ℤ) → Bool
  five_in x y [] = false
  five_in x y ((dx, dy) ∷ ds) =
      let count = positive dx dy 16 1 (x +ℤ dx) (y +ℤ dy) in
      if negative dx dy 16 count (x -ℤ dx) (y -ℤ dy) == 5 then true else five_in x y ds

  unfoldable pub check_exact_five : ℤ → ℤ → Bool
  check_exact_five x y = if s ==St Stone.empty then false else five_in x y dirs
