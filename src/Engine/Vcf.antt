-- ===== src/Engine/Vcf.antt =====
-- engine/src/vcf_solver.h and the members of Position in vcf_solver.cpp. Coordinates and the ids
-- that Position is given are integers; the ids that the solver's loops make are numbers.
pub mod Threats
pub mod Search
pub mod Solve
pub mod Tests
use gomoku.Prelude.{
  ℕ, ◌+◌, ◌*◌, ◌/◌, ◌%◌, Bool, true, false, ◌&&◌, List, [], ◌∷◌, ◌==◌, if◌then◌else◌, get_or, set,
  replicate,
}
use gomoku.Prelude.Int.{ℤ, pos, negsuc, in_range, pos_part}

pub data Stone : Type 0 where
  empty black white : Stone

abbrev pub stone_id : Stone → ℕ
stone_id Stone.empty = 0
stone_id Stone.black = 1
stone_id Stone.white = 2

infix 50 ◌==V◌
abbrev pub ◌==V◌ : Stone → Stone → Bool
s ==V t = stone_id s == stone_id t

abbrev pub other_stone : Stone → Stone
other_stone s = if s ==V Stone.black then Stone.white else Stone.black

abbrev pub vcf_board_size : ℕ
vcf_board_size = 15

abbrev pub vcf_num_cells : ℕ
vcf_num_cells = 225

-- Of coordinates inside the board.
abbrev pub action_from_xy : ℤ → ℤ → ℕ
action_from_xy x y = pos_part y * vcf_board_size + pos_part x

abbrev pub action_x : ℕ → ℤ
action_x action = pos (action % vcf_board_size)

abbrev pub action_y : ℕ → ℤ
action_y action = pos (action / vcf_board_size)

-- constexpr int kDirections[4][2].
abbrev pub directions : List (ℤ × ℤ)
directions = (pos 1, pos 0) ∷ (pos 0, pos 1) ∷ (pos 1, pos 1) ∷ (pos 1, negsuc 0) ∷ []

abbrev pub is_inside : ℤ → ℤ → Bool
is_inside x y = in_range x vcf_board_size && in_range y vcf_board_size

pub record Position : Type 0 where
  pub cells : List Stone
  pub current_player : Stone

abbrev pub new_position : Stone → Position
new_position current_player = record {
  cells = replicate vcf_num_cells Stone.empty;
  current_player = current_player;
}

abbrev pub set_at : Position → ℤ → ℤ → Stone → Position × Bool
set_at p x y stone =
    if is_inside x y
    then (record p { cells = set p.cells (action_from_xy x y) stone }, true)
    else (p, false)

abbrev pub set_action : Position → ℤ → Stone → Position × Bool
set_action p action stone =
    if in_range action vcf_num_cells
    then (record p { cells = set p.cells (pos_part action) stone }, true)
    else (p, false)

abbrev pub at : Position → ℤ → ℤ → Stone
at p x y = if is_inside x y then get_or p.cells (action_from_xy x y) Stone.empty else Stone.empty

abbrev pub at_action : Position → ℤ → Stone
at_action p action =
    if in_range action vcf_num_cells
    then get_or p.cells (pos_part action) Stone.empty
    else Stone.empty

unfoldable pub is_empty : Position → ℤ → Bool
is_empty p action =
    in_range action vcf_num_cells && get_or p.cells (pos_part action) Stone.empty ==V Stone.empty
