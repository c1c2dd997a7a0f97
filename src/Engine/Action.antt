-- ===== src/Engine/Action.antt =====
-- engine/src/board.h: struct Action. An `int` id is an integer.
pub mod Text
mod Tests
use gomoku.Prelude.{ℕ, Bool}
use gomoku.Prelude.Int.{ℤ, in_range}

-- Board::kNumCells.
abbrev pub num_cells : ℕ
num_cells = 225

-- The ids of the control actions.
abbrev pub swap2_choose_white : ℕ
swap2_choose_white = 225

abbrev pub swap2_choose_black : ℕ
swap2_choose_black = 226

abbrev pub swap2_place_two : ℕ
swap2_place_two = 227

abbrev pub choose_white : ℕ
choose_white = 228

abbrev pub choose_black : ℕ
choose_black = 229

abbrev pub is_placement : ℤ → Bool
is_placement id = in_range id num_cells
