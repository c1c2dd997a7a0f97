-- ===== src/Engine/Board/Win.antt =====
-- Board::CheckWin.
pub mod Exact
use gomoku.Prelude.{ℕ, zero, suc, ◌+◌, ◌*◌, Bool, true, false, ◌&&◌, ◌==◌}
use gomoku.Prelude.{List, [], ◌∷◌, if◌then◌else◌, get_or}
use gomoku.Prelude.Int.{ℤ, pos, negsuc, ◌+ℤ◌, ◌-ℤ◌, in_range, pos_part}
use gomoku.Engine.Board.{Player, ◌==P◌, size}

-- dx[] and dy[].
abbrev pub directions : List (ℤ × ℤ)
directions = (pos 1, pos 0) ∷ (pos 0, pos 1) ∷ (pos 1, pos 1) ∷ (pos 1, negsuc 0) ∷ []

-- More rounds than a walk has.
abbrev pub walk_fuel : ℕ
walk_fuel = 16

module _ (cells : List Player) (p : Player) where
  -- The test of the two loops: inside the board, on a stone of `p`.
  unfoldable pub holds : ℤ → ℤ → Bool
  holds x y =
      in_range x size
      && in_range y size
      && get_or cells (pos_part y * size + pos_part x) Player.none ==P p

  unfoldable pub forward : ℤ → ℤ → ℕ → ℕ → ℤ → ℤ → ℕ
  forward dx dy zero count fx fy = count
  forward dx dy (suc fuel) count fx fy =
      let rest = forward dx dy fuel (count + 1) (fx +ℤ dx) (fy +ℤ dy) in
      if holds fx fy then rest else count

  unfoldable pub backward : ℤ → ℤ → ℕ → ℕ → ℤ → ℤ → ℕ
  backward dx dy zero count bx by = count
  backward dx dy (suc fuel) count bx by =
      let rest = backward dx dy fuel (count + 1) (bx -ℤ dx) (by -ℤ dy) in
      if holds bx by then rest else count

  -- The stones in a row through (x, y), which counts as one of them.
  unfoldable pub count_line : ℤ → ℤ → ℤ → ℤ → ℕ
  count_line x y dx dy =
      let count = forward dx dy walk_fuel 1 (x +ℤ dx) (y +ℤ dy) in
      backward dx dy walk_fuel count (x -ℤ dx) (y -ℤ dy)

  unfoldable pub check_lines : ℤ → ℤ → List (ℤ × ℤ) → Bool
  check_lines x y [] = false
  check_lines x y ((dx, dy) ∷ ds) = if count_line x y dx dy == 5 then true else check_lines x y ds

  unfoldable pub check_win : ℤ → ℤ → Bool
  check_win x y = check_lines x y directions
