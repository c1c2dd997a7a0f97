-- ===== src/Engine/Vcf/Threats.antt =====
-- The searches for fives of engine/src/vcf_solver.cpp. Walks along a line run on 16 rounds of fuel,
-- one more than a line has cells. The two loops over directions and offsets are one, over the pairs
-- in their order.
pub mod Stones
pub mod Winning
use gomoku.Prelude.{
  ℕ, zero, suc, ◌+◌, Bool, true, false, ◌&&◌, ◌||◌, not, List, [], ◌∷◌, ◌++◌, map, ◌==◌,
  if◌then◌else◌,
}
use gomoku.Prelude.Int.{ℤ, pos, negsuc, ◌+ℤ◌, ◌-ℤ◌, ◌*ℤ◌, ◌==ℤ◌}
use gomoku.Engine.Vcf.{
  Position, Stone, ◌==V◌, at, at_action, is_empty, is_inside, action_x, action_y, action_from_xy,
  directions, vcf_num_cells,
}

module _ (p : Position) (stone : Stone) where
  -- The test of the walks.
  unfoldable pub on : ℤ → ℤ → Bool
  on x y = is_inside x y && at p x y ==V stone

  -- The loop of a walk: the stones from a cell on.
  unfoldable pub walk : ℕ → ℤ → ℤ → ℤ → ℤ → ℕ
  walk zero x y dx dy = 0
  walk (suc fuel) x y dx dy =
      let rest = walk fuel (x +ℤ dx) (y +ℤ dy) dx dy in if on x y then suc rest else 0

  unfoldable pub count_in_direction : ℤ → ℤ → ℤ → ℤ → ℕ
  count_in_direction x y dx dy = walk 16 (x +ℤ dx) (y +ℤ dy) dx dy

  -- HasExactFive: a run of five that begins at a cell.
  unfoldable pub begins_five : ℤ → ℤ → List (ℤ × ℤ) → Bool
  begins_five x y [] = false
  begins_five x y ((dx, dy) ∷ ds) =
      let rest = begins_five x y ds in
      if on (x -ℤ dx) (y -ℤ dy)
      then rest
      else if 1 + walk 16 (x +ℤ dx) (y +ℤ dy) dx dy == 5
      then true
      else rest

  -- The loop over the cells, `left` rounds from `action`.
  unfoldable pub five_from : ℕ → ℕ → Bool
  five_from zero action = false
  five_from (suc left) action =
      let rest = five_from left (suc action) in
      if not (at_action p (pos action) ==V stone)
      then rest
      else if begins_five (action_x action) (action_y action) directions
      then true
      else rest

  unfoldable pub has_exact_five : Bool
  has_exact_five = five_from vcf_num_cells 0

  unfoldable pub five_through : ℤ → ℤ → List (ℤ × ℤ) → Bool
  five_through x y [] = false
  five_through x y ((dx, dy) ∷ ds) =
      if 1 + count_in_direction x y dx dy + count_in_direction x y (pos 0 -ℤ dx) (pos 0 -ℤ dy) == 5
      then true
      else five_through x y ds

  unfoldable pub makes_exact_five : ℕ → Bool
  makes_exact_five action =
      if not (is_empty p (pos action))
      then false
      else five_through (action_x action) (action_y action) directions

  unfoldable pub winning_from : ℕ → ℕ → List ℕ
  winning_from zero action = []
  winning_from (suc left) action =
      let rest = winning_from left (suc action) in
      if makes_exact_five action then action ∷ rest else rest

  unfoldable pub winning_moves : List ℕ
  winning_moves = winning_from vcf_num_cells 0

-- The offsets of the loops over k, 0 left out.
abbrev pub offsets : List ℤ
offsets = negsuc 3 ∷ negsuc 2 ∷ negsuc 1 ∷ negsuc 0 ∷ pos 1 ∷ pos 2 ∷ pos 3 ∷ pos 4 ∷ []

abbrev pub lines : List (ℤ × ℤ) → List (ℤ × ℤ × ℤ)
lines [] = []
lines ((dx, dy) ∷ ds) = map (λ (k : ℤ). (dx, dy, k)) offsets ++ lines ds

abbrev pub has : List ℕ → ℕ → Bool
has [] a = false
has (b ∷ bs) a = b == a || has bs a

abbrev pub add_new : List ℕ → ℕ → List ℕ
add_new found a = if has found a then found else found ++ a ∷ []

module _ (p : Position) (px py : ℤ) (stone : Stone) where
  unfoldable pub wins_around : List (ℤ × ℤ × ℤ) → List ℕ → List ℕ
  wins_around [] found = found
  wins_around ((dx, dy, k) ∷ ls) found =
      let x = px +ℤ k *ℤ dx in
      let y = py +ℤ k *ℤ dy in
      let action = action_from_xy x y in
      wins_around ls (
        if is_inside x y && is_empty p (pos action) && makes_exact_five p stone action
        then add_new found action
        else found)

  -- The loop over the offsets of a run, `left` rounds from `offset`.
  unfoldable pub includes_placed : ℤ → ℤ → ℤ → ℤ → ℕ → ℤ → Bool
  includes_placed x y dx dy zero offset = false
  includes_placed x y dx dy (suc left) offset =
      x +ℤ offset *ℤ dx ==ℤ px && y +ℤ offset *ℤ dy ==ℤ py
      || includes_placed x y dx dy left (offset +ℤ pos 1)

  -- Whether a stone at a cell makes a five along a direction, with the placed stone in it.
  unfoldable pub creates_five : ℤ → ℤ → ℤ → ℤ → Bool
  creates_five x y dx dy =
      let before = count_in_direction p stone x y (pos 0 -ℤ dx) (pos 0 -ℤ dy) in
      let after = count_in_direction p stone x y dx dy in
      1 + before + after == 5
      && includes_placed x y dx dy (before + after + 1) (pos 0 -ℤ pos before)

  unfoldable pub created : List (ℤ × ℤ × ℤ) → List ℕ → List ℕ
  created [] found = found
  created ((dx, dy, k) ∷ ls) found =
      let x = px +ℤ k *ℤ dx in
      let y = py +ℤ k *ℤ dy in
      let action = action_from_xy x y in
      created ls (
        if is_inside x y && is_empty p (pos action) && creates_five x y dx dy
        then add_new found action
        else found)

  unfoldable pub near : List (ℤ × ℤ × ℤ) → Bool
  near [] = false
  near ((dx, dy, k) ∷ ls) = if at p (px +ℤ k *ℤ dx) (py +ℤ k *ℤ dy) ==V stone then true else near ls

unfoldable pub find_winning_moves_around : Position → ℕ → Stone → List ℕ
find_winning_moves_around p placed_action stone =
    wins_around p (action_x placed_action) (action_y placed_action) stone (lines directions) []

unfoldable pub find_created_winning_moves : Position → ℕ → Stone → List ℕ
find_created_winning_moves p placed_action stone =
    created p (action_x placed_action) (action_y placed_action) stone (lines directions) []

unfoldable pub has_stone_within_line_distance4 : Position → ℤ → ℤ → Stone → Bool
has_stone_within_line_distance4 p x y stone = near p x y stone (lines directions)
