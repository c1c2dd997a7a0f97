-- ===== src/Engine/Vcf/Solve.antt =====
-- SolveVCF and AnalyzeVCFDefense of engine/src/vcf_solver.cpp, and the boards they are given. The
-- analysis answers whether a threat was found, and the safe actions.
pub mod Sound
pub mod OfBoard
use gomoku.Prelude.{
  ℕ, zero, suc, ◌+◌, Bool, true, false, ◌&&◌, ◌||◌, not, List, [], ◌∷◌, ◌++◌, map, Option, none,
  some, ltb, leb, if◌then◌else◌, get_or,
}
use gomoku.Prelude.Int.{ℤ, pos, pos_part, ◌+ℤ◌, ◌*ℤ◌}
use gomoku.Engine.Board.{Board, Player, Phase}
use gomoku.Engine.Board.Play.{is_terminal}
use gomoku.Engine.Vcf.{
  Position, Stone, ◌==V◌, other_stone, is_empty, set_action, set_at, new_position, is_inside,
  action_x, action_y, action_from_xy, directions, vcf_num_cells,
}
use gomoku.Engine.Vcf.Threats.{
  has_exact_five, winning_moves, find_winning_moves_around, has_stone_within_line_distance4, has,
  lines,
}
use gomoku.Engine.Vcf.Search.{Scratch, Found, SearchContext, hash_position, search}

-- A colour to move.
abbrev pub may_move : Position → Bool
may_move p = p.current_player ==V Stone.black || p.current_player ==V Stone.white

abbrev pub root_context : Position → ℤ → SearchContext
root_context p max_nodes = record {
  attacker = p.current_player;
  defender = other_stone p.current_player;
  max_nodes = max_nodes;
  visited_nodes = 0;
  hash = hash_position p;
  failed_positions = [];
}

-- No line is the empty line.
abbrev pub line_of : Option (List ℕ) → List ℕ
line_of none = []
line_of (some line) = line

-- A round of search visits a node, so one round more than max_nodes is enough fuel.
unfoldable pub solve_vcf : Position → ℤ → List ℕ
solve_vcf p max_nodes =
    if not (may_move p)
    then []
    else if has_exact_five p Stone.black || has_exact_five p Stone.white
    then []
    else line_of (search (suc (pos_part max_nodes)) (p, root_context p max_nodes)).0

abbrev pub to_vcf_stone : Player → Stone
to_vcf_stone Player.black = Stone.black
to_vcf_stone Player.white = Stone.white
to_vcf_stone Player.none = Stone.empty

-- The two loops over the cells, in the order of their ids, `left` rounds from `action`.
abbrev pub copy_cells : List Player → ℕ → ℕ → Position → Position
copy_cells cells zero action p = p
copy_cells cells (suc left) action p =
    copy_cells cells left (suc action)
      (set_at p (action_x action) (action_y action)
        (to_vcf_stone (get_or cells action Player.none))).0

unfoldable pub make_vcf_position : Board → Position
make_vcf_position board =
    copy_cells board.cells vcf_num_cells 0 (new_position (to_vcf_stone board.stone_to_place))

abbrev pub in_standard_play : Board → Bool
in_standard_play board = elim board.phase [ Phase.standard ↦ not (is_terminal board) | _ ↦ false ]

unfoldable pub solve_vcf_board : Board → ℤ → List ℕ
solve_vcf_board board max_nodes =
    if in_standard_play board then solve_vcf (make_vcf_position board) max_nodes else []

module _ (p : Position) where
  abbrev pub add_candidate : List ℕ → ℕ → List ℕ
  add_candidate found act =
      if is_empty p (pos act) && not (has found act) then found ++ act ∷ [] else found

  abbrev pub add_candidates : List ℕ → List ℕ → List ℕ
  add_candidates found [] = found
  add_candidates found (act ∷ acts) = add_candidates (add_candidate found act) acts

  -- The cells around a ply, along the directions.
  abbrev pub add_around : ℤ → ℤ → List (ℤ × ℤ × ℤ) → List ℕ → List ℕ
  add_around ax ay [] found = found
  add_around ax ay ((dx, dy, k) ∷ ls) found =
      let x = ax +ℤ k *ℤ dx in
      let y = ay +ℤ k *ℤ dy in
      add_around ax ay ls
        (if is_inside x y then add_candidate found (action_from_xy x y) else found)

  -- The loop over the line; the attacker's plies are the first, the third and so on.
  unfoldable pub replay_line : Stone → Stone → Bool → List ℕ → Position → List ℕ → List ℕ
  replay_line attacker defender is_attacker_ply [] replay found = found
  replay_line attacker defender is_attacker_ply (act ∷ line) replay found =
      let found = add_candidate found act in
      let stone = if is_attacker_ply then attacker else defender in
      let replay = (set_action replay (pos act) stone).0 in
      let wins = find_winning_moves_around replay act attacker in
      replay_line attacker defender (not is_attacker_ply) line replay (
        if is_attacker_ply
        then add_around (action_x act) (action_y act) (lines directions) (add_candidates found wins)
        else found)

  abbrev pub is_nil : List ℕ → Bool
  is_nil [] = true
  is_nil (a ∷ actions) = false

  -- The loop over the counter-fours, `left` rounds from `action`.
  unfoldable pub counter_fours : Stone → ℕ → ℕ → List ℕ → List ℕ
  counter_fours defender zero action found = found
  counter_fours defender (suc left) action found =
      let after_counter = (set_action p (pos action) defender).0 in
      counter_fours defender left (suc action) (
        if not (is_empty p (pos action)) || has found action
        then found
        else if not (has_stone_within_line_distance4 p (action_x action) (action_y action) defender)
        then found
        else if is_nil (find_winning_moves_around after_counter action defender)
        then found
        else add_candidate found action)

  -- The candidates after which the attacker has no line.
  unfoldable pub safe_among : Stone → Stone → ℤ → List ℕ → List ℕ
  safe_among attacker defender max_nodes [] = []
  safe_among attacker defender max_nodes (action ∷ actions) =
      let rest = safe_among attacker defender max_nodes actions in
      let after_defense = record (set_action p (pos action) defender).0 {
        current_player = attacker;
      } in
      if is_nil (solve_vcf after_defense max_nodes) then action ∷ rest else rest

-- std::sort.
abbrev pub insert : ℕ → List ℕ → List ℕ
insert a [] = a ∷ []
insert a (b ∷ bs) = let rest = insert a bs in if leb a b then a ∷ b ∷ bs else b ∷ rest

abbrev pub sort : List ℕ → List ℕ
sort [] = []
sort (a ∷ actions) = insert a (sort actions)

-- The candidates against a line that was found.
unfoldable pub candidates : Position → List ℕ → List ℕ
candidates p threat_line =
    let defender = p.current_player in
    let along = replay_line p (other_stone defender) defender true threat_line p [] in
    counter_fours p defender vcf_num_cells 0 (add_candidates p along (winning_moves p defender))

unfoldable pub analyze_vcf_defense : Position → ℤ → Bool × List ℕ
analyze_vcf_defense p max_nodes =
    if not (may_move p)
    then (false, [])
    else let attacker = other_stone p.current_player in
      elim (solve_vcf (record p { current_player = attacker }) max_nodes) [
        | [] ↦ (false, [])
        | act ∷ line ↦ (
          true,
          sort (safe_among p attacker p.current_player max_nodes (candidates p (act ∷ line))),
        )
      ]

unfoldable pub analyze_vcf_defense_board : Board → ℤ → Bool × List ℕ
analyze_vcf_defense_board board max_nodes =
    if in_standard_play board
    then analyze_vcf_defense (make_vcf_position board) max_nodes
    else (false, [])
