-- ===== src/Engine/Vcf/Search.antt =====
-- The key table and Search of engine/src/vcf_solver.cpp. The set of failed positions is a list of
-- hashes; the search runs on fuel for its depth.
pub mod Restore
pub mod Force
pub mod Sound
pub mod Fuel
use gomoku.Prelude.{
  ℕ, zero, suc, ◌+◌, ◌*◌, ◌/◌, ◌%◌, ◌^◌, Bool, true, false, not, ◌&&◌, List, [], ◌∷◌, Option, none,
  some, ltb, leb, length, ◌==◌, if◌then◌else◌, get_or,
}
use mathlib.Core.Option
use gomoku.Prelude.Xor.{◌xor◌}
use gomoku.Prelude.Int.{ℤ, pos, negsuc}
use gomoku.Engine.Vcf.{
  Position, Stone, ◌==V◌, at_action, is_empty, set_action, action_x, action_y, vcf_num_cells,
}
use gomoku.Engine.Vcf.Threats.{
  winning_moves, find_created_winning_moves, has_stone_within_line_distance4, has,
}

-- SplitMix64: the state it leaves, and its output.
abbrev pub split_mix64 : ℕ → ℕ × ℕ
split_mix64 state =
    let state = (state + 11400714819323198485) % 2 ^ 64 in
    let z = (state xor (state / 2 ^ 30)) * 13787848793156543929 % 2 ^ 64 in
    let z = (z xor (z / 2 ^ 27)) * 10723151780598845931 % 2 ^ 64 in (state, z xor (z / 2 ^ 31))

abbrev pub key_table : ℕ → ℕ → List (ℕ × ℕ)
key_table zero state = []
key_table (suc cells) state =
    let first = split_mix64 state in
    let second = split_mix64 first.0 in (first.1, second.1) ∷ key_table cells second.0

pub zobrist_keys : List (ℕ × ℕ)
zobrist_keys = key_table vcf_num_cells 7899043630615687347

-- ZobristKeys()[action][ZobristStoneIndex(stone)].
unfoldable pub key : ℕ → Stone → ℕ
key action stone =
    let keys = get_or zobrist_keys action (0, 0) in if stone ==V Stone.black then keys.0 else keys.1

unfoldable pub hash_from : Position → ℕ → ℕ → ℕ → ℕ
hash_from p zero action hash = hash
hash_from p (suc left) action hash =
    let stone = at_action p (pos action) in
    hash_from p left (suc action)
      (if not (stone ==V Stone.empty) then hash xor key action stone else hash)

unfoldable pub hash_position : Position → ℕ
hash_position p = hash_from p vcf_num_cells 0 0

pub record SearchContext : Type 0 where
  pub attacker : Stone
  pub defender : Stone
  pub max_nodes : ℤ
  pub visited_nodes : ℕ
  pub hash : ℕ
  pub failed_positions : List ℕ

-- The position that the search changes in place, and its context.
abbrev pub Scratch : Type 0
Scratch = Position × SearchContext

unfoldable pub make_move : Scratch → ℕ → Stone → Scratch
make_move (p, c) action stone =
    ((set_action p (pos action) stone).0, record c { hash = c.hash xor key action stone })

unfoldable pub unmake_move : Scratch → ℕ → Stone → Scratch
unmake_move (p, c) action stone =
    ((set_action p (pos action) Stone.empty).0, record c { hash = c.hash xor key action stone })

-- What the search answers: the line if it found one, and the state it leaves.
abbrev pub Found : Type 0
Found = Option (List ℕ) × Scratch

-- The last part of a round of the loop, with the attacker's stone placed: `solve` is the search of
-- the position after the defender's reply.
unfoldable pub pursue : (Scratch → Found) → Scratch → ℕ → List ℕ → Found
pursue solve s attack_action [] = (none, unmake_move s attack_action s.1.attacker)
pursue solve s attack_action (defense_action ∷ []) =
    let (continuation, t) = solve (make_move s defense_action s.1.defender) in
    (
      Option.map (λ (line : List ℕ). attack_action ∷ defense_action ∷ line) continuation,
      unmake_move (unmake_move t defense_action t.1.defender) attack_action t.1.attacker,
    )
pursue solve s attack_action (a ∷ b ∷ wins) =
    (some (attack_action ∷ []), unmake_move s attack_action s.1.attacker)

-- The guard on the defender's own wins.
abbrev pub defender_wins_first : List ℕ → ℕ → Bool
defender_wins_first [] action = false
defender_wins_first (a ∷ []) action = not (a == action)
defender_wins_first (a ∷ b ∷ wins) action = true

-- A round of the loop: a `none` goes on.
unfoldable pub attempt : (Scratch → Found) → List ℕ → Scratch → ℕ → Found
attempt solve defender_wins s action =
    if not (is_empty s.0 (pos action))
    then (none, s)
    else if defender_wins_first defender_wins action
    then (none, s)
    else if not
        (has_stone_within_line_distance4 s.0 (action_x action) (action_y action) s.1.attacker)
    then (none, s)
    else let made = make_move s action s.1.attacker in
      pursue solve made action (find_created_winning_moves made.0 action made.1.attacker)

-- The loop, `left` rounds from `action`, and what follows it.
unfoldable pub attempts : (Scratch → Found) → List ℕ → ℕ → ℕ → Scratch → Found
attempts solve defender_wins zero action (p, c) =
    (none, (p, record c { failed_positions = c.hash ∷ c.failed_positions }))
attempts solve defender_wins (suc left) action s =
    let (found, t) = attempt solve defender_wins s action in
    let rest = attempts solve defender_wins left (suc action) t in
    elim found [ none ↦ rest | some line ↦ (some line, t) ]

-- visited > max_nodes
abbrev pub exceeds : ℕ → ℤ → Bool
exceeds visited (pos max_nodes) = ltb max_nodes visited
exceeds visited (negsuc n) = true

-- Search past its two early returns.
unfoldable pub expand : (Scratch → Found) → Scratch → Found
expand solve s = elim (winning_moves s.0 s.1.attacker) [
  | action ∷ wins ↦ (some (action ∷ []), s)
  | [] ↦ attempts solve (winning_moves s.0 s.1.defender) vcf_num_cells 0 s
]

abbrev pub visit : SearchContext → SearchContext
visit c = record c { visited_nodes = suc c.visited_nodes }

unfoldable pub search : ℕ → Scratch → Found
search zero s = (none, s)
search (suc fuel) (p, c) =
    let c = visit c in
    if exceeds c.visited_nodes c.max_nodes
    then (none, (p, c))
    else if has c.failed_positions c.hash
    then (none, (p, c))
    else expand (search fuel) (p, c)
