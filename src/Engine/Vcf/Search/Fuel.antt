-- ===== src/Engine/Vcf/Search/Fuel.antt =====
-- The fuel of the search: one round more than the nodes that are left is enough.
use gomoku.Prelude.{
  ℕ, zero, suc, ◌+◌, ◌≤◌, ◌<◌, ◌≡◌, refl, ap, ◌∙◌, false, not, none, some, List, [], ◌∷◌, arith,
  if_cases, Bool-cases, inl, inr, if◌then◌else◌,
}
use mathlib.Core.Option
use gomoku.Prelude.Int.{ℤ, pos, negsuc, pos_part}
use gomoku.Engine.Vcf.{Stone, is_empty, action_x, action_y, vcf_num_cells}
use gomoku.Engine.Vcf.Threats.{has, has_stone_within_line_distance4, winning_moves}
use gomoku.Engine.Vcf.Search.{
  Scratch, Found, SearchContext, make_move, unmake_move, pursue, attempt, attempts, expand, exceeds,
  search, visit, defender_wins_first,
}

-- From one context to a later one: the budget stays, and the nodes visited grow.
pub record IsLater (c d : SearchContext) : Type 0 where
  pub budget : d.max_nodes ≡ c.max_nodes
  pub spent : c.visited_nodes ≤ d.visited_nodes

at_once : (c : SearchContext) → IsLater c c
at_once c = record { budget = refl; spent = omega arith }

after : {c d e : SearchContext} → IsLater c d → IsLater d e → IsLater c e
after v w = record { budget = w.budget ∙ v.budget; spent = omega (arith, v.spent, w.spent) }

made_later : (s : Scratch) (a : ℕ) (k : Stone) → IsLater s.1 (make_move s a k).1
unfolding make_move
made_later (p, c) a k = record { budget = refl; spent = omega arith }

unmade_later : (s : Scratch) (a : ℕ) (k : Stone) → IsLater s.1 (unmake_move s a k).1
unfolding unmake_move
unmade_later (p, c) a k = record { budget = refl; spent = omega arith }

-- A search that only goes on.
abbrev Keeps : (Scratch → Found) → Type 0
Keeps solve = (s : Scratch) → IsLater s.1 (solve s).1.1

pursue-IsLater :
    (solve : Scratch → Found) (s : Scratch) (a : ℕ) (wins : List ℕ)
    → Keeps solve
    → IsLater s.1 (pursue solve s a wins).1.1
unfolding pursue
pursue-IsLater solve s a [] keeps = unmade_later s a _
pursue-IsLater solve s a (w ∷ []) keeps =
    after (made_later s w _) (after (keeps _) (after (unmade_later _ w _) (unmade_later _ a _)))
pursue-IsLater solve s a (w ∷ u ∷ wins) keeps = unmade_later s a _

attempt-IsLater :
    (solve : Scratch → Found) (wins : List ℕ) (s : Scratch) (a : ℕ)
    → Keeps solve
    → IsLater s.1 (attempt solve wins s a).1.1
unfolding attempt
attempt-IsLater solve wins s a keeps =
    let later : Found → Type 0 = λ f. IsLater s.1 f.1.1 in
    if_cases later (not (is_empty s.0 (pos a))) (λ e. at_once s.1)
      (λ e.
        if_cases later (defender_wins_first wins a) (λ e. at_once s.1)
          (λ e.
            if_cases later
              (not (has_stone_within_line_distance4 s.0 (action_x a) (action_y a) s.1.attacker))
              (λ e. at_once s.1)
              (λ e.
                after (made_later s a s.1.attacker)
                  (pursue-IsLater solve (make_move s a s.1.attacker) a _ keeps))))

onward_later :
    (c : SearchContext) (f rest : Found)
    → IsLater c f.1.1
    → IsLater f.1.1 rest.1.1
    → IsLater c (elim f.0 as (λ o. Found) [ none ↦ rest | some line ↦ (some line, f.1) ]).1.1
onward_later c (none, t) rest v w = after v w
onward_later c (some line, t) rest v w = v

attempts-IsLater :
    (solve : Scratch → Found) (wins : List ℕ) (left a : ℕ) (s : Scratch)
    → Keeps solve
    → IsLater s.1 (attempts solve wins left a s).1.1
unfolding attempts
attempts-IsLater solve wins zero a (p, c) keeps = record { budget = refl; spent = omega arith }
attempts-IsLater solve wins (suc left) a s keeps =
    let f = attempt solve wins s a in
    onward_later s.1 f _ (attempt-IsLater solve wins s a keeps)
      (attempts-IsLater solve wins left (suc a) f.1 keeps)

expanded_later :
    (solve : Scratch → Found) (s : Scratch) (wins others : List ℕ)
    → Keeps solve
    → IsLater s.1
        (elim wins as (λ o. Found) [
          | action ∷ rest ↦ (some (action ∷ []), s)
          | [] ↦ attempts solve others vcf_num_cells 0 s
        ]).1.1
expanded_later solve s [] others keeps = attempts-IsLater solve others vcf_num_cells 0 s keeps
expanded_later solve s (action ∷ rest) others keeps = at_once s.1

search-Keeps : (fuel : ℕ) → Keeps (search fuel)
unfolding search expand
search-Keeps zero s = at_once s.1
search-Keeps (suc fuel) (p, c) =
    let visited : Scratch = (p, visit c) in
    let later : Found → Type 0 = λ f. IsLater (visit c) f.1.1 in
    let here : IsLater c (visit c) = record { budget = refl; spent = omega arith } in
    after here (
      if_cases later (exceeds (suc c.visited_nodes) c.max_nodes) (λ e. at_once (visit c))
        (λ e.
          if_cases later (has c.failed_positions c.hash) (λ e. at_once (visit c))
            (λ e.
              expanded_later (search fuel) visited (winning_moves p c.attacker)
                (winning_moves p c.defender) (search-Keeps fuel))))

-- Two searches that agree from a context on.
abbrev Agree : SearchContext → (Scratch → Found) → (Scratch → Found) → Type 0
Agree c one two = (s : Scratch) → IsLater c s.1 → one s ≡ two s

module _ (one two : Scratch → Found) (c : SearchContext) (agree : Agree c one two) where
  pursue_agrees :
      (s : Scratch) (a : ℕ) (wins : List ℕ)
      → IsLater c s.1
      → pursue one s a wins ≡ pursue two s a wins
  unfolding pursue
  pursue_agrees s a [] v = refl
  pursue_agrees s a (w ∷ []) v =
      ap
        (λ (f : Found). (
          Option.map (λ (line : List ℕ). a ∷ w ∷ line) f.0,
          unmake_move (unmake_move f.1 w f.1.1.defender) a f.1.1.attacker,
        ))
        (agree (make_move s w s.1.defender) (after v (made_later s w s.1.defender)))
  pursue_agrees s a (w ∷ u ∷ wins) v = refl

  attempt_agrees :
      (wins : List ℕ) (s : Scratch) (a : ℕ)
      → IsLater c s.1
      → attempt one wins s a ≡ attempt two wins s a
  unfolding attempt
  attempt_agrees wins s a v =
      ap
        (λ (f : Found).
          if not (is_empty s.0 (pos a))
          then (none, s)
          else if defender_wins_first wins a
          then (none, s)
          else if not (has_stone_within_line_distance4 s.0 (action_x a) (action_y a) s.1.attacker)
          then (none, s)
          else f)
        (pursue_agrees (make_move s a s.1.attacker) a _ (after v (made_later s a s.1.attacker)))

  attempts_agree :
      (wins : List ℕ) (left a : ℕ) (s : Scratch)
      → Keeps one
      → IsLater c s.1
      → attempts one wins left a s ≡ attempts two wins left a s
  unfolding attempts
  attempts_agree wins zero a (p, d) keeps v = refl
  attempts_agree wins (suc left) a s keeps v =
      let f = attempt one wins s a in
      let rest =
        attempts_agree wins left (suc a) f.1 keeps (after v (attempt-IsLater one wins s a keeps)) in
      ap (λ (r : Found). elim f.0 as (λ o. Found) [ none ↦ r | some line ↦ (some line, f.1) ]) rest
      ∙ ap
          (λ (g : Found). elim g.0 as (λ o. Found) [
            | none ↦ attempts two wins left (suc a) g.1
            | some line ↦ (some line, g.1)
          ])
          (attempt_agrees wins s a v)

  expand_agrees : (s : Scratch) → Keeps one → IsLater c s.1 → expand one s ≡ expand two s
  unfolding expand
  expand_agrees s keeps v =
      ap
        (λ (r : Found). elim (winning_moves s.0 s.1.attacker) as (λ o. Found) [
          | action ∷ rest ↦ (some (action ∷ []), s)
          | [] ↦ r
        ])
        (attempts_agree (winning_moves s.0 s.1.defender) vcf_num_cells 0 s keeps v)

exceeds_lem : (n : ℕ) (budget : ℤ) → exceeds n budget ≡ false → n ≤ pos_part budget
exceeds_lem n (pos m) h = ground (arith, h)
exceeds_lem n (negsuc m) h = ground (arith, h)

-- More fuel than the nodes that are left changes nothing: two searches with fuel for a round and for
-- all nodes that the budget leaves answer alike, and leave the same position and context.
pub search_fuel :
    (f g : ℕ) (s : Scratch)
    → pos_part s.1.max_nodes < f + s.1.visited_nodes
    → pos_part s.1.max_nodes < g + s.1.visited_nodes
    → 0 < f
    → 0 < g
    → search f s ≡ search g s
unfolding search
search_fuel zero g s h k a b = absurd (omega (arith, a))
search_fuel (suc f) zero s h k a b = absurd (omega (arith, b))
search_fuel (suc f) (suc g) (p, c) h k a b =
    elim (Bool-cases (exceeds (suc c.visited_nodes) c.max_nodes)) [
      | inl e ↦ rw e refl
      | inr e ↦
          let left = exceeds_lem (suc c.visited_nodes) c.max_nodes e in
          let agree : Agree (visit c) (search f) (search g) = λ t v.
            let m = ap pos_part v.budget in
            search_fuel f g t (omega (arith, m, v.spent, h)) (omega (arith, m, v.spent, k))
              (omega (arith, left, h)) (omega (arith, left, k)) in
          ap
            (λ (r : Found).
              if exceeds (suc c.visited_nodes) c.max_nodes
              then (none, (p, visit c))
              else if has c.failed_positions c.hash
              then (none, (p, visit c))
              else r)
            (expand_agrees (search f) (search g) (visit c) agree (p, visit c) (search-Keeps f)
              (at_once (visit c)))
    ]
