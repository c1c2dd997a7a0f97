-- ===== src/Engine/RandomEvaluator.antt =====
-- engine/src/random_evaluator.cpp, an evaluator of the tree search: every legal action is as likely as
-- any other. Its side work runs before it, and is not seen in the results.
mod Tests
use gomoku.Prelude.{
  ℕ, suc, ◌≡◌, ◌<◌, ◌==◌, refl, sym, ap, List, [], ◌∷◌, Bool, ◌||◌, true, false, length, if_cases,
  if◌then◌else◌, length-set, length-replicate, ◌∙◌, get_or, set, get_or-replicate, get_or-set_self,
  get_or-set_ne, arith, inl, inr, Bool-cases,
}
use gomoku.Prelude.Int.{ℤ, pos, negsuc, pos_part, contains, ==ℤ_iff, ◌==ℤ◌}
use gomoku.Prelude.Float.{Float}
use gomoku.Engine.Board.{Board}
use gomoku.Engine.Board.Play.{get_legal_actions}
use gomoku.Engine.Mcts.{num_actions}
use gomoku.Engine.Mcts.Policy.{EvaluationResult, no_policy, write_all, is_empty_list}
use gomoku.Engine.Mcts.Search.{Evaluator}
use gomoku.Engine.Mcts.Fits.Support.{is_pos, legal_bound}

module _ {ℓ} {W : Type ℓ} ⦃f : Float W⦄ where
  -- The policy of one board.
  abbrev pub even_policy : List ℤ → List W
  even_policy legal_actions =
      let prob = f.div f.one (f.of_int (pos (length legal_actions))) in
      if is_empty_list legal_actions
      then no_policy
      else write_all legal_actions (λ action. prob) no_policy

  abbrev pub evaluate_random : List Board → List (EvaluationResult W)
  evaluate_random [] = []
  evaluate_random (board ∷ boards) =
      record { move_pmf = even_policy (get_legal_actions board); value = f.nought }
      ∷ evaluate_random boards

  -- The share of an action: one over the count of the legal ones, or nought if it is not among them.
  abbrev pub share : List ℤ → ℤ → W
  share legal id =
      if contains legal id then f.div f.one (f.of_int (pos (length legal))) else f.nought

  share_none : (legal : List ℤ) (id : ℤ) → is_empty_list legal ≡ true → share legal id ≡ f.nought
  share_none [] id e = refl
  share_none (a ∷ legal) id e = absurd (ground arith)

  -- The results of boards, in their order: the value nought, and a policy of 230 entries in which each
  -- action has its share.
  abbrev pub Matches : List Board → List (EvaluationResult W) → Type ℓ
  Matches [] results = Unit
  Matches (b ∷ boards) [] = Unit
  Matches (b ∷ boards) (r ∷ results) =
      (length r.move_pmf ≡ num_actions)
      × (r.value ≡ f.nought)
      × ((i : ℕ) → get_or r.move_pmf i f.nought ≡ share (get_legal_actions b) (pos i))
      × Matches boards results

  length-write_all :
      (ids : List ℤ) (value : ℤ → W) (policy : List W)
      → length (write_all ids value policy) ≡ length policy
  unfolding write_all
  length-write_all [] value policy = refl
  length-write_all (id ∷ ids) value policy =
      length-write_all ids value _ ∙ length-set policy (pos_part id) (value id)

  write_one :
      (id : ℤ) (i : ℕ) (among : Bool) (policy : List W) (v : W)
      → id ≡ pos (pos_part id)
      → pos_part id < length policy
      → (if among then v else get_or (set policy (pos_part id) v) i f.nought)
        ≡ (if id ==ℤ pos i || among then v else get_or policy i f.nought)
  write_one (negsuc n) i among policy v e h = absurd (ground arith)
  write_one (pos k) i among policy v e h = elim (Bool-cases (k == i)) [
    | inl same ↦ grind (arith, same, get_or-set_self policy k v f.nought h)
    | inr other ↦
        grind (arith, other, get_or-set_ne policy k i v f.nought (λ q. ground (arith, q, other)))
  ]

  write_all-get :
      (ids : List ℤ) (v : W) (policy : List W) (i : ℕ)
      → ((id : ℤ)
          → contains ids id ≡ true
          → (id ≡ pos (pos_part id)) × (pos_part id < length policy))
      → get_or (write_all ids (λ id. v) policy) i f.nought
        ≡ (if contains ids (pos i) then v else get_or policy i f.nought)
  unfolding write_all
  write_all-get [] v policy i all = refl
  write_all-get (id ∷ ids) v policy i all =
      let here = all id (ground (arith, (==ℤ_iff id id).1 refl)) in
      let same = length-set policy (pos_part id) v in
      let later =
        write_all-get ids v (set policy (pos_part id) v) i
          (λ a h. let (e, k) = all a (ground (arith, h)) in (e, omega (arith, k, same))) in
      later ∙ write_one id i (contains ids (pos i)) policy v here.0 here.1

module _ {ℓ} (W : Type ℓ) ⦃f : Float W⦄ where
  length-evaluate_random :
      (boards : List Board) → length (evaluate_random {W = W} boards) ≡ length boards
  length-evaluate_random [] = refl
  length-evaluate_random (b ∷ boards) = ap suc (length-evaluate_random boards)

  each-Matches : (boards : List Board) → Matches boards (evaluate_random {W = W} boards)
  each-Matches [] = tt
  each-Matches (b ∷ boards) =
      let legal = get_legal_actions b in
      let prob = f.div f.one (f.of_int (pos (length legal))) in
      let sized = length-replicate num_actions f.nought in
      let P = λ (p : List W).
        (length p ≡ num_actions) × ((i : ℕ) → get_or p i f.nought ≡ share legal (pos i)) in
      let (long, shares) =
        if_cases P (is_empty_list legal)
          (λ e. (
            sized,
            λ i. get_or-replicate num_actions i f.nought ∙ sym (share_none legal (pos i) e),
          ))
          (λ e. (
            length-write_all legal (λ action. prob) no_policy ∙ sized,
            λ i.
                write_all-get legal prob no_policy i (λ id h. (is_pos b id h, legal_bound b id h))
                ∙ ap (λ w. if contains legal (pos i) then prob else w)
                    (get_or-replicate num_actions i f.nought),
          )) in
      (long, refl, shares, each-Matches boards)

  -- RandomEvaluator answers each board, in their order, with the value 0 and a policy of 230 entries, in
  -- which each legal action has 1 over the count of legal actions and any other action 0.
  pub evaluate_random-Matches :
      (boards : List Board)
      → (length (evaluate_random {W = W} boards) ≡ length boards)
        × Matches boards (evaluate_random {W = W} boards)
  evaluate_random-Matches boards = (length-evaluate_random boards, each-Matches boards)

-- RandomEvaluator, as an evaluator.
abbrev pub random_evaluator {ℓ} : {W : Type ℓ} {E : Type 0} ⦃f : Float W⦄ → Evaluator W E
random_evaluator = record { evaluate = λ boards world. (evaluate_random boards, world) }
