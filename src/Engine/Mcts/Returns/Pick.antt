-- ===== src/Engine/Mcts/Returns/Pick.antt =====
-- The loop over the children in MCTS::Search of engine/src/mcts.cpp picks one of them, and the descent
-- comes to a leaf.
use gomoku.Engine.Mcts.Batch.{select_leaves}
use gomoku.Prelude.Results.{Any, bind-Returns, map-Returns, some-Any}
use gomoku.Prelude.{
  ℕ, zero, suc, ◌+◌, ◌<◌, ◌≡◌, refl, sym, subst, Bool, true, false, not, ◌==◌, Option, none, some,
  arith, if_cases, if_both,
}
use gomoku.Prelude.Float.{Float}
use gomoku.Engine.Board.{Board}
use gomoku.Engine.Board.Rules.{apply}
use gomoku.Engine.Mcts.{Info, Forest, nil, tree, Node, is_nil, add_virtual_loss, calculate_puct}
use gomoku.Engine.Mcts.Policy.{Random, count_children}
use gomoku.Engine.Mcts.Walk.{
  Best, Leaf, is_inner, follow, consider, consider_all, pick_child, descend, descend_root,
  with_losses,
}
use gomoku.Engine.Mcts.Search.{Mcts}

module _ {ℓ} {W : Type ℓ} ⦃f : Float W⦄ where
  -- The value of each child is more than minus infinity (so it is no NaN either).
  abbrev pub Above : W → Info W → Forest W → Type 0
  Above c parent nil = Unit
  Above c parent (tree child kids rest) =
      (f.lt f.minus_infinity (calculate_puct parent child c) ≡ true) × Above c parent rest

  -- The same at each node below a node, with the virtual loss that a descent leaves on its way to it.
  abbrev pub AllAbove : W → ℕ → Info W → Forest W → Type 0
  AllAbove c loss parent nil = Unit
  AllAbove c loss parent (tree child kids rest) =
      let here = add_virtual_loss loss parent.current_player child in
      Above c here kids × AllAbove c loss here kids × AllAbove c loss parent rest

  abbrev pub IsAbove : W → ℕ → Node W → Type 0
  IsAbove c loss (root, kids) = Above c root kids × AllAbove c loss root kids

abbrev Below : ℕ → Option ℕ → Type 0
Below n none = ⊥
Below n (some i) = i < n

Below-more : (n : ℕ) (o : Option ℕ) → Below n o → Below (suc n) o
Below-more n none h = h
Below-more n (some i) h = omega arith

follow-Any :
    {R : Type 0} (n : ℕ) (picked : Option ℕ) (go : ℕ → Option (Leaf × R))
    → Below n picked
    → ((i : ℕ) → i < n → Any (go i))
    → Any (follow picked go)
follow-Any n none go h all = elim h [ ]
follow-Any n (some i) go h all = map-Returns (λ r. Unit) (λ r. Unit) (go i) _ (all i h) (λ r u. tt)

branch-Any :
    {R : Type 0} (b : Bool) (one two : Option (Leaf × R))
    → Any one
    → (b ≡ true → Any two)
    → Any (elim b as (λ o. Option (Leaf × R)) [ true ↦ two | false ↦ one ])
branch-Any true one two h k = k refl
branch-Any false one two h k = h

module _ {ℓ} {W : Type ℓ} {R : Type 0} ⦃f : Float W⦄ ⦃random : Random W R⦄ where
  first_Below :
      (c : W) (ties : Bool) (parent child : Info W) (index : ℕ) (best : Best W R)
      → f.lt best.max_puct (calculate_puct parent child c) ≡ true
      → Below (suc index) (consider c ties false parent child index best).best_child
  unfolding consider
  first_Below c ties parent child index best h =
      let P = λ (b : Best W R). Below (suc index) b.best_child in
      if_cases P (f.lt best.max_puct (calculate_puct parent child c)) (λ e. omega arith)
        (λ e. absurd (ground arith))

  step_Below :
      (c : W) (ties : Bool) (parent child : Info W) (index : ℕ) (best : Best W R)
      → Below index best.best_child
      → Below (suc index) (consider c ties false parent child index best).best_child
  unfolding consider
  step_Below c ties parent child index best h =
      let P = λ (b : Best W R). Below (suc index) b.best_child in
      let puct = calculate_puct parent child c in
      let kept = Below-more index best.best_child h in
      let drawn = random.draw (best.max_puct_ties + 1) best.engine in
      if_cases P (f.lt best.max_puct puct) (λ e. omega arith)
        (λ e.
          if_cases P (not (f.eq puct best.max_puct)) (λ k. kept)
            (λ k.
              if_cases P (not ties) (λ q. kept)
                (λ q.
                  if_both (Below (suc index)) (drawn.0 == 1) {x = some index} {y = best.best_child}
                    (omega arith) kept)))

  all_Below :
      (c : W) (ties : Bool) (parent : Info W) (kids : Forest W) (index : ℕ) (best : Best W R)
      → Below index best.best_child
      → Below
          (index + count_children kids)
          (consider_all c ties false parent kids index best).best_child
  unfolding consider_all
  all_Below c ties parent nil index best h = subst (λ n. Below n best.best_child) (omega arith) h
  all_Below c ties parent (tree info kids rest) index best h =
      subst
        (λ n.
          Below n
            (consider_all c ties false parent rest (suc index)
              (consider c ties false parent info index best)).best_child)
        (omega arith)
        (all_Below c ties parent rest (suc index) (consider c ties false parent info index best)
          (step_Below c ties parent info index best h))

  pick_child-Below :
      (c : W) (ties : Bool) (parent : Info W) (kids : Forest W) (engine : R)
      → Above c parent kids
      → is_nil kids ≡ false
      → Below (count_children kids) (pick_child c ties false parent kids engine).0
  unfolding pick_child consider_all
  pick_child-Below c ties parent nil engine above h = absurd (ground arith)
  pick_child-Below c ties parent (tree info kids rest) engine above h =
      subst (λ n. Below n (pick_child c ties false parent (tree info kids rest) engine).0)
        (omega arith)
        (all_Below c ties parent rest 1 _ (first_Below c ties parent info 0 _ above.0))

  descend-Any :
      (rng : ℕ → ℕ) (c : W) (ties : Bool) (loss index : ℕ) (parent : Info W) (board : Board)
      (kids : Forest W) (engine : R)
      → AllAbove c loss parent kids
      → index < count_children kids
      → Any (descend rng c ties loss index parent board kids engine)
  unfolding descend
  descend-Any rng c ties loss zero parent board nil engine above h = absurd (omega arith)
  descend-Any rng c ties loss (suc i) parent board nil engine above h = absurd (omega arith)
  descend-Any rng c ties loss zero parent board (tree child kids rest) engine above h =
      let here = add_virtual_loss loss parent.current_player child in
      let next = apply rng board child.action_id in
      let picked = pick_child c ties false here kids engine in
      branch-Any (is_inner child kids) _ _ (some-Any _) (λ inner.
        follow-Any (count_children kids) picked.0 _
          (pick_child-Below c ties here kids engine above.0 (ground arith))
          (λ i k. descend-Any rng c ties loss i here next kids picked.1 above.1 k))
  descend-Any rng c ties loss (suc i) parent board (tree child kids rest) engine above h =
      descend-Any rng c ties loss i parent board rest engine above.2 (omega arith)

  descend_root-Any :
      (rng : ℕ → ℕ) (c : W) (ties : Bool) (loss : ℕ) (board : Board) (root : Node W) (engine : R)
      → IsAbove c loss root
      → Any (descend_root rng c ties false loss board root engine)
  unfolding descend_root
  descend_root-Any rng c ties loss board (info, kids) engine above =
      let picked = pick_child c ties false info kids engine in
      branch-Any (is_inner info kids) _ _ (some-Any _) (λ inner.
        follow-Any (count_children kids) picked.0 _
          (pick_child-Below c ties info kids engine above.0 (ground arith))
          (λ i k. descend-Any rng c ties loss i info board kids picked.1 above.1 k))

-- The trees of a batch, each with the losses of the descents so far, and the random engine there.
pub data Descents {ℓ} {W : Type ℓ} {R : Type 0} ⦃f : Float W⦄ ⦃random : Random W R⦄ (rng : ℕ → ℕ)
    (m : Mcts W R) (board : Board) (root : Node W) : Node W → R → Type ℓ where
  no_descent : Descents rng m board root root m.random_engine
  a_descent :
      {t : Node W} {engine next : R} (leaf : Leaf)
      → Descents rng m board root t engine
      → descend_root rng m.c_puct m.randomize_ties m.root_defensive_mask_active m.virtual_loss board
          t engine
        ≡ some (leaf, next)
      → Descents rng m board root (with_losses m.virtual_loss leaf.path t) next

-- Each tree of a batch has values that are more than minus infinity.
abbrev pub BatchAbove {ℓ} :
    {W : Type ℓ} {R : Type 0} ⦃f : Float W⦄ ⦃random : Random W R⦄
    → (ℕ → ℕ)
    → Mcts W R
    → Board
    → Node W
    → Type ℓ
BatchAbove {W} {R} rng m board root =
    (t : Node W) (engine : R)
    → Descents rng m board root t engine
    → IsAbove m.c_puct m.virtual_loss t

module _ {ℓ} {W : Type ℓ} {R : Type 0} ⦃f : Float W⦄ ⦃random : Random W R⦄ where
  -- The descents of a batch all come to a leaf.
  pub select_leaves-Any :
      (rng : ℕ → ℕ) (m : Mcts W R) (board : Board) (root : Node W)
      → BatchAbove rng m board root
      → m.root_defensive_mask_active ≡ false
      → (count : ℕ) (t : Node W) (engine : R) → Descents rng m board root t engine
      → Any (select_leaves rng m count board t engine)
  unfolding select_leaves
  select_leaves-Any rng m board root above open_root zero t engine came = some-Any _
  select_leaves-Any rng m board root above open_root (suc left) t engine came =
      let descent =
        descend_root rng m.c_puct m.randomize_ties m.root_defensive_mask_active m.virtual_loss board
          t engine in
      let (found, e, u) =
        subst
          (λ b. Any (descend_root rng m.c_puct m.randomize_ties b m.virtual_loss board t engine))
          (sym open_root)
          (descend_root-Any rng m.c_puct m.randomize_ties m.virtual_loss board t engine
            (above t engine came)) in
      bind-Returns (λ r. descent ≡ some r) (λ r. Unit) descent _ (found, e, e)
        (λ r k.
          map-Returns (λ r. Unit) (λ r. Unit) _ _
            (select_leaves-Any rng m board root above open_root left
              (with_losses m.virtual_loss r.0.path t) r.1 (a_descent r.0 came k))
            (λ r u. tt))
