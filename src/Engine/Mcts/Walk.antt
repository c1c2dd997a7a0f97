-- ===== src/Engine/Mcts/Walk.antt =====
-- The descent of one simulation in MCTS::Search of engine/src/mcts.cpp. The loop over the children
-- reads the parent and the children; the loss is added to the child that it picks, and the descent
-- goes on from there. `none` stands for the null pointer, where no child is picked.
use gomoku.Prelude.{
  ℕ, zero, suc, ◌+◌, Bool, true, false, ◌&&◌, not, List, [], ◌∷◌, ◌==◌, if◌then◌else◌, Option, none,
  some,
}
use mathlib.Core.Option
use gomoku.Prelude.Float.{Float}
use gomoku.Engine.Board.{Board, Seat}
use gomoku.Engine.Board.Rules.{apply}
use gomoku.Engine.Mcts.{
  Info, Forest, nil, tree, Node, is_nil, add_virtual_loss, along, calculate_puct,
}
use gomoku.Engine.Mcts.Policy.{Random}

-- The state of the loop over the children.
pub record Best {ℓ} (W : Type ℓ) (R : Type 0) : Type ℓ where
  pub max_puct : W
  pub best_child : Option ℕ
  pub max_puct_ties : ℕ
  pub engine : R

-- A leaf that the descent came to.
pub record Leaf : Type 0 where
  pub path : List ℕ
  pub board : Board
  pub seat : Seat

abbrev pub is_inner {ℓ} : {W : Type ℓ} → Info W → Forest W → Bool
is_inner info kids = info.is_expanded && not (is_nil kids)

abbrev pub step_down : ℕ → Leaf → Leaf
step_down index leaf = record leaf { path = index ∷ leaf.path }

-- On to the child that was picked, if one was.
abbrev pub follow : {R : Type 0} → Option ℕ → (ℕ → Option (Leaf × R)) → Option (Leaf × R)
follow none descend_to = none
follow {R} (some index) descend_to =
    Option.map (λ (r : Leaf × R). (step_down index r.0, r.1)) (descend_to index)

module _ {ℓ} {W : Type ℓ} {R : Type 0} ⦃f : Float W⦄ ⦃random : Random W R⦄ where
  unfoldable pub consider : W → Bool → Bool → Info W → Info W → ℕ → Best W R → Best W R
  consider c_puct randomize_ties masked parent child index best =
      let puct = calculate_puct parent child c_puct in
      let ties = best.max_puct_ties + 1 in
      let drawn = random.draw ties best.engine in
      if masked && f.le child.prior_prob f.nought
      then best
      else if f.lt best.max_puct puct
      then record best { max_puct = puct; best_child = some index; max_puct_ties = 1 }
      else if not (f.eq puct best.max_puct)
      then best
      else if not randomize_ties
      then record best { max_puct_ties = ties }
      else record best {
        max_puct_ties = ties;
        best_child = if drawn.0 == 1 then some index else best.best_child;
        engine = drawn.1;
      }

  unfoldable pub consider_all : W → Bool → Bool → Info W → Forest W → ℕ → Best W R → Best W R
  consider_all c_puct randomize_ties masked parent nil index best = best
  consider_all c_puct randomize_ties masked parent (tree child kids rest) index best =
      consider_all c_puct randomize_ties masked parent rest (suc index)
        (consider c_puct randomize_ties masked parent child index best)

  unfoldable pub pick_child : W → Bool → Bool → Info W → Forest W → R → Option ℕ × R
  pick_child c_puct randomize_ties masked parent children engine =
      let best = consider_all c_puct randomize_ties masked parent children 0 (record {
        max_puct = f.minus_infinity;
        best_child = none;
        max_puct_ties = 0;
        engine = engine;
      }) in
      (best.best_child, best.engine)

  -- From a node to its child at an index, and on: the path from there, the board, and the seat to
  -- move at the leaf.
  unfoldable pub descend :
      (ℕ → ℕ) → W → Bool → ℕ → ℕ → Info W → Board → Forest W → R → Option (Leaf × R)
  descend rng c_puct randomize_ties virtual_loss index parent board nil engine = none
  descend rng c_puct randomize_ties virtual_loss zero parent board (tree child kids rest) engine =
      let here = add_virtual_loss virtual_loss parent.current_player child in
      let next = apply rng board child.action_id in
      let picked = pick_child c_puct randomize_ties false here kids engine in
      elim (is_inner child kids) [
        | false ↦ some (record { path = []; board = next; seat = child.current_player }, engine)
        | true ↦
            follow picked.0
              (λ i. descend rng c_puct randomize_ties virtual_loss i here next kids picked.1)
      ]
  descend rng c_puct randomize_ties virtual_loss (suc index) parent board (tree child kids rest)
        engine =
      descend rng c_puct randomize_ties virtual_loss index parent board rest engine

  -- The descent from the root.
  unfoldable pub descend_root :
      (ℕ → ℕ) → W → Bool → Bool → ℕ → Board → Node W → R → Option (Leaf × R)
  descend_root rng c_puct randomize_ties masked virtual_loss board (info, kids) engine =
      let picked = pick_child c_puct randomize_ties masked info kids engine in
      elim (is_inner info kids) [
        | false ↦ some (record { path = []; board = board; seat = info.current_player }, engine)
        | true ↦
            follow picked.0
              (λ i. descend rng c_puct randomize_ties virtual_loss i info board kids picked.1)
      ]

-- The losses that a descent leaves on its path.
unfoldable pub with_losses {ℓ} : {W : Type ℓ} ⦃f : Float W⦄ → ℕ → List ℕ → Node W → Node W
with_losses virtual_loss path (info, kids) =
    (info, along (add_virtual_loss virtual_loss) path info.current_player kids)
