-- ===== src/Engine/Mcts/Fits/Descent.antt =====
-- The descent of engine/src/mcts.cpp ends at the board that its path leads to.
use gomoku.Prelude.{ℕ, zero, suc, refl, Bool, true, false, ◌∷◌, Option, none, some}
use gomoku.Prelude.Float.{Float}
use gomoku.Engine.Board.{Board}
use gomoku.Engine.Board.Rules.{apply}
use gomoku.Engine.Mcts.{Info, Forest, nil, tree, Node, add_virtual_loss}
use gomoku.Engine.Mcts.Policy.{Random}
use gomoku.Engine.Mcts.Walk.{Leaf, follow, is_inner, pick_child, descend, descend_root}
use gomoku.Engine.Mcts.Fits.Path.{Reaches, ReachesNode}

module _ {ℓ} {W : Type ℓ} (rng : ℕ → ℕ) where
  -- Where a descent ends.
  abbrev pub Lands : {R : Type 0} → Board → Forest W → ℕ → Option (Leaf × R) → Type 0
  Lands board kids index none = Unit
  Lands board kids index (some (leaf, e)) = Reaches rng board kids (index ∷ leaf.path) leaf.board

  abbrev pub LandsNode : {R : Type 0} → Board → Node W → Option (Leaf × R) → Type 0
  LandsNode board node none = Unit
  LandsNode board node (some (leaf, e)) = ReachesNode rng board node leaf.path leaf.board

  landed :
      {R : Type 0} (board : Board) (info : Info W) (kids rest : Forest W) (i : ℕ)
      (r : Option (Leaf × R))
      → Lands (apply rng board info.action_id) kids i r
      → Lands board (tree info kids rest) zero (follow (some i) (λ k. r))
  landed board info kids rest i none h = tt
  landed board info kids rest i (some (leaf, e)) h = h

  skip-Lands :
      {R : Type 0} (board : Board) (info : Info W) (kids rest : Forest W) (i : ℕ)
      (r : Option (Leaf × R))
      → Lands board rest i r
      → Lands board (tree info kids rest) (suc i) r
  skip-Lands board info kids rest i none h = tt
  skip-Lands board info kids rest i (some (leaf, e)) h = h

  split-Lands :
      {R : Type 0} (board : Board) (kids : Forest W) (b : Bool) (one two : Option (Leaf × R))
      → Lands board kids zero one
      → Lands board kids zero two
      → Lands board kids zero (elim b as (λ o. Option (Leaf × R)) [ true ↦ two | false ↦ one ])
  split-Lands board kids true one two h k = k
  split-Lands board kids false one two h k = h

  split_root :
      {R : Type 0} (board : Board) (node : Node W) (b : Bool) (one two : Option (Leaf × R))
      → LandsNode board node one
      → LandsNode board node two
      → LandsNode board node (elim b as (λ o. Option (Leaf × R)) [ true ↦ two | false ↦ one ])
  split_root board node true one two h k = k
  split_root board node false one two h k = h

  found_root :
      {R : Type 0} (board : Board) (info : Info W) (kids : Forest W) (i : ℕ) (r : Option (Leaf × R))
      → Lands board kids i r
      → LandsNode board (info, kids) (follow (some i) (λ k. r))
  found_root board info kids i none h = tt
  found_root board info kids i (some (leaf, e)) h = h

  follow_root :
      {R : Type 0} (board : Board) (info : Info W) (kids : Forest W) (picked : Option ℕ)
      (go : ℕ → Option (Leaf × R))
      → ((i : ℕ) → Lands board kids i (go i))
      → LandsNode board (info, kids) (follow picked go)
  follow_root board info kids none go h = tt
  follow_root board info kids (some i) go h = found_root board info kids i (go i) (h i)

  follow-Lands :
      {R : Type 0} (board : Board) (info : Info W) (kids rest : Forest W) (picked : Option ℕ)
      (go : ℕ → Option (Leaf × R))
      → ((i : ℕ) → Lands (apply rng board info.action_id) kids i (go i))
      → Lands board (tree info kids rest) zero (follow picked go)
  follow-Lands board info kids rest none go h = tt
  follow-Lands board info kids rest (some i) go h = landed board info kids rest i (go i) (h i)

  module _ {R : Type 0} ⦃f : Float W⦄ ⦃random : Random W R⦄ where
    descend-Lands :
        (c_puct : W) (ties : Bool) (loss index : ℕ) (parent : Info W) (board : Board)
        (kids : Forest W) (engine : R)
        → Lands board kids index (descend rng c_puct ties loss index parent board kids engine)
    unfolding descend
    descend-Lands c_puct ties loss zero parent board nil engine = tt
    descend-Lands c_puct ties loss (suc i) parent board nil engine = tt
    descend-Lands c_puct ties loss zero parent board (tree child kids rest) engine =
        let here = add_virtual_loss loss parent.current_player child in
        let next = apply rng board child.action_id in
        let picked = pick_child c_puct ties false here kids engine in
        split-Lands board (tree child kids rest) (is_inner child kids) _ _ refl (
          follow-Lands board child kids rest picked.0 _
            (λ i. descend-Lands c_puct ties loss i here next kids picked.1))
    descend-Lands c_puct ties loss (suc index) parent board (tree child kids rest) engine =
        skip-Lands board child kids rest index _
          (descend-Lands c_puct ties loss index parent board rest engine)

    -- The descent from the root ends at the board of its path.
    pub descend_root-LandsNode :
        (c_puct : W) (ties masked : Bool) (loss : ℕ) (board : Board) (node : Node W) (engine : R)
        → LandsNode board node (descend_root rng c_puct ties masked loss board node engine)
    unfolding descend_root
    descend_root-LandsNode c_puct ties masked loss board (info, kids) engine =
        let picked = pick_child c_puct ties masked info kids engine in
        split_root board (info, kids) (is_inner info kids) _ _ refl
          (follow_root board info kids picked.0 _
            (λ i. descend-Lands c_puct ties loss i info board kids picked.1))
