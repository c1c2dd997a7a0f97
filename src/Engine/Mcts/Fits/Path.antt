-- ===== src/Engine/Mcts/Fits/Path.antt =====
-- Where a path of the tree leads, and what the changes on paths leave of it.
use gomoku.Prelude.{ℕ, zero, suc, ◌≡◌, refl, sym, ap, subst, ◌∙◌, List, [], ◌∷◌, arith, if_cases}
use gomoku.Prelude.Float.{Float}
use gomoku.Engine.Board.{Board, Seat}
use gomoku.Engine.Board.Rules.{apply}
use gomoku.Engine.Board.Rules.Valid.{IsValid, IsLegal}
use gomoku.Engine.Board.Rules.Invariant.{apply-IsValid}
use gomoku.Engine.Mcts.{Info, Forest, nil, tree, Node, expand, along, at_end, at_node}
use gomoku.Engine.Mcts.Fits.{
  Fits, FitsNode, IsRight, KeepsFit, ids, replace-IsRight, expand-FitsNode,
}

-- The path from a board's children leads to a board.
abbrev pub Reaches {ℓ} : {W : Type ℓ} → (ℕ → ℕ) → Board → Forest W → List ℕ → Board → Type 0
Reaches rng board nil path b = ⊥
Reaches rng board (tree info kids rest) [] b = ⊥
Reaches rng board (tree info kids rest) (zero ∷ []) b = apply rng board info.action_id ≡ b
Reaches rng board (tree info kids rest) (zero ∷ j ∷ path) b =
    Reaches rng (apply rng board info.action_id) kids (j ∷ path) b
Reaches rng board (tree info kids rest) (suc i ∷ path) b = Reaches rng board rest (i ∷ path) b

abbrev pub ReachesNode {ℓ} : {W : Type ℓ} → (ℕ → ℕ) → Board → Node W → List ℕ → Board → Type 0
ReachesNode rng board (info, kids) [] b = board ≡ b
ReachesNode rng board (info, kids) (i ∷ path) b = Reaches rng board kids (i ∷ path) b

module _ {ℓ} {W : Type ℓ} (rng : ℕ → ℕ) where
  Reaches-IsValid :
      (board b : Board) (kids : Forest W) (path : List ℕ)
      → IsValid board
      → Fits rng board kids
      → Reaches rng board kids path b
      → IsValid b
  Reaches-IsValid board b nil path v fit r = elim r [ ]
  Reaches-IsValid board b (tree info kids rest) [] v fit r = elim r [ ]
  Reaches-IsValid board b (tree info kids rest) (zero ∷ []) v (legal, right, below, later) r =
      subst IsValid r (apply-IsValid rng board info.action_id v legal)
  Reaches-IsValid board b (tree info kids rest) (zero ∷ j ∷ path) v (legal, right, below, later) r =
      Reaches-IsValid (apply rng board info.action_id) b kids (j ∷ path)
        (apply-IsValid rng board info.action_id v legal) below r
  Reaches-IsValid board b (tree info kids rest) (suc i ∷ path) v (legal, right, below, later) r =
      Reaches-IsValid board b rest (i ∷ path) v later r

  pub ReachesNode-IsValid :
      (board b : Board) (node : Node W) (path : List ℕ)
      → IsValid board
      → FitsNode rng board node
      → ReachesNode rng board node path b
      → IsValid b
  ReachesNode-IsValid board b (info, kids) [] v fit r = subst IsValid r v
  ReachesNode-IsValid board b (info, kids) (i ∷ path) v fit r =
      Reaches-IsValid board b kids (i ∷ path) v fit.1 r

  module _ (change : Seat → Info W → Info W)
      (keeps : (seat : Seat) (info : Info W) → KeepsFit info (change seat info)) where
    -- A change of the nodes on one path leaves where every path leads.
    pub Reaches-along :
        (q : List ℕ) (seat : Seat) (board b : Board) (kids : Forest W) (path : List ℕ)
        → Reaches rng board kids path b
        → Reaches rng board (along change q seat kids) path b
    unfolding along
    Reaches-along q seat board b nil path r = r
    Reaches-along [] seat board b (tree info kids rest) path r = r
    Reaches-along (zero ∷ q) seat board b (tree info kids rest) [] r = r
    Reaches-along (zero ∷ q) seat board b (tree info kids rest) (zero ∷ []) r =
        ap (apply rng board) (keeps seat info).same_action ∙ r
    Reaches-along (zero ∷ q) seat board b (tree info kids rest) (zero ∷ j ∷ path) r =
        subst
          (λ a.
            Reaches rng (apply rng board a) (along change q info.current_player kids) (j ∷ path) b)
          (sym (keeps seat info).same_action)
          (Reaches-along q info.current_player (apply rng board info.action_id) b kids (j ∷ path) r)
    Reaches-along (zero ∷ q) seat board b (tree info kids rest) (suc i ∷ path) r = r
    Reaches-along (suc k ∷ q) seat board b (tree info kids rest) [] r = r
    Reaches-along (suc k ∷ q) seat board b (tree info kids rest) (zero ∷ []) r = r
    Reaches-along (suc k ∷ q) seat board b (tree info kids rest) (zero ∷ j ∷ path) r = r
    Reaches-along (suc k ∷ q) seat board b (tree info kids rest) (suc i ∷ path) r =
        Reaches-along (k ∷ q) seat board b rest (i ∷ path) r

  module _ ⦃f : Float W⦄ where
    expand-info :
        (board : Board) (pmf : List W) (info : Info W) (kids : Forest W)
        → (expand board pmf (info, kids)).0.action_id ≡ info.action_id
    unfolding expand
    expand-info board pmf info kids = ground arith

    ids-at_end :
        (board : Board) (pmf : List W) (q : List ℕ) (kids : Forest W)
        → ids (at_end (expand board pmf) q kids) ≡ ids kids
    unfolding at_end
    ids-at_end board pmf q nil = refl
    ids-at_end board pmf [] (tree info kids rest) = refl
    ids-at_end board pmf (zero ∷ []) (tree info kids rest) =
        ap (λ a. a ∷ ids rest) (expand-info board pmf info kids)
    ids-at_end board pmf (zero ∷ j ∷ q) (tree info kids rest) = refl
    ids-at_end board pmf (suc i ∷ q) (tree info kids rest) =
        ap (λ l. info.action_id ∷ l) (ids-at_end board pmf (i ∷ q) rest)

    -- Expanding the node that a path leads to.
    pub at_end-Fits :
        (board b : Board) (pmf : List W) (q : List ℕ) (kids : Forest W)
        → IsValid b
        → Fits rng board kids
        → Reaches rng board kids q b
        → Fits rng board (at_end (expand b pmf) q kids)
    unfolding at_end
    at_end-Fits board b pmf q nil v fit r = elim r [ ]
    at_end-Fits board b pmf [] (tree info kids rest) v fit r = elim r [ ]
    at_end-Fits board b pmf (zero ∷ []) (tree info kids rest) v (legal, right, below, later) r =
        let node = expand b pmf (info, kids) in
        let same = sym (expand-info b pmf info kids) in
        let here = subst (λ c. FitsNode rng c (info, kids)) r (right, below) in
        let there =
          subst (λ c. FitsNode rng c node) (sym r ∙ ap (apply rng board) same)
            (expand-FitsNode rng b pmf (info, kids) v here) in
        (subst (IsLegal board) same legal, there.0, there.1, later)
    at_end-Fits board b pmf (zero ∷ j ∷ q) (tree info kids rest) v (legal, right, below, later) r =
        (
          legal,
          replace-IsRight rng (apply rng board info.action_id) info info kids _
              (record { same_action = refl; same_seat = refl; same_state = refl })
              (ids-at_end b pmf (j ∷ q) kids) (ap (at_end (expand b pmf) (j ∷ q))) right,
          at_end-Fits (apply rng board info.action_id) b pmf (j ∷ q) kids v below r,
          later,
        )
    at_end-Fits board b pmf (suc i ∷ q) (tree info kids rest) v (legal, right, below, later) r =
        (legal, right, below, at_end-Fits board b pmf (i ∷ q) rest v later r)

    reach_expanded :
        (board b c : Board) (pmf : List W) (info : Info W) (kids : Forest W) (j : ℕ) (path : List ℕ)
        → IsRight (apply rng board info.action_id) info kids
        → Reaches rng (apply rng board info.action_id) kids (j ∷ path) b
        → Reaches rng
            (apply rng board (expand c pmf (info, kids)).0.action_id)
            (expand c pmf (info, kids)).1
            (j ∷ path)
            b
    unfolding expand
    reach_expanded board b c pmf info kids j path right r =
        if_cases (λ (n : Node W). Reaches rng (apply rng board n.0.action_id) n.1 (j ∷ path) b)
          info.is_expanded (λ e. r)
          (λ e. absurd (
            subst (λ k. Reaches rng (apply rng board info.action_id) k (j ∷ path) b)
              (right.closed e) r))

    -- Expanding a node leaves where the paths lead: a node without children has no path through it.
    pub Reaches-at_end :
        (board b c : Board) (pmf : List W) (q : List ℕ) (kids : Forest W) (path : List ℕ)
        → Fits rng board kids
        → Reaches rng board kids path b
        → Reaches rng board (at_end (expand c pmf) q kids) path b
    unfolding at_end
    Reaches-at_end board b c pmf q nil path fit r = r
    Reaches-at_end board b c pmf [] (tree info kids rest) path fit r = r
    Reaches-at_end board b c pmf (zero ∷ q) (tree info kids rest) [] fit r = elim r [ ]
    Reaches-at_end board b c pmf (zero ∷ []) (tree info kids rest) (zero ∷ []) fit r =
        ap (apply rng board) (expand-info c pmf info kids) ∙ r
    Reaches-at_end board b c pmf (zero ∷ []) (tree info kids rest) (zero ∷ j ∷ path)
          (legal, right, below, later) r =
        reach_expanded board b c pmf info kids (j) path right r
    Reaches-at_end board b c pmf (zero ∷ []) (tree info kids rest) (suc i ∷ path) fit r = r
    Reaches-at_end board b c pmf (zero ∷ k ∷ q) (tree info kids rest) (zero ∷ []) fit r = r
    Reaches-at_end board b c pmf (zero ∷ k ∷ q) (tree info kids rest) (zero ∷ j ∷ path)
          (legal, right, below, later) r =
        Reaches-at_end (apply rng board info.action_id) b c pmf (k ∷ q) kids (j ∷ path) below r
    Reaches-at_end board b c pmf (zero ∷ k ∷ q) (tree info kids rest) (suc i ∷ path) fit r = r
    Reaches-at_end board b c pmf (suc k ∷ q) (tree info kids rest) [] fit r = elim r [ ]
    Reaches-at_end board b c pmf (suc k ∷ q) (tree info kids rest) (zero ∷ []) fit r = r
    Reaches-at_end board b c pmf (suc k ∷ q) (tree info kids rest) (zero ∷ j ∷ path) fit r = r
    Reaches-at_end board b c pmf (suc k ∷ q) (tree info kids rest) (suc i ∷ path)
          (legal, right, below, later) r =
        Reaches-at_end board b c pmf (k ∷ q) rest (i ∷ path) later r

    root_expanded :
        (board b c : Board) (pmf : List W) (info : Info W) (kids : Forest W) (i : ℕ) (path : List ℕ)
        → IsRight board info kids
        → Reaches rng board kids (i ∷ path) b
        → ReachesNode rng board (expand c pmf (info, kids)) (i ∷ path) b
    unfolding expand
    root_expanded board b c pmf info kids i path right r =
        if_cases (λ (n : Node W). ReachesNode rng board n (i ∷ path) b) info.is_expanded (λ e. r)
          (λ e. absurd (subst (λ k. Reaches rng board k (i ∷ path) b) (right.closed e) r))

    pub at_node-FitsNode :
        (board b : Board) (pmf : List W) (q : List ℕ) (node : Node W)
        → IsValid b
        → FitsNode rng board node
        → ReachesNode rng board node q b
        → FitsNode rng board (at_node (expand b pmf) q node)
    unfolding at_node at_end
    at_node-FitsNode board b pmf [] (info, kids) v fit r =
        subst (λ c. FitsNode rng c (expand b pmf (info, kids))) (sym r)
          (expand-FitsNode rng b pmf (info, kids) v
            (subst (λ c. FitsNode rng c (info, kids)) r fit))
    at_node-FitsNode board b pmf (i ∷ q) (info, kids) v (right, below) r = (
      replace-IsRight rng board info info kids _
          (record { same_action = refl; same_seat = refl; same_state = refl })
          (ids-at_end b pmf (i ∷ q) kids) (ap (at_end (expand b pmf) (i ∷ q))) right,
      at_end-Fits board b pmf (i ∷ q) kids v below r,
    )

    pub ReachesNode-at_node :
        (board b c : Board) (pmf : List W) (q : List ℕ) (node : Node W) (path : List ℕ)
        → FitsNode rng board node
        → ReachesNode rng board node path b
        → ReachesNode rng board (at_node (expand c pmf) q node) path b
    unfolding at_node at_end
    ReachesNode-at_node board b c pmf [] (info, kids) [] fit r = r
    ReachesNode-at_node board b c pmf (k ∷ q) (info, kids) [] fit r = r
    ReachesNode-at_node board b c pmf (k ∷ q) (info, kids) (i ∷ path) (right, below) r =
        Reaches-at_end board b c pmf (k ∷ q) kids (i ∷ path) below r
    ReachesNode-at_node board b c pmf [] (info, kids) (i ∷ path) (right, below) r =
        root_expanded board b c pmf info kids i path right r
