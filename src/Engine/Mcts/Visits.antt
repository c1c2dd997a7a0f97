-- ===== src/Engine/Mcts/Visits.antt =====
-- The visits of the nodes in engine/src/mcts.cpp: what the changes on a path do to the count of each
-- node, a node that the tree has not counting 0.
pub mod Batches
pub mod Rounds
use gomoku.Prelude.{
  ℕ, zero, suc, ◌+◌, ◌≡◌, refl, sym, ap, subst, ◌∙◌, Bool, true, false, ◌&&◌, ◌==◌, List, [], ◌∷◌,
  arith, if_cases,
}
use gomoku.Prelude.Int.{ℤ}
use gomoku.Prelude.Float.{Float}
use gomoku.Engine.Board.{Board, Seat}
use gomoku.Engine.Board.Play.{get_legal_actions}
use gomoku.Engine.Board.Rules.{apply}
use gomoku.Engine.Mcts.{
  Info, Forest, nil, tree, Node, make_children, expand, along, at_end, at_node,
}
use gomoku.Engine.Mcts.Fits.{Fits, FitsNode, IsRight}
use gomoku.Engine.Mcts.Fits.Path.{Reaches}

-- The visits of the node that a path leads to.
abbrev pub visits_at {ℓ} : {W : Type ℓ} → List ℕ → Forest W → ℕ
visits_at path nil = 0
visits_at [] (tree info kids rest) = 0
visits_at (zero ∷ []) (tree info kids rest) = info.visits
visits_at (zero ∷ j ∷ path) (tree info kids rest) = visits_at (j ∷ path) kids
visits_at (suc i ∷ path) (tree info kids rest) = visits_at (i ∷ path) rest

abbrev pub node_visits {ℓ} : {W : Type ℓ} → List ℕ → Node W → ℕ
node_visits [] (info, kids) = info.visits
node_visits (i ∷ path) (info, kids) = visits_at (i ∷ path) kids

-- Whether a path goes through the node of another one.
abbrev pub is_prefix : List ℕ → List ℕ → Bool
is_prefix [] path = true
is_prefix (i ∷ q) [] = false
is_prefix (i ∷ q) (k ∷ path) = i == k && is_prefix q path

module _ {ℓ} {W : Type ℓ} where
  along_nowhere :
      (change : Seat → Info W → Info W) (seat : Seat) (kids : Forest W)
      → along change [] seat kids ≡ kids
  unfolding along
  along_nowhere change seat nil = refl
  along_nowhere change seat (tree info kids rest) = refl

  module _ (rng : ℕ → ℕ) (change : Seat → Info W → Info W) (step : ℕ → ℕ)
      (steps : (seat : Seat) (info : Info W) → (change seat info).visits ≡ step info.visits) where
    -- A change on a path through a node.
    pub along_through :
        (k : ℕ) (q path : List ℕ) (seat : Seat) (board b : Board) (kids : Forest W)
        → Reaches rng board kids path b
        → is_prefix (k ∷ q) path ≡ true
        → visits_at (k ∷ q) (along change path seat kids) ≡ step (visits_at (k ∷ q) kids)
    unfolding along
    along_through k q path seat board b nil r e = elim r [ ]
    along_through k q [] seat board b (tree info kids rest) r e = elim r [ ]
    along_through zero [] (zero ∷ path) seat board b (tree info kids rest) r e = steps seat info
    along_through zero (j ∷ q) (zero ∷ []) seat board b (tree info kids rest) r e =
        absurd (ground arith)
    along_through zero (j ∷ q) (zero ∷ i ∷ path) seat board b (tree info kids rest) r e =
        along_through j q (i ∷ path) info.current_player (apply rng board info.action_id) b kids r
          (ground arith)
    along_through (suc k) q (zero ∷ path) seat board b (tree info kids rest) r e =
        absurd (ground arith)
    along_through zero q (suc i ∷ path) seat board b (tree info kids rest) r e =
        absurd (ground arith)
    along_through (suc k) q (suc i ∷ path) seat board b (tree info kids rest) r e =
        along_through k q (i ∷ path) seat board b rest r (ground arith)

    -- A change on another path.
    pub along_apart :
        (k : ℕ) (q path : List ℕ) (seat : Seat) (kids : Forest W)
        → is_prefix (k ∷ q) path ≡ false
        → visits_at (k ∷ q) (along change path seat kids) ≡ visits_at (k ∷ q) kids
    unfolding along
    along_apart k q path seat nil e = refl
    along_apart k q [] seat (tree info kids rest) e = refl
    along_apart zero [] (zero ∷ path) seat (tree info kids rest) e = absurd (ground arith)
    along_apart zero (j ∷ q) (zero ∷ path) seat (tree info kids rest) e =
        along_apart j q path info.current_player kids (ground arith)
    along_apart (suc k) q (zero ∷ path) seat (tree info kids rest) e = refl
    along_apart zero [] (suc i ∷ path) seat (tree info kids rest) e = refl
    along_apart zero (j ∷ q) (suc i ∷ path) seat (tree info kids rest) e = refl
    along_apart (suc k) q (suc i ∷ path) seat (tree info kids rest) e =
        along_apart k q (i ∷ path) seat rest (ground arith)

  module _ ⦃f : Float W⦄ (rng : ℕ → ℕ) where
    unvisited :
        (board : Board) (pmf : List W) (actions : List ℤ) (q : List ℕ)
        → visits_at q (make_children board pmf actions) ≡ 0
    unfolding make_children
    unvisited board pmf [] q = refl
    unvisited board pmf (a ∷ actions) [] = refl
    unvisited board pmf (a ∷ actions) (zero ∷ []) = refl
    unvisited board pmf (a ∷ actions) (zero ∷ j ∷ q) = refl
    unvisited board pmf (a ∷ actions) (suc i ∷ q) = unvisited board pmf actions (i ∷ q)

    expand_visits :
        (board c : Board) (pmf : List W) (info : Info W) (kids : Forest W) (q : List ℕ)
        → IsRight board info kids
        → node_visits q (expand c pmf (info, kids)) ≡ node_visits q (info, kids)
    unfolding expand
    expand_visits board c pmf info kids [] right = ground arith
    expand_visits board c pmf info kids (i ∷ q) right =
        if_cases (λ (n : Node W). node_visits (i ∷ q) n ≡ visits_at (i ∷ q) kids) info.is_expanded
          (λ e. refl)
          (λ e.
            unvisited c pmf (get_legal_actions c) (i ∷ q)
            ∙ sym (ap (visits_at (i ∷ q)) (right.closed e)))

    at_end_visits :
        (board c : Board) (pmf : List W) (path : List ℕ) (kids : Forest W) (q : List ℕ)
        → Fits rng board kids
        → visits_at q (at_end (expand c pmf) path kids) ≡ visits_at q kids
    unfolding at_end
    at_end_visits board c pmf path nil q fit = refl
    at_end_visits board c pmf [] (tree info kids rest) q fit = refl
    at_end_visits board c pmf (zero ∷ []) (tree info kids rest) [] fit = refl
    at_end_visits board c pmf (zero ∷ k ∷ path) (tree info kids rest) [] fit = refl
    at_end_visits board c pmf (zero ∷ []) (tree info kids rest) (zero ∷ [])
          (legal, right, below, later) =
        expand_visits (apply rng board info.action_id) c pmf info kids [] right
    at_end_visits board c pmf (zero ∷ []) (tree info kids rest) (zero ∷ j ∷ q)
          (legal, right, below, later) =
        expand_visits (apply rng board info.action_id) c pmf info kids (j ∷ q) right
    at_end_visits board c pmf (zero ∷ k ∷ path) (tree info kids rest) (zero ∷ []) fit = refl
    at_end_visits board c pmf (zero ∷ k ∷ path) (tree info kids rest) (zero ∷ j ∷ q)
          (legal, right, below, later) =
        at_end_visits (apply rng board info.action_id) c pmf (k ∷ path) kids (j ∷ q) below
    at_end_visits board c pmf (zero ∷ []) (tree info kids rest) (suc j ∷ q) fit = refl
    at_end_visits board c pmf (zero ∷ k ∷ path) (tree info kids rest) (suc j ∷ q) fit = refl
    at_end_visits board c pmf (suc i ∷ path) (tree info kids rest) [] fit = refl
    at_end_visits board c pmf (suc i ∷ path) (tree info kids rest) (zero ∷ []) fit = refl
    at_end_visits board c pmf (suc i ∷ path) (tree info kids rest) (zero ∷ j ∷ q) fit = refl
    at_end_visits board c pmf (suc i ∷ path) (tree info kids rest) (suc j ∷ q)
          (legal, right, below, later) =
        at_end_visits board c pmf (i ∷ path) rest (j ∷ q) later

    -- Expanding a node adds no visit.
    pub at_node_visits :
        (board c : Board) (pmf : List W) (path : List ℕ) (node : Node W) (q : List ℕ)
        → FitsNode rng board node
        → node_visits q (at_node (expand c pmf) path node) ≡ node_visits q node
    unfolding at_node
    at_node_visits board c pmf [] (info, kids) q (right, below) =
        expand_visits board c pmf info kids q right
    at_node_visits board c pmf (i ∷ path) (info, kids) [] fit = refl
    at_node_visits board c pmf (i ∷ path) (info, kids) (j ∷ q) (right, below) =
        at_end_visits board c pmf (i ∷ path) kids (j ∷ q) below
