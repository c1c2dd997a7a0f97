-- ===== src/Engine/Mcts/Visits/Batches.antt =====
-- The visits that the batches of MCTS::Search in engine/src/mcts.cpp leave: the virtual losses are
-- taken back, and each node counts one more for each path through it.
use gomoku.Prelude.Results.{IfSome, bind-IfSome, map-IfSome, both-IfSome}
use gomoku.Engine.Mcts.Batch.{
  back_up, expand_leaf, finish_leaf, finish_leaves, select_leaves, settle, value_at,
}
use gomoku.Prelude.{
  ℕ, zero, suc, ◌+◌, ◌-◌, ◌≡◌, refl, subst, ◌∙◌, Bool, true, false, List, [], ◌∷◌, length, Option,
  none, some, arith, if_cases, if_both, if◌then◌else◌,
}
use gomoku.Prelude.Float.{Float}
use gomoku.Engine.Board.{Board, Seat}
use gomoku.Engine.Board.Play.{is_terminal, get_value_for_seat}
use gomoku.Engine.Board.Rules.Valid.{IsValid}
use gomoku.Engine.Mcts.{Info, Forest, Node, expand, along, at_node, add_virtual_loss, update}
use gomoku.Engine.Mcts.Policy.{EvaluationResult, Random}
use gomoku.Engine.Mcts.Walk.{Leaf, with_losses}
use gomoku.Engine.Mcts.Search.{Cache, Mcts, find_cached}
use gomoku.Engine.Mcts.Fits.{FitsNode}
use gomoku.Engine.Mcts.Fits.Path.{ReachesNode, ReachesNode-at_node}
use gomoku.Engine.Mcts.Fits.Descent.{descend_root-LandsNode}
use gomoku.Engine.Mcts.Fits.Rounds.{FitsWith, finish_leaf-FitsWith, landed}
use gomoku.Engine.Mcts.Visits.{node_visits, is_prefix, along_through, along_apart, at_node_visits}

-- A weight for each leaf whose path goes through a node.
abbrev pub passes : ℕ → List ℕ → List Leaf → ℕ
passes weight q [] = 0
passes weight q (leaf ∷ leaves) =
    (if is_prefix q leaf.path then weight else 0) + passes weight q leaves

-- What a virtual loss adds to the count of a node: nothing to that of the root.
abbrev pub debt : ℕ → List ℕ → ℕ
debt n [] = 0
debt n (k ∷ q) = n

lent : (p : Bool) (v n : ℕ) → (if p then v + n else v) ≡ v + (if p then n else 0)
lent true v n = refl
lent false v n = omega arith

repaid :
    (p : Bool) (v n base rest : ℕ)
    → v ≡ base + ((if p then n else 0) + rest)
    → (if p then v - n + 1 else v) ≡ base + (if p then 1 else 0) + rest
repaid true v n base rest e = omega arith
repaid false v n base rest e = omega arith

module _ {ℓ} {W : Type ℓ} ⦃f : Float W⦄ (rng : ℕ → ℕ) where
  changed_visits :
      (change : Seat → Info W → Info W) (step : ℕ → ℕ)
      → ((seat : Seat) (info : Info W) → (change seat info).visits ≡ step info.visits)
      → (k : ℕ) (q path : List ℕ) (board b : Board) (info new : Info W) (kids : Forest W)
      → ReachesNode rng board (info, kids) path b
      → node_visits (k ∷ q) (new, along change path info.current_player kids) ≡ (
          if is_prefix (k ∷ q) path
          then step (node_visits (k ∷ q) (info, kids))
          else node_visits (k ∷ q) (info, kids))
  changed_visits change step steps k q [] board b info new kids r =
      along_apart rng change step steps k q [] info.current_player kids refl
  changed_visits change step steps k q (i ∷ path) board b info new kids r =
      if_cases
        (λ n. node_visits (k ∷ q) (new, along change (i ∷ path) info.current_player kids) ≡ n)
        (is_prefix (k ∷ q) (i ∷ path))
        (along_through rng change step steps k q (i ∷ path) info.current_player board b kids r)
        (along_apart rng change step steps k q (i ∷ path) info.current_player kids)

  -- The virtual losses on a path.
  with_losses_visits :
      (n : ℕ) (q path : List ℕ) (board b : Board) (node : Node W)
      → ReachesNode rng board node path b
      → node_visits q (with_losses n path node)
        ≡ node_visits q node + (if is_prefix q path then debt n q else 0)
  unfolding with_losses
  with_losses_visits n [] path board b (info, kids) r = omega arith
  with_losses_visits n (k ∷ q) path board b (info, kids) r =
      changed_visits (add_virtual_loss n) (λ v. v + n) (λ seat i. refl) k q path board b info info
        kids r
      ∙ lent (is_prefix (k ∷ q) path) (node_visits (k ∷ q) (info, kids)) n

  back_up_visits :
      (n : ℕ) (q : List ℕ) (leaf : Leaf) (val : W) (board b : Board) (node : Node W)
      → ReachesNode rng board node leaf.path b
      → node_visits q (back_up n leaf val node)
        ≡ (if is_prefix q leaf.path then node_visits q node - debt n q + 1 else node_visits q node)
  unfolding back_up
  back_up_visits n [] leaf val board b (info, kids) r = omega arith
  back_up_visits n (k ∷ q) leaf val board b (info, kids) r =
      changed_visits (settle n leaf.seat val) (λ v. v - n + 1) (λ seat i. refl) k q leaf.path board
        b info (update (value_at leaf.seat val info.current_player) info) kids r

  -- The count of a node over what it had and what the leaves owe.
  abbrev Owes : ℕ → List ℕ → ℕ → List Leaf → Node W → Type 0
  Owes n q base leaves node = node_visits q node ≡ base + passes (debt n q) q leaves

  back_up-Owes :
      (n : ℕ) (q : List ℕ) (base : ℕ) (leaf : Leaf) (leaves : List Leaf) (val : W) (board : Board)
      (node : Node W)
      → ReachesNode rng board node leaf.path leaf.board
      → Owes n q base (leaf ∷ leaves) node
      → Owes n q (base + (if is_prefix q leaf.path then 1 else 0)) leaves (back_up n leaf val node)
  back_up-Owes n q base leaf leaves val board node r owes =
      back_up_visits n q leaf val board leaf.board node r
      ∙ repaid (is_prefix q leaf.path) (node_visits q node) (debt n q) base
          (passes (debt n q) q leaves) owes

  expand_leaf-Owes :
      (n : ℕ) (q : List ℕ) (base : ℕ) (leaf : Leaf) (leaves : List Leaf) (board : Board)
      (node : Node W) (result : Option (EvaluationResult W))
      → FitsNode rng board node
      → ReachesNode rng board node leaf.path leaf.board
      → Owes n q base (leaf ∷ leaves) node
      → IfSome
          (Owes n q (base + (if is_prefix q leaf.path then 1 else 0)) leaves)
          (expand_leaf n leaf node result)
  expand_leaf-Owes n q base leaf leaves board node none fit r owes = tt
  expand_leaf-Owes n q base leaf leaves board node (some result) fit r owes =
      back_up-Owes n q base leaf leaves result.value board
        (at_node (expand leaf.board result.move_pmf) leaf.path node)
        (ReachesNode-at_node rng board leaf.board leaf.board result.move_pmf leaf.path node
          leaf.path fit r)
        (at_node_visits rng board leaf.board result.move_pmf leaf.path node q fit ∙ owes)

  finish_leaf-Owes :
      (n : ℕ) (q : List ℕ) (base : ℕ) (cache : Cache W) (leaf : Leaf) (leaves : List Leaf)
      (board : Board) (node : Node W)
      → FitsWith rng board (leaf ∷ leaves) node
      → Owes n q base (leaf ∷ leaves) node
      → IfSome
          (Owes n q (base + (if is_prefix q leaf.path then 1 else 0)) leaves)
          (finish_leaf n cache leaf node)
  unfolding finish_leaf
  finish_leaf-Owes n q base cache leaf leaves board node (fit, (r, all)) owes =
      if_both (IfSome (Owes n q (base + (if is_prefix q leaf.path then 1 else 0)) leaves))
        (is_terminal leaf.board)
        (back_up-Owes n q base leaf leaves (f.of_int (get_value_for_seat leaf.board leaf.seat))
          board node r owes)
        (expand_leaf-Owes n q base leaf leaves board node (find_cached cache leaf.board.zobrists)
          fit r owes)

  pub finish_leaves_visits :
      (n : ℕ) (q : List ℕ) (base : ℕ) (cache : Cache W) (leaves : List Leaf) (board : Board)
      (node : Node W)
      → IsValid board
      → FitsWith rng board leaves node
      → Owes n q base leaves node
      → IfSome
          (λ (after : Node W). node_visits q after ≡ base + passes 1 q leaves)
          (finish_leaves n cache leaves node)
  unfolding finish_leaves
  finish_leaves_visits n q base cache [] board node v fit owes = owes
  finish_leaves_visits n q base cache (leaf ∷ leaves) board node v fit owes =
      let grown = base + (if is_prefix q leaf.path then 1 else 0) in
      let done : Node W → Type 0 =
        λ after. node_visits q after ≡ base + passes 1 q (leaf ∷ leaves) in
      bind-IfSome (λ next. FitsWith rng board leaves next × Owes n q grown leaves next) done
        (finish_leaf n cache leaf node) (finish_leaves n cache leaves)
        (both-IfSome (FitsWith rng board leaves) (Owes n q grown leaves)
          (finish_leaf n cache leaf node)
          (finish_leaf-FitsWith rng n cache leaf board leaves node v fit)
          (finish_leaf-Owes n q base cache leaf leaves board node fit owes))
        (λ next h.
          subst
            (λ x.
              IfSome (λ (after : Node W). node_visits q after ≡ x)
                (finish_leaves n cache leaves next))
            (omega arith) (finish_leaves_visits n q grown cache leaves board next v h.0 h.1))

  module _ {R : Type 0} ⦃random : Random W R⦄ where
    -- What the descents of a batch owe.
    abbrev pub Lent : ℕ → ℕ → Node W → List Leaf × Node W × R → Type 0
    Lent n count before (leaves, after, engine) =
        (length leaves ≡ count) × ((q : List ℕ) → Owes n q (node_visits q before) leaves after)

    pub select_leaves-Lent :
        (m : Mcts W R) (count : ℕ) (board : Board) (node : Node W) (engine : R)
        → IfSome (Lent m.virtual_loss count node) (select_leaves rng m count board node engine)
    unfolding select_leaves
    select_leaves-Lent m zero board node engine = (refl, λ q. omega arith)
    select_leaves-Lent m (suc left) board node engine =
        bind-IfSome (λ (r : Leaf × R). ReachesNode rng board node r.0.path r.0.board)
          (Lent m.virtual_loss (suc left) node) _ _
          (landed rng board node _ (
            descend_root-LandsNode rng m.c_puct m.randomize_ties m.root_defensive_mask_active
              m.virtual_loss board node engine))
          (λ r lands.
            let next = with_losses m.virtual_loss r.0.path node in
            map-IfSome (Lent m.virtual_loss left next) (Lent m.virtual_loss (suc left) node) _ _
              (select_leaves-Lent m left board next r.1)
              (λ more h. (
                omega (arith, h.0),
                λ q. ground (
                  arith,
                  h.1 q,
                  with_losses_visits m.virtual_loss q r.0.path board r.0.board node lands,
                ),
              )))
