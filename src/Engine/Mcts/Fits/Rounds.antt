-- ===== src/Engine/Mcts/Fits/Rounds.antt =====
-- The batches of MCTS::Search in engine/src/mcts.cpp keep the tree fitting to the board.
use gomoku.Prelude.Results.{IfSome, bind-IfSome, map-IfSome}
use gomoku.Engine.Mcts.Batch.{
  back_up, expand_leaf, finish_leaf, finish_leaves, select_leaves, settle, value_at,
}
use gomoku.Prelude.{ℕ, zero, suc, refl, List, [], ◌∷◌, Option, none, some, if_both}
use gomoku.Prelude.Float.{Float}
use gomoku.Engine.Board.{Board, Seat}
use gomoku.Engine.Board.Play.{is_terminal, get_value_for_seat}
use gomoku.Engine.Board.Rules.Valid.{IsValid}
use gomoku.Engine.Mcts.{Info, Forest, Node, expand, along, at_node, add_virtual_loss, update}
use gomoku.Engine.Mcts.Policy.{EvaluationResult, Random}
use gomoku.Engine.Mcts.Walk.{Leaf, with_losses}
use gomoku.Engine.Mcts.Search.{Cache, Mcts, find_cached}
use gomoku.Engine.Mcts.Fits.{FitsNode, KeepsFit, along-Fits, ids-along, nil-along, replace-IsRight}
use gomoku.Engine.Mcts.Fits.Path.{
  ReachesNode, Reaches-along, ReachesNode-IsValid, at_node-FitsNode, ReachesNode-at_node,
}
use gomoku.Engine.Mcts.Fits.Descent.{LandsNode, descend_root-LandsNode}

-- Every leaf has the board that its path leads to.
abbrev pub AllReach {ℓ} : {W : Type ℓ} → (ℕ → ℕ) → Board → Node W → List Leaf → Type 0
AllReach rng board node [] = Unit
AllReach rng board node (leaf ∷ leaves) =
    ReachesNode rng board node leaf.path leaf.board × AllReach rng board node leaves

keeps_all {ℓ} :
    {W : Type ℓ} (rng : ℕ → ℕ) (board : Board) (old new : Node W) (leaves : List Leaf)
    → ((path : List ℕ) (b : Board)
        → ReachesNode rng board old path b
        → ReachesNode rng board new path b)
    → AllReach rng board old leaves
    → AllReach rng board new leaves
keeps_all rng board old new [] step all = tt
keeps_all rng board old new (leaf ∷ leaves) step (here, later) =
    (step leaf.path leaf.board here, keeps_all rng board old new leaves step later)

module _ {ℓ} {W : Type ℓ} ⦃f : Float W⦄ (rng : ℕ → ℕ) where
  add_virtual_loss-KeepsFit :
      (n : ℕ) (seat : Seat) (info : Info W) → KeepsFit info (add_virtual_loss n seat info)
  add_virtual_loss-KeepsFit n seat info = record {
    same_action = refl;
    same_seat = refl;
    same_state = refl;
  }

  settle-KeepsFit :
      (n : ℕ) (leaf_seat : Seat) (val : W) (seat : Seat) (info : Info W)
      → KeepsFit info (settle n leaf_seat val seat info)
  settle-KeepsFit n leaf_seat val seat info = record {
    same_action = refl;
    same_seat = refl;
    same_state = refl;
  }

  module _ (change : Seat → Info W → Info W)
      (keeps : (seat : Seat) (info : Info W) → KeepsFit info (change seat info)) where
    -- A change of the nodes on a path, the root apart, which keeps what it fits by.
    changed-FitsNode :
        (q : List ℕ) (board : Board) (info new : Info W) (kids : Forest W)
        → KeepsFit info new
        → FitsNode rng board (info, kids)
        → FitsNode rng board (new, along change q info.current_player kids)
    changed-FitsNode q board info new kids same (right, below) = (
      replace-IsRight rng board info new kids _ same
          (ids-along rng change keeps q info.current_player kids)
          (nil-along rng change keeps q info.current_player kids) right,
      along-Fits rng change keeps q info.current_player board kids below,
    )

    changed-ReachesNode :
        (q : List ℕ) (board : Board) (info new : Info W) (kids : Forest W) (path : List ℕ)
        (b : Board)
        → ReachesNode rng board (info, kids) path b
        → ReachesNode rng board (new, along change q info.current_player kids) path b
    changed-ReachesNode q board info new kids [] b r = r
    changed-ReachesNode q board info new kids (i ∷ path) b r =
        Reaches-along rng change keeps q info.current_player board b kids (i ∷ path) r

  with_losses-FitsNode :
      (n : ℕ) (q : List ℕ) (board : Board) (node : Node W)
      → FitsNode rng board node
      → FitsNode rng board (with_losses n q node)
  unfolding with_losses
  with_losses-FitsNode n q board (info, kids) fit =
      changed-FitsNode (add_virtual_loss n) (add_virtual_loss-KeepsFit n) q board info info kids
        (record { same_action = refl; same_seat = refl; same_state = refl }) fit

  ReachesNode-with_losses :
      (n : ℕ) (q : List ℕ) (board : Board) (node : Node W) (path : List ℕ) (b : Board)
      → ReachesNode rng board node path b
      → ReachesNode rng board (with_losses n q node) path b
  unfolding with_losses
  ReachesNode-with_losses n q board (info, kids) path b r =
      changed-ReachesNode (add_virtual_loss n) (add_virtual_loss-KeepsFit n) q board info info kids
        path b r

  back_up-FitsNode :
      (n : ℕ) (leaf : Leaf) (val : W) (board : Board) (node : Node W)
      → FitsNode rng board node
      → FitsNode rng board (back_up n leaf val node)
  unfolding back_up
  back_up-FitsNode n leaf val board (info, kids) fit =
      changed-FitsNode (settle n leaf.seat val) (settle-KeepsFit n leaf.seat val) leaf.path board
        info (update (value_at leaf.seat val info.current_player) info) kids
        (record { same_action = refl; same_seat = refl; same_state = refl }) fit

  ReachesNode-back_up :
      (n : ℕ) (leaf : Leaf) (val : W) (board : Board) (node : Node W) (path : List ℕ) (b : Board)
      → ReachesNode rng board node path b
      → ReachesNode rng board (back_up n leaf val node) path b
  unfolding back_up
  ReachesNode-back_up n leaf val board (info, kids) path b r =
      changed-ReachesNode (settle n leaf.seat val) (settle-KeepsFit n leaf.seat val) leaf.path board
        info (update (value_at leaf.seat val info.current_player) info) kids path b r

  -- A tree that fits, and leaves that its paths lead to.
  abbrev pub FitsWith : Board → List Leaf → Node W → Type ℓ
  FitsWith board leaves node = FitsNode rng board node × AllReach rng board node leaves

  back_up-FitsWith :
      (n : ℕ) (leaf : Leaf) (val : W) (board : Board) (leaves : List Leaf) (node : Node W)
      → FitsWith board leaves node
      → FitsWith board leaves (back_up n leaf val node)
  back_up-FitsWith n leaf val board leaves node (fit, all) = (
    back_up-FitsNode n leaf val board node fit,
    keeps_all rng board node (back_up n leaf val node) leaves
        (ReachesNode-back_up n leaf val board node) all,
  )

  expand_leaf-FitsWith :
      (n : ℕ) (leaf : Leaf) (board : Board) (leaves : List Leaf) (node : Node W)
      (result : Option (EvaluationResult W))
      → IsValid board
      → ReachesNode rng board node leaf.path leaf.board
      → FitsWith board leaves node
      → IfSome (FitsWith board leaves) (expand_leaf n leaf node result)
  expand_leaf-FitsWith n leaf board leaves node none v r all = tt
  expand_leaf-FitsWith n leaf board leaves node (some result) v r (fit, all) =
      back_up-FitsWith n leaf result.value board leaves
        (at_node (expand leaf.board result.move_pmf) leaf.path node)
        (
          at_node-FitsNode rng board leaf.board result.move_pmf leaf.path node
              (ReachesNode-IsValid rng board leaf.board node leaf.path v fit r) fit r,
          keeps_all rng board node (at_node (expand leaf.board result.move_pmf) leaf.path node)
              leaves
              (λ path b.
                ReachesNode-at_node rng board b leaf.board result.move_pmf leaf.path node path fit)
              all,
        )

  pub finish_leaf-FitsWith :
      (n : ℕ) (cache : Cache W) (leaf : Leaf) (board : Board) (leaves : List Leaf) (node : Node W)
      → IsValid board
      → FitsWith board (leaf ∷ leaves) node
      → IfSome (FitsWith board leaves) (finish_leaf n cache leaf node)
  unfolding finish_leaf
  finish_leaf-FitsWith n cache leaf board leaves node v (fit, (r, all)) =
      if_both (IfSome (FitsWith board leaves)) (is_terminal leaf.board)
        (back_up-FitsWith n leaf (f.of_int (get_value_for_seat leaf.board leaf.seat)) board leaves
          node (fit, all))
        (expand_leaf-FitsWith n leaf board leaves node (find_cached cache leaf.board.zobrists) v r
          (fit, all))

  pub finish_leaves-FitsNode :
      (n : ℕ) (cache : Cache W) (leaves : List Leaf) (board : Board) (node : Node W)
      → IsValid board
      → FitsNode rng board node
      → AllReach rng board node leaves
      → IfSome (FitsNode rng board) (finish_leaves n cache leaves node)
  unfolding finish_leaves
  finish_leaves-FitsNode n cache [] board node v fit all = fit
  finish_leaves-FitsNode n cache (leaf ∷ leaves) board node v fit all =
      bind-IfSome (FitsWith board leaves) (FitsNode rng board) (finish_leaf n cache leaf node) _
        (finish_leaf-FitsWith n cache leaf board leaves node v (fit, all))
        (λ next h. finish_leaves-FitsNode n cache leaves board next v h.0 h.1)

  -- The paths of the root before lead, in the root after, to the same boards; and so do the leaves.
  abbrev pub Selected : {R : Type 0} → Board → Node W → List Leaf × Node W × R → Type ℓ
  Selected board before (leaves, after, engine) =
      FitsNode rng board after
      × AllReach rng board after leaves
      × ((path : List ℕ) (b : Board)
          → ReachesNode rng board before path b
          → ReachesNode rng board after path b)

  module _ {R : Type 0} ⦃random : Random W R⦄ where
    pub landed :
        (board : Board) (node : Node W) (o : Option (Leaf × R))
        → LandsNode rng board node o
        → IfSome (λ (r : Leaf × R). ReachesNode rng board node r.0.path r.0.board) o
    landed board node none h = tt
    landed board node (some (leaf, engine)) h = h

    pub select_leaves-Selected :
        (m : Mcts W R) (count : ℕ) (board : Board) (node : Node W) (engine : R)
        → FitsNode rng board node
        → IfSome (Selected board node) (select_leaves rng m count board node engine)
    unfolding select_leaves
    select_leaves-Selected m zero board node engine fit = (fit, tt, λ path b r. r)
    select_leaves-Selected m (suc left) board node engine fit =
        bind-IfSome (λ (r : Leaf × R). ReachesNode rng board node r.0.path r.0.board)
          (Selected board node) _ _
          (landed board node _ (
            descend_root-LandsNode rng m.c_puct m.randomize_ties m.root_defensive_mask_active
              m.virtual_loss board node engine))
          (λ r lands.
            let next = with_losses m.virtual_loss r.0.path node in
            map-IfSome (Selected board next) (Selected board node) _ _
              (select_leaves-Selected m left board next r.1
                (with_losses-FitsNode m.virtual_loss r.0.path board node fit))
              (λ more h.
                let keeps = λ (path : List ℕ) (b : Board) (s : ReachesNode rng board node path b).
                  h.2 path b
                    (ReachesNode-with_losses m.virtual_loss r.0.path board node path b s) in
                (h.0, (keeps r.0.path r.0.board lands, h.1), keeps)))
