-- ===== src/Engine/Mcts/Batch.antt =====
-- One batch of simulations in MCTS::Search of engine/src/mcts.cpp: the descents, the evaluation of
-- the leaves, their expansion, and the way back along their paths.
use gomoku.Prelude.{ℕ, zero, suc, List, [], ◌∷◌, ◌==◌, if◌then◌else◌, length, Option, none, some}
use mathlib.Core.Option
use gomoku.Prelude.Int.{ℤ}
use gomoku.Prelude.Float.{Float}
use gomoku.Engine.Board.{Board, Seat, ◌==S◌}
use gomoku.Engine.Board.Play.{is_terminal, get_value_for_seat}
use gomoku.Engine.Mcts.{Info, Node, expand, update, revert_virtual_loss, along, at_node}
use gomoku.Engine.Mcts.Policy.{EvaluationResult, Random}
use gomoku.Engine.Mcts.Walk.{Leaf, descend_root, with_losses}
use gomoku.Engine.Mcts.Search.{
  Evaluator, Clock, Cache, Mcts, find_cached, missed_boards, leaf_boards, fill_cache,
}

module _ {ℓ} {W : Type ℓ} ⦃f : Float W⦄ where
  -- The value of a leaf for a node: the leaf's own, turned for the other seat.
  abbrev pub value_at : Seat → W → Seat → W
  value_at leaf_seat leaf_val seat = if seat ==S leaf_seat then leaf_val else f.neg leaf_val

  abbrev pub settle : ℕ → Seat → W → Seat → Info W → Info W
  settle virtual_loss leaf_seat leaf_val selecting_player info =
      update (value_at leaf_seat leaf_val info.current_player)
        (revert_virtual_loss virtual_loss selecting_player info)

  -- The loop over a path: the root is updated, and the other nodes lose their virtual loss too.
  unfoldable pub back_up : ℕ → Leaf → W → Node W → Node W
  back_up virtual_loss leaf leaf_val (info, kids) = (
    update (value_at leaf.seat leaf_val info.current_player) info,
    along (settle virtual_loss leaf.seat leaf_val) leaf.path info.current_player kids,
  )

  -- A leaf that the cache has is expanded at its path; `at` throws where it has it not.
  abbrev pub expand_leaf : ℕ → Leaf → Node W → Option (EvaluationResult W) → Option (Node W)
  expand_leaf virtual_loss leaf root none = none
  expand_leaf virtual_loss leaf root (some result) = some (
      back_up virtual_loss leaf result.value
        (at_node (expand leaf.board result.move_pmf) leaf.path root))

  unfoldable pub finish_leaf : ℕ → Cache W → Leaf → Node W → Option (Node W)
  finish_leaf virtual_loss cache leaf root =
      if is_terminal leaf.board
      then some
          (back_up virtual_loss leaf (f.of_int (get_value_for_seat leaf.board leaf.seat)) root)
      else expand_leaf virtual_loss leaf root (find_cached cache leaf.board.zobrists)

  unfoldable pub finish_leaves : ℕ → Cache W → List Leaf → Node W → Option (Node W)
  finish_leaves virtual_loss cache [] root = some root
  finish_leaves virtual_loss cache (leaf ∷ leaves) root =
      Option.bind (finish_leaf virtual_loss cache leaf root)
        (finish_leaves virtual_loss cache leaves)

module _ {ℓ} {W : Type ℓ} {R : Type 0} ⦃f : Float W⦄ ⦃random : Random W R⦄ where
  -- The descents of a batch, each with the losses of those before.
  unfoldable pub select_leaves :
      (ℕ → ℕ) → Mcts W R → ℕ → Board → Node W → R → Option (List Leaf × Node W × R)
  select_leaves rng m zero board root engine = some ([], root, engine)
  select_leaves rng m (suc left) board root engine =
      Option.bind
        (descend_root rng m.c_puct m.randomize_ties m.root_defensive_mask_active m.virtual_loss
          board root engine)
        (λ (r : Leaf × R).
          Option.map (λ (more : List Leaf × Node W × R). (r.0 ∷ more.0, more.1, more.2))
            (select_leaves rng m left board (with_losses m.virtual_loss r.0.path root) r.1))

module _ {ℓ} {W : Type ℓ} {E : Type 0} ⦃f : Float W⦄ ⦃evaluator : Evaluator W E⦄ where
  -- The cache after a batch was evaluated: `none` if the evaluator's results do not fit.
  unfoldable pub evaluate_leaves :
      Option (Board → List ℤ) → List Leaf → Cache W → E → Option (Cache W × E)
  evaluate_leaves solver leaves cache world =
      let missed = missed_boards cache (leaf_boards leaves) [] in
      let answered = evaluator.evaluate missed world in
      if length missed == 0
      then some (cache, world)
      else if length answered.0 == length missed
      then some (fill_cache solver missed answered.0 cache, answered.1)
      else none

module _ {ℓ} {W : Type ℓ} {R E : Type 0} ⦃f : Float W⦄ ⦃random : Random W R⦄
    ⦃evaluator : Evaluator W E⦄ ⦃timer : Clock E⦄ where
  -- One batch.
  unfoldable pub run_batch :
      (ℕ → ℕ)
      → Option (Board → List ℤ)
      → Board
      → ℕ
      → Mcts W R
      → Node W
      → E
      → Option (Mcts W R × Node W × E)
  run_batch rng solver board size m root world =
      Option.bind (select_leaves rng m size board root m.random_engine)
        (λ (selected : List Leaf × Node W × R).
          Option.bind (evaluate_leaves solver selected.0 m.evaluation_cache world)
            (λ (cached : Cache W × E).
              Option.map
                (λ (finished : Node W). (
                  record m {
                    random_engine = selected.2;
                    evaluation_cache = cached.0;
                    root = some finished;
                  },
                  finished,
                  cached.1,
                ))
                (finish_leaves m.virtual_loss cached.0 selected.0 selected.1)))
