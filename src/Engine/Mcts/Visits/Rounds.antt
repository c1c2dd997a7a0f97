-- ===== src/Engine/Mcts/Visits/Rounds.antt =====
-- The visits that the loop of MCTS::Search in engine/src/mcts.cpp leaves with a limit of simulations.
use gomoku.Prelude.Results.{
  IfSome, bind-IfSome, map-IfSome, any_IfSome, both-IfSome, all-IfSome, Returns,
}
use gomoku.Engine.Mcts.Batch.{evaluate_leaves, finish_leaves, run_batch, select_leaves}
use gomoku.Prelude.{ℕ, ◌+◌, ◌≡◌, refl, List, length, Option}
use gomoku.Prelude.Int.{ℤ}
use gomoku.Prelude.Float.{Float}
use gomoku.Engine.Board.{Board}
use gomoku.Engine.Board.Rules.Valid.{IsValid}
use gomoku.Engine.Mcts.{Node}
use gomoku.Engine.Mcts.Policy.{Random}
use gomoku.Engine.Mcts.Walk.{Leaf}
use gomoku.Engine.Mcts.Search.{Evaluator, Clock, Mcts}
use gomoku.Engine.Mcts.Fits.{FitsNode}
use gomoku.Engine.Mcts.Fits.Rounds.{Selected, select_leaves-Selected, finish_leaves-FitsNode}
use gomoku.Engine.Mcts.Visits.{node_visits}
use gomoku.Engine.Mcts.Visits.Batches.{passes, Lent, select_leaves-Lent, finish_leaves_visits}

-- So many simulations between two roots: a leaf of each, and each node of the tree counts one more
-- for each simulation whose path goes through it.
abbrev pub Counted {ℓ} : {W : Type ℓ} → ℕ → Node W → Node W → Type 0
Counted count before after =
    (leaves : List Leaf) × (length leaves ≡ count)
    × ((q : List ℕ) → node_visits q after ≡ node_visits q before + passes 1 q leaves)

module _ {ℓ} {W : Type ℓ} ⦃f : Float W⦄ (rng : ℕ → ℕ) {R : Type 0} where
  -- A state and its root after so many simulations.
  abbrev pub Ran : {E : Type 0} → Board → Mcts W R → Node W → ℕ → Mcts W R × Node W × E → Type ℓ
  Ran board start before count (m, after, world) =
      FitsNode rng board after × (m.batch_size ≡ start.batch_size) × Counted count before after

  module _ {E : Type 0} ⦃random : Random W R⦄ ⦃evaluator : Evaluator W E⦄ ⦃timer : Clock E⦄ where
    pub run_batch-Ran :
        (solver : Option (Board → List ℤ)) (board : Board) (size : ℕ) (m : Mcts W R) (root : Node W)
        (world : E)
        → IsValid board
        → FitsNode rng board root
        → IfSome (Ran board m root size) (run_batch rng solver board size m root world)
    unfolding run_batch
    run_batch-Ran solver board size m root world v fit =
        let chosen = select_leaves rng m size board root m.random_engine in
        bind-IfSome (λ r. Selected rng board root r × Lent rng m.virtual_loss size root r)
          (Ran board m root size) chosen _
          (both-IfSome (Selected rng board root) (Lent rng m.virtual_loss size root) chosen
            (select_leaves-Selected rng m size board root m.random_engine fit)
            (select_leaves-Lent rng m size board root m.random_engine))
          (λ selected (h, owed).
            bind-IfSome (λ c. Unit) (Ran board m root size)
              (evaluate_leaves solver selected.0 m.evaluation_cache world) _
              (any_IfSome (evaluate_leaves solver selected.0 m.evaluation_cache world))
              (λ cached u.
                let ended = finish_leaves m.virtual_loss cached.0 selected.0 selected.1 in
                let counts : List ℕ → Node W → Type 0 =
                  λ q after. node_visits q after ≡ node_visits q root + passes 1 q selected.0 in
                map-IfSome
                  (λ (after : Node W). FitsNode rng board after × ((q : List ℕ) → counts q after))
                  (Ran board m root size) ended _
                  (both-IfSome (FitsNode rng board) (λ after. (q : List ℕ) → counts q after) ended
                    (finish_leaves-FitsNode rng m.virtual_loss cached.0 selected.0 board selected.1
                      v h.0 h.1)
                    (all-IfSome counts ended (λ q.
                      finish_leaves_visits rng m.virtual_loss q (node_visits q root) cached.0
                        selected.0 board selected.1 v (h.0, h.1) (owed.1 q))))
                  (λ after k. (k.0, refl, (selected.0, owed.0, k.1)))))
