-- ===== src/Engine/Mcts/Returns/Rounds.antt =====
-- The loop of MCTS::Search in engine/src/mcts.cpp with a limit of simulations ends, and gives a result.
use gomoku.Engine.Mcts.Batch.{evaluate_leaves, finish_leaves, run_batch, select_leaves}
use gomoku.Engine.Mcts.Returns.Pick.{BatchAbove, no_descent, select_leaves-Any}
use gomoku.Engine.Mcts.Returns.Found.{
  Answers, HasLeaves, evaluate_leaves-HasLeaves, finish_leaves-Any,
}
use gomoku.Prelude.Results.{Any, Returns, bind-Returns, map-Returns, some-Any}
use gomoku.Prelude.{
  ℕ, zero, suc, ◌+◌, ◌-◌, ◌<◌, ◌≤◌, ◌≡◌, refl, false, List, ◌||◌, not, ltb, min, Option, some,
  arith, if_cases,
}
use gomoku.Prelude.Int.{ℤ, pos}
use gomoku.Prelude.Float.{Float}
use gomoku.Engine.Board.{Board}
use gomoku.Engine.Mcts.{Node}
use gomoku.Engine.Mcts.Policy.{Random}
use gomoku.Engine.Mcts.Search.{Evaluator, Clock, Cache, Mcts, simulations}
use gomoku.Engine.Mcts.Run.{run_rounds}

-- What the loop comes to from where it starts, a batch at a time.
pub data Rounds {ℓ} {W : Type ℓ} {R E : Type 0} ⦃f : Float W⦄ ⦃random : Random W R⦄
    ⦃evaluator : Evaluator W E⦄ ⦃timer : Clock E⦄ (rng : ℕ → ℕ) (solver : Option (Board → List ℤ))
    (board : Board) (start : Mcts W R × Node W × E) : Mcts W R × Node W × E → Type ℓ where
  at_start : Rounds rng solver board start start
  a_round :
      {before after : Mcts W R × Node W × E} (size : ℕ)
      → Rounds rng solver board start before
      → run_batch rng solver board size before.0 before.1 before.2 ≡ some after
      → Rounds rng solver board start after

-- A batch with a limit is not empty, and not more than what is left.
pub progress :
    (b n done : ℕ) → 0 < b → done < n → (0 < min b (n - done)) × (min b (n - done) ≤ n - done)
progress b n done h k = (omega arith, omega arith)

module _ {ℓ} {W : Type ℓ} {R E : Type 0} ⦃f : Float W⦄ ⦃random : Random W R⦄
    ⦃evaluator : Evaluator W E⦄ ⦃timer : Clock E⦄ (rng : ℕ → ℕ) (solver : Option (Board → List ℤ))
    (board : Board) where
  -- In each tree that the loop comes to, the values of the children are more than minus infinity.
  abbrev pub RoundsAbove : Mcts W R × Node W × E → Type ℓ
  RoundsAbove start =
      (q : Mcts W R × Node W × E) → Rounds rng solver board start q → BatchAbove rng q.0 board q.1

  Rounds-trans :
      {start next q : Mcts W R × Node W × E} (size : ℕ)
      → run_batch rng solver board size start.0 start.1 start.2 ≡ some next
      → Rounds rng solver board next q
      → Rounds rng solver board start q
  Rounds-trans size e at_start = a_round size at_start e
  Rounds-trans size e (a_round more r k) = a_round more (Rounds-trans size e r) k

  -- A state without a mask on the root's children, and with such a batch size.
  abbrev IsOpen : ℕ → Mcts W R × Node W × E → Type 0
  IsOpen size (m, root, world) = (m.root_defensive_mask_active ≡ false) × (m.batch_size ≡ size)

  module _ (answers : Answers evaluator) where
    run_batch-IsOpen :
        (size : ℕ) (m : Mcts W R) (root : Node W) (world : E)
        → BatchAbove rng m board root
        → m.root_defensive_mask_active ≡ false
        → Returns (IsOpen m.batch_size) (run_batch rng solver board size m root world)
    unfolding run_batch
    run_batch-IsOpen size m root world above h =
        bind-Returns _ (IsOpen m.batch_size) (select_leaves rng m size board root m.random_engine) _
          (select_leaves-Any rng m board root above h size root m.random_engine no_descent)
          (λ selected u.
            bind-Returns (λ (r : Cache W × E). HasLeaves r.0 selected.0) (IsOpen m.batch_size)
              (evaluate_leaves solver selected.0 m.evaluation_cache world) _
              (evaluate_leaves-HasLeaves solver selected.0 m.evaluation_cache world answers)
              (λ cached all.
                map-Returns _ (IsOpen m.batch_size)
                  (finish_leaves m.virtual_loss cached.0 selected.0 selected.1) _
                  (finish_leaves-Any m.virtual_loss cached.0 selected.0 selected.1 all)
                  (λ node u. (h, refl))))

    -- The rounds end: each makes some simulation.
    pub run_rounds-Any :
        (fuel n done : ℕ) (m : Mcts W R) (root : Node W) (world : E)
        → RoundsAbove (m, root, world)
        → m.root_defensive_mask_active ≡ false
        → 0 < m.batch_size
        → done ≤ n
        → n < done + fuel
        → Any (run_rounds fuel rng solver (simulations (pos n)) board done m root world)
    unfolding run_rounds
    run_rounds-Any zero n done m root world above h some_size le enough = absurd (omega arith)
    run_rounds-Any (suc fuel) n done m root world above h some_size le enough =
        let size = min m.batch_size (n - done) in
        let batch = run_batch rng solver board size m root world in
        let (r, e, k) = run_batch-IsOpen size m root world (above (m, root, world) at_start) h in
        if_cases (λ (o : Option (Mcts W R × Node W × E)). Any o) (not (ltb done n || false))
          (λ stop. some-Any _)
          (λ going.
            bind-Returns (λ q. (batch ≡ some q) × IsOpen m.batch_size q) (λ q. Unit) batch _
              (r, e, (e, k))
              (λ q (came, kept).
                run_rounds-Any fuel n (done + size) q.0 q.1 q.2
                  (λ p later. above p (Rounds-trans size came later)) kept.0 (omega (arith, kept.1))
                  (ground (arith, progress m.batch_size n done))
                  (ground (arith, progress m.batch_size n done))))
