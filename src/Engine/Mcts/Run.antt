-- ===== src/Engine/Mcts/Run.antt =====
-- MCTS::Search of engine/src/mcts.cpp: the rounds, a batch each, and what stands before and after.
-- The loop runs on fuel, and out of fuel there is no result; with a limit of simulations one more than
-- the limit is enough, and with a deadline the fuel is more than the rounds until the clock passes it.
use gomoku.Engine.Mcts.Batch.{run_batch}
use gomoku.Prelude.{
  ℕ, zero, suc, ◌+◌, ◌-◌, Bool, true, false, ◌&&◌, ◌||◌, not, List, [], ◌∷◌, ltb, if◌then◌else◌,
  min, Option, none, some,
}
use mathlib.Core.Option
use gomoku.Prelude.Int.{ℤ, pos, negsuc}
use gomoku.Prelude.Float.{Float}
use gomoku.Engine.Board.{Board}
use gomoku.Engine.Mcts.{nil, Node, new_info, expand}
use gomoku.Engine.Mcts.Policy.{
  EvaluationResult, Random, get_solved_action, make_solved_policy, make_uniform_legal_policy,
  make_prior_policy, mask_policy_to_safe_actions, is_empty_list,
}
use gomoku.Engine.Mcts.Search.{
  StoppingCriteria, has_deadline, simulation_limit, is_accepted, Evaluator, Clock, Mcts,
  make_visit_policy, apply_root_noise, apply_defensive_filter,
}

-- What Search is given besides the board and the criterion.
pub record Solvers : Type 0 where
  pub endgame_solver : Option (Board → List ℤ)
  pub defensive_solver : Option (Board → Bool × List ℤ)

abbrev pub batch_of : StoppingCriteria → ℕ → ℕ → ℕ
batch_of criteria batch_size simulations_done =
    if has_deadline criteria
    then batch_size
    else min batch_size (simulation_limit criteria - simulations_done)

-- The root that the state holds; a state without one keeps the node it is given.
abbrev pub root_or {ℓ} : {W : Type ℓ} → Node W → Option (Node W) → Node W
root_or node none = node
root_or node (some root) = root

module _ {E : Type 0} ⦃clock : Clock E⦄ where
  -- Reading the clock: without a deadline it is not read.
  abbrev pub deadline_reached : StoppingCriteria → E → Bool × E
  deadline_reached criteria world =
      if has_deadline criteria then clock.deadline_passed world else (false, world)

module _ {ℓ} {W : Type ℓ} ⦃f : Float W⦄ where
  -- The policy where the deadline has passed before the search.
  abbrev pub early_policy : Board → Option (Node W) → List W
  early_policy board none = make_uniform_legal_policy board
  early_policy board (some root) = make_prior_policy root.1

module _ {ℓ} {W : Type ℓ} {R : Type 0} ⦃f : Float W⦄ where
  -- The priors of a new root, masked if there is a defensive solver.
  abbrev pub defend : Option (Board → Bool × List ℤ) → Board → Mcts W R → List W → Mcts W R × List W
  defend none board m move_pmf = (m, move_pmf)
  defend (some solver) board m move_pmf = (
    record m {
      root_defensive_mask_active = (solver board).0 && not (is_empty_list (solver board).1);
      defensive_filter_applied = true;
    },
    mask_policy_to_safe_actions board (solver board) move_pmf,
  )

module _ {ℓ} {W : Type ℓ} {R : Type 0} ⦃f : Float W⦄ ⦃random : Random W R⦄ where
  -- The defensive filter and the root noise, where they were not applied yet.
  unfoldable pub filter_root : Option (Board → Bool × List ℤ) → Board → Mcts W R → Node W → Mcts W R
  filter_root none board m root = m
  filter_root (some solver) board m root =
      if m.defensive_filter_applied
      then m
      else record (apply_defensive_filter m board root solver) { defensive_filter_applied = true }

  unfoldable pub noise_root : Board → Mcts W R → Node W → Mcts W R
  noise_root board m root =
      if m.root_noise_applied
      then m
      else record (apply_root_noise m board root) { root_noise_applied = true }

module _ {ℓ} {W : Type ℓ} {R E : Type 0} ⦃f : Float W⦄ ⦃random : Random W R⦄
    ⦃evaluator : Evaluator W E⦄ ⦃timer : Clock E⦄ where
  unfoldable pub run_rounds :
      ℕ
      → (ℕ → ℕ)
      → Option (Board → List ℤ)
      → StoppingCriteria
      → Board
      → ℕ
      → Mcts W R
      → Node W
      → E
      → Option (Mcts W R × Node W × E)
  run_rounds zero rng solver criteria board simulations_done m root world = none
  run_rounds (suc fuel) rng solver criteria board simulations_done m root world =
      let clock = deadline_reached criteria world in
      let size = batch_of criteria m.batch_size simulations_done in
      let rest =
        Option.bind (run_batch rng solver board size m root clock.1) (λ (r : Mcts W R × Node W × E).
          run_rounds fuel rng solver criteria board (simulations_done + size) r.0 r.1 r.2) in
      if not (ltb simulations_done (simulation_limit criteria) || has_deadline criteria)
      then some (m, root, world)
      else if clock.0
      then some (m, root, clock.1)
      else rest

  -- The root after its first evaluation: `none` if the evaluator has no result.
  abbrev pub evaluated_root :
      Option (Board → Bool × List ℤ)
      → Board
      → Mcts W R
      → Node W
      → List (EvaluationResult W) × E
      → Option (Mcts W R × Node W × E)
  evaluated_root solver board m root ([], world) = none
  evaluated_root solver board m root (result ∷ results, world) =
      let (m, move_pmf) = defend solver board m result.move_pmf in
      let root = expand board move_pmf root in some (record m { root = some root }, root, world)

  unfoldable pub expand_root :
      Option (Board → Bool × List ℤ)
      → Board
      → Mcts W R
      → Node W
      → E
      → Option (Mcts W R × Node W × E)
  expand_root solver board m root world =
      if root.0.is_expanded
      then some (m, root, world)
      else evaluated_root solver board m root (evaluator.evaluate (board ∷ []) world)

  -- From the loop on.
  unfoldable pub search_tree :
      ℕ
      → (ℕ → ℕ)
      → Solvers
      → StoppingCriteria
      → Board
      → Mcts W R × Node W × E
      → Option (List W × Mcts W R × E)
  search_tree fuel rng solvers criteria board (m, root, world) =
      let clock = deadline_reached criteria world in
      let filtered = filter_root solvers.defensive_solver board m root in
      let noisy = noise_root board filtered (root_or root filtered.root) in
      if clock.0
      then some (make_prior_policy root.1, m, clock.1)
      else Option.map (λ (r : Mcts W R × Node W × E). (make_visit_policy r.1.1, r.0, r.2))
          (run_rounds fuel rng solvers.endgame_solver criteria board 0 noisy
            (root_or root noisy.root) clock.1)

  -- From the endgame solver's answer for the root on.
  unfoldable pub search_from :
      ℕ
      → (ℕ → ℕ)
      → Solvers
      → StoppingCriteria
      → Board
      → Mcts W R
      → E
      → ℤ
      → Option (List W × Mcts W R × E)
  search_from fuel rng solvers criteria board m world (pos action) =
      some (make_solved_policy (pos action), m, world)
  search_from fuel rng solvers criteria board m world (negsuc n) =
      let root = root_or (new_info (negsuc 0) f.one board.current_player, nil) m.root in
      Option.bind
        (expand_root solvers.defensive_solver board (record m { root = some root }) root world)
        (search_tree fuel rng solvers criteria board)

  unfoldable pub search_board :
      ℕ
      → (ℕ → ℕ)
      → Solvers
      → StoppingCriteria
      → Board
      → Mcts W R
      → E
      → Option (List W × Mcts W R × E)
  search_board fuel rng solvers criteria board m world =
      let clock = deadline_reached criteria world in
      if not (is_accepted criteria)
      then none
      else if clock.0
      then some (early_policy board m.root, m, clock.1)
      else search_from fuel rng solvers criteria board m clock.1
          (get_solved_action board solvers.endgame_solver)
