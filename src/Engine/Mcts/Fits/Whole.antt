-- ===== src/Engine/Mcts/Fits/Whole.antt =====
-- MCTS::Search and SelectAction of engine/src/mcts.cpp keep the tree fitting to the game.
use gomoku.Prelude.Results.{IfSome, bind-IfSome, map-IfSome, any_IfSome}
use gomoku.Engine.Mcts.Batch.{evaluate_leaves, finish_leaves, run_batch, select_leaves}
use gomoku.Prelude.{
  ℕ, zero, suc, ◌+◌, ◌≡◌, refl, sym, subst, Bool, ◌||◌, not, List, [], ◌∷◌, ltb, Option, none, some,
  arith, if_cases,
}
use gomoku.Prelude.Int.{ℤ, pos, negsuc}
use gomoku.Prelude.Float.{Float}
use gomoku.Engine.Board.{Board}
use gomoku.Engine.Board.Rules.{apply}
use gomoku.Engine.Board.Rules.Valid.{IsValid}
use gomoku.Engine.Mcts.{nil, Node, new_info}
use gomoku.Engine.Mcts.Policy.{EvaluationResult, Random, get_solved_action}
use gomoku.Engine.Mcts.Search.{
  StoppingCriteria, Evaluator, Clock, Mcts, select_action, is_accepted, simulation_limit,
  has_deadline,
}
use gomoku.Engine.Mcts.Run.{
  Solvers, root_or, batch_of, deadline_reached, defend, filter_root, noise_root, run_rounds,
  evaluated_root, expand_root, search_tree, search_from, search_board,
}
use gomoku.Engine.Mcts.Fits.{FitsNode, FitsRoot, expand-FitsNode}
use gomoku.Engine.Mcts.Fits.Rounds.{Selected, select_leaves-Selected, finish_leaves-FitsNode}
use gomoku.Engine.Mcts.Fits.Support.{
  LegalOnly, make_prior_policy-LegalOnly, make_visit_policy-LegalOnly, early_policy-LegalOnly,
  solved_action-LegalOnly,
}
use gomoku.Engine.Mcts.Fits.Root.{
  HoldsRoot, held_root, filter_root-HasRoot, noise_root-HasRoot, select_from-FitsRoot,
}

module _ {ℓ} {W : Type ℓ} ⦃f : Float W⦄ (rng : ℕ → ℕ) {R : Type 0} where
  -- A state, its root and the world: the root fits the board.
  abbrev pub Held : {E : Type 0} → Board → Mcts W R × Node W × E → Type ℓ
  Held board (m, root, world) = HoldsRoot rng board m root

  -- A policy of legal actions, and a state whose root fits the board.
  abbrev pub Searched : {E : Type 0} → Board → List W × Mcts W R × E → Type ℓ
  Searched board (policy, m, world) = FitsRoot rng board m.root × LegalOnly board policy

  rooted :
      (board : Board) (m : Mcts W R) (root : Node W)
      → HoldsRoot rng board m root
      → FitsRoot rng board m.root
  rooted board m root (same, fit) = subst (FitsRoot rng board) (sym same) fit

  module _ {E : Type 0} ⦃random : Random W R⦄ ⦃evaluator : Evaluator W E⦄ ⦃timer : Clock E⦄ where
    pub run_batch-Held :
        (solver : Option (Board → List ℤ)) (board : Board) (size : ℕ) (m : Mcts W R) (root : Node W)
        (world : E)
        → IsValid board
        → FitsNode rng board root
        → IfSome (Held board) (run_batch rng solver board size m root world)
    unfolding run_batch
    run_batch-Held solver board size m root world v fit =
        bind-IfSome (Selected rng board root) (Held board)
          (select_leaves rng m size board root m.random_engine) _
          (select_leaves-Selected rng m size board root m.random_engine fit)
          (λ selected h.
            bind-IfSome (λ c. Unit) (Held board)
              (evaluate_leaves solver selected.0 m.evaluation_cache world) _
              (any_IfSome (evaluate_leaves solver selected.0 m.evaluation_cache world))
              (λ cached u.
                map-IfSome (FitsNode rng board) (Held board)
                  (finish_leaves m.virtual_loss cached.0 selected.0 selected.1) _
                  (finish_leaves-FitsNode rng m.virtual_loss cached.0 selected.0 board selected.1 v
                    h.0 h.1)
                  (λ node fits. (refl, fits))))

    run_rounds-Held :
        (fuel : ℕ) (solver : Option (Board → List ℤ)) (criteria : StoppingCriteria) (board : Board)
        (done : ℕ) (m : Mcts W R) (root : Node W) (world : E)
        → IsValid board
        → HoldsRoot rng board m root
        → IfSome (Held board) (run_rounds fuel rng solver criteria board done m root world)
    unfolding run_rounds
    run_rounds-Held zero solver criteria board done m root world v h = tt
    run_rounds-Held (suc fuel) solver criteria board done m root world v h =
        let clock = deadline_reached criteria world in
        let size = batch_of criteria m.batch_size done in
        let later =
          bind-IfSome (Held board) (Held board) (run_batch rng solver board size m root clock.1)
            (λ (r : Mcts W R × Node W × E).
              run_rounds fuel rng solver criteria board (done + size) r.0 r.1 r.2)
            (run_batch-Held solver board size m root clock.1 v h.1)
            (λ r k. run_rounds-Held fuel solver criteria board (done + size) r.0 r.1 r.2 v k) in
        if_cases (IfSome (Held board))
          (not (ltb done (simulation_limit criteria) || has_deadline criteria)) (λ e. h)
          (λ e. if_cases (IfSome (Held board)) clock.0 (λ reached. h) (λ going. later))

    evaluated_root-Held :
        (solver : Option (Board → Bool × List ℤ)) (board : Board) (m : Mcts W R) (root : Node W)
        (answer : List (EvaluationResult W) × E)
        → IsValid board
        → FitsNode rng board root
        → IfSome (Held board) (evaluated_root solver board m root answer)
    evaluated_root-Held solver board m root ([], world) v fit = tt
    evaluated_root-Held solver board m root (result ∷ results, world) v fit =
        (refl, expand-FitsNode rng board (defend solver board m result.move_pmf).1 root v fit)

    expand_root-Held :
        (solver : Option (Board → Bool × List ℤ)) (board : Board) (m : Mcts W R) (root : Node W)
        (world : E)
        → IsValid board
        → HoldsRoot rng board m root
        → IfSome (Held board) (expand_root solver board m root world)
    unfolding expand_root
    expand_root-Held solver board m root world v h =
        let answer = evaluator.evaluate (board ∷ []) world in
        if_cases (IfSome (Held board)) root.0.is_expanded (λ e. h)
          (λ e. evaluated_root-Held solver board m root answer v h.1)

    search_tree-Searched :
        (fuel : ℕ) (solvers : Solvers) (criteria : StoppingCriteria) (board : Board) (m : Mcts W R)
        (root : Node W) (world : E)
        → IsValid board
        → HoldsRoot rng board m root
        → IfSome (Searched board) (search_tree fuel rng solvers criteria board (m, root, world))
    unfolding search_tree
    search_tree-Searched fuel solvers criteria board m root world v h =
        let clock = deadline_reached criteria world in
        let filtered = filter_root solvers.defensive_solver board m root in
        let held =
          held_root rng board filtered root
            (filter_root-HasRoot rng board m root solvers.defensive_solver h) in
        let noisy = noise_root board filtered (root_or root filtered.root) in
        let ready =
          held_root rng board noisy root
            (noise_root-HasRoot rng board filtered (root_or root filtered.root) held) in
        if_cases (IfSome (Searched board)) clock.0
          (λ e. (rooted board m root h, make_prior_policy-LegalOnly rng board root.1 h.1.1))
          (λ e.
            map-IfSome (Held board) (Searched board)
              (run_rounds fuel rng solvers.endgame_solver criteria board 0 noisy
                (root_or root noisy.root) clock.1)
              _
              (run_rounds-Held fuel solvers.endgame_solver criteria board 0 noisy
                (root_or root noisy.root) clock.1 v ready)
              (λ r k. (rooted board r.0 r.1 k, make_visit_policy-LegalOnly rng board r.1.1 k.1.1)))

    search_from-Searched :
        (fuel : ℕ) (solvers : Solvers) (criteria : StoppingCriteria) (board : Board) (m : Mcts W R)
        (world : E) (answer : ℤ)
        → IsValid board
        → FitsRoot rng board m.root
        → get_solved_action board solvers.endgame_solver ≡ answer
        → IfSome (Searched board) (search_from fuel rng solvers criteria board m world answer)
    unfolding search_from
    search_from-Searched fuel solvers criteria board m world (pos n) v fit e =
        (fit, solved_action-LegalOnly board solvers.endgame_solver n e)
    search_from-Searched fuel solvers criteria board m world (negsuc n) v fit e =
        let root = root_or (new_info (negsuc 0) f.one board.current_player, nil) m.root in
        bind-IfSome (Held board) (Searched board) _ (search_tree fuel rng solvers criteria board)
          (expand_root-Held solvers.defensive_solver board (record m { root = some root }) root
            world v (refl, root_or-FitsNode m.root fit))
          (λ r k. search_tree-Searched fuel solvers criteria board r.0 r.1 r.2 v k)
      where
        root_or-FitsNode :
            (o : Option (Node W))
            → FitsRoot rng board o
            → FitsNode rng board (root_or (new_info (negsuc 0) f.one board.current_player, nil) o)
        root_or-FitsNode none h =
            (record { seat = refl; opened = λ o. ground arith; closed = λ o. refl }, tt)
        root_or-FitsNode (some node) h = h

    -- A search at a valid board that the tree fits to leaves, where it throws no exception, a tree that
    -- fits to it, and a policy that gives no weight to an action that is not legal.
    pub search_board-Searched :
        (fuel : ℕ) (solvers : Solvers) (criteria : StoppingCriteria) (board : Board) (m : Mcts W R)
        (world : E)
        → IsValid board
        → FitsRoot rng board m.root
        → IfSome (Searched board) (search_board fuel rng solvers criteria board m world)
    unfolding search_board
    search_board-Searched fuel solvers criteria board m world v fit =
        let clock = deadline_reached criteria world in
        if_cases (IfSome (Searched board)) (not (is_accepted criteria)) (λ e. tt)
          (λ e.
            if_cases (IfSome (Searched board)) clock.0
              (λ reached. (fit, early_policy-LegalOnly rng board m.root fit))
              (λ going. search_from-Searched fuel solvers criteria board m clock.1 _ v fit refl))

  -- SelectAction leaves a tree that fits to the board after the action.
  pub select_action-FitsRoot :
      ⦃random : Random W R⦄ (board : Board) (m : Mcts W R) (a : ℤ)
      → FitsRoot rng board m.root
      → FitsRoot rng (apply rng board a) (select_action m a).root
  unfolding select_action
  select_action-FitsRoot board m a fit = select_from-FitsRoot rng board m a m.root refl fit
