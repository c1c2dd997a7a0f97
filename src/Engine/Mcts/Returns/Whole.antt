-- ===== src/Engine/Mcts/Returns/Whole.antt =====
-- MCTS::Search of engine/src/mcts.cpp from its start to its policy, without a defensive solver.
use gomoku.Prelude.Results.{Any, IfSome, Returns, bind-Returns, map-Returns, some-Any}
use gomoku.Prelude.{
  ℕ, zero, suc, ◌<◌, ◌≡◌, ap, refl, subst, ◌∙◌, false, List, [], ◌∷◌, length, Option, none, some,
  arith, if_cases,
}
use mathlib.Core.Option
use gomoku.Prelude.Int.{ℤ, pos, negsuc}
use gomoku.Prelude.Float.{Float}
use gomoku.Engine.Board.{Board}
use gomoku.Engine.Board.Rules.Valid.{IsValid}
use gomoku.Engine.Mcts.{nil, tree, Node, new_info}
use gomoku.Engine.Mcts.Policy.{EvaluationResult, Random, DirichletNoiseConfig, get_solved_action}
use gomoku.Engine.Mcts.Search.{simulations, Evaluator, Clock, Mcts, noised, apply_root_noise}
use gomoku.Engine.Mcts.Run.{
  Solvers, root_or, filter_root, noise_root, run_rounds, evaluated_root, expand_root, search_tree,
  search_from, search_board,
}
use gomoku.Engine.Mcts.Fits.{FitsRoot}
use gomoku.Engine.Mcts.Fits.Whole.{Searched, search_board-Searched}
use gomoku.Engine.Mcts.Returns.Rounds.{RoundsAbove, run_rounds-Any}
use gomoku.Engine.Mcts.Returns.Found.{Answers}

module _ {ℓ} {W : Type ℓ} ⦃f : Float W⦄ {R : Type 0} where
  -- No mask on the root's children, and some batch size.
  abbrev IsOpen : Mcts W R → Type 0
  IsOpen m = (m.root_defensive_mask_active ≡ false) × (0 < m.batch_size)

  -- The root that a search starts from.
  abbrev first_root : Board → Mcts W R → Node W
  first_root board m = root_or (new_info (negsuc 0) f.one board.current_player, nil) m.root

  module _ ⦃random : Random W R⦄ where
    noised-IsOpen :
        (m : Mcts W R) (board : Board) (root : Node W) (config : Option (DirichletNoiseConfig W))
        → IsOpen m
        → IsOpen (noised m board root config)
    unfolding noised
    noised-IsOpen m board (info, kids) none h = h
    noised-IsOpen m board (info, nil) (some config) h = h
    noised-IsOpen m board (info, tree first below rest) (some config) h = h

    noise_root-IsOpen :
        (board : Board) (m : Mcts W R) (root : Node W) → IsOpen m → IsOpen (noise_root board m root)
    unfolding noise_root apply_root_noise
    noise_root-IsOpen board m root h =
        if_cases IsOpen m.root_noise_applied (λ e. h) (λ e. noised-IsOpen m board root _ h)

  module _ {E : Type 0} ⦃random : Random W R⦄ ⦃evaluator : Evaluator W E⦄ ⦃timer : Clock E⦄
      (rng : ℕ → ℕ) (solver : Option (Board → List ℤ)) (board : Board) where
    abbrev with_noise : Mcts W R × Node W × E → Mcts W R × Node W × E
    with_noise (m, root, world) =
        let noisy = noise_root board m (root_or root m.root) in
        (noisy, root_or root noisy.root, world)

    -- What the loop of a search starts with: the root, evaluated and with its noise.
    abbrev pub loop_start : Mcts W R → E → Option (Mcts W R × Node W × E)
    loop_start m world = Option.map with_noise (
        expand_root none board (record m { root = some (first_root board m) }) (first_root board m)
          world)

    -- In each tree that the loop of a search comes to, the values of the children are more than minus
    -- infinity.
    abbrev pub SearchAbove : Mcts W R → E → Type ℓ
    SearchAbove m world =
        (q : Mcts W R × Node W × E) → loop_start m world ≡ some q → RoundsAbove rng solver board q

    evaluated_root-IsOpen :
        (m : Mcts W R) (root : Node W) (answer : List (EvaluationResult W) × E)
        → length answer.0 ≡ 1
        → IsOpen m
        → Returns
            (λ (q : Mcts W R × Node W × E). IsOpen q.0)
            (evaluated_root none board m root answer)
    evaluated_root-IsOpen m root ([], world) e h = absurd (omega arith)
    evaluated_root-IsOpen m root (result ∷ results, world) e h = (_, refl, h)

    module _ (answers : Answers evaluator) where
      expand_root-IsOpen :
          (m : Mcts W R) (root : Node W) (world : E)
          → IsOpen m
          → Returns
              (λ (q : Mcts W R × Node W × E). IsOpen q.0)
              (expand_root none board m root world)
      unfolding expand_root
      expand_root-IsOpen m root world h =
          let answer = evaluator.evaluate (board ∷ []) world in
          if_cases
            (λ (o : Option (Mcts W R × Node W × E)).
              Returns (λ (q : Mcts W R × Node W × E). IsOpen q.0) o)
            root.0.is_expanded (λ e. (_, refl, h))
            (λ e. evaluated_root-IsOpen m root answer (answers (board ∷ []) world ∙ refl) h)

      search_tree-Any :
          (fuel n : ℕ) (q : Mcts W R × Node W × E)
          → RoundsAbove rng solver board (with_noise q)
          → IsOpen q.0
          → n < fuel
          → Any (
              search_tree fuel rng
                (record { endgame_solver = solver; defensive_solver = none })
                (simulations (pos n))
                board
                q)
      unfolding search_tree filter_root
      search_tree-Any fuel n (m, root, world) above h enough =
          let (noisy, start, w) = with_noise (m, root, world) in
          let (open_root, some_size) = noise_root-IsOpen board m (root_or root m.root) h in
          map-Returns (λ q. Unit) (λ q. Unit)
            (run_rounds fuel rng solver (simulations (pos n)) board 0 noisy start world) _
            (run_rounds-Any rng solver board answers fuel n 0 noisy start world above open_root
              some_size (omega arith) (omega (arith, enough)))
            (λ r u. tt)

      search_from-Any :
          (fuel n : ℕ) (m : Mcts W R) (world : E) (answer : ℤ)
          → SearchAbove m world
          → IsOpen m
          → n < fuel
          → Any (
              search_from fuel rng
                (record { endgame_solver = solver; defensive_solver = none })
                (simulations (pos n))
                board
                m
                world
                answer)
      unfolding search_from
      search_from-Any fuel n m world (pos a) above h enough = some-Any _
      search_from-Any fuel n m world (negsuc a) above h enough =
          let root = first_root board m in
          let expanded = expand_root none board (record m { root = some root }) root world in
          let (r, e, k) = expand_root-IsOpen (record m { root = some root }) root world h in
          bind-Returns (λ q. (expanded ≡ some q) × IsOpen q.0) (λ q. Unit) expanded _ (r, e, (e, k))
            (λ q (came, ready).
              search_tree-Any fuel n q (above (with_noise q) (ap (Option.map with_noise) came))
                ready enough)

      search_board-Any :
          (fuel n : ℕ) (m : Mcts W R) (world : E)
          → SearchAbove m world
          → IsOpen m
          → n < fuel
          → 0 < n
          → Any (
              search_board fuel rng
                (record { endgame_solver = solver; defensive_solver = none })
                (simulations (pos n))
                board
                m
                world)
      unfolding search_board
      search_board-Any fuel zero m world above h enough ok = absurd (omega arith)
      search_board-Any fuel (suc n) m world above h enough ok =
          search_from-Any fuel (suc n) m world (get_solved_action board solver) above h enough

      -- A search with a limit of n simulations and without a defensive solver, on fuel above n (out of fuel
      -- there is no result), returns a policy, which gives weight to legal actions only, and leaves a tree
      -- that fits the board: for n and a batch size that are not 0, no mask on the root, a valid board that
      -- the tree fits, an evaluator that answers each board it is given, and values of the children that
      -- are more than minus infinity in each tree that the loop comes to.
      pub search_board-Returns :
          (fuel n : ℕ) (m : Mcts W R) (world : E)
          → SearchAbove m world
          → m.root_defensive_mask_active ≡ false
          → 0 < m.batch_size
          → IsValid board
          → FitsRoot rng board m.root
          → 0 < n
          → n < fuel
          → Returns (Searched rng board) (
              search_board fuel rng
                (record { endgame_solver = solver; defensive_solver = none })
                (simulations (pos n))
                board
                m
                world)
      search_board-Returns fuel n m world above h b v fit ok enough =
          let solvers : Solvers = record { endgame_solver = solver; defensive_solver = none } in
          let (r, e, u) = search_board-Any fuel n m world above (h, b) enough ok in
          (
            r,
            e,
            subst (IfSome (Searched rng board)) e
                (search_board-Searched rng fuel solvers (simulations (pos n)) board m world v fit),
          )
