-- ===== src/Engine/Mcts/Fits/Root.antt =====
-- The changes of the root in engine/src/mcts.cpp keep it fitting to the board: the noise, the
-- defensive filter and SelectAction.
use gomoku.Prelude.{ℕ, ◌≡◌, refl, sym, ap, subst, ◌∙◌, Bool, List, ◌∷◌, Option, none, some, if_both}
use gomoku.Prelude.Int.{ℤ}
use gomoku.Prelude.Float.{Float}
use gomoku.Engine.Board.{Board}
use gomoku.Engine.Board.Rules.{apply}
use gomoku.Engine.Mcts.{Info, Forest, nil, tree, Node, detach_child}
use gomoku.Engine.Mcts.Policy.{
  Random, DirichletNoiseConfig, add_dirichlet_noise, mask_policy_to_safe_actions,
}
use gomoku.Engine.Mcts.Search.{
  Mcts, set_priors, priors_of, noised, apply_root_noise, apply_defensive_filter, reset, advance,
  select_from,
}
use gomoku.Engine.Mcts.Run.{root_or, filter_root, noise_root}
use gomoku.Engine.Mcts.Fits.{Fits, FitsNode, FitsRoot, ids, replace-IsRight, detach_child-FitsRoot}

module _ {ℓ} {W : Type ℓ} ⦃f : Float W⦄ (rng : ℕ → ℕ) where
  ids-set_priors : (priors : List W) (kids : Forest W) → ids (set_priors priors kids) ≡ ids kids
  unfolding set_priors
  ids-set_priors priors nil = refl
  ids-set_priors priors (tree info kids rest) =
      ap (λ l. info.action_id ∷ l) (ids-set_priors priors rest)

  set_priors-Fits :
      (priors : List W) (board : Board) (kids : Forest W)
      → Fits rng board kids
      → Fits rng board (set_priors priors kids)
  unfolding set_priors
  set_priors-Fits priors board nil fit = tt
  set_priors-Fits priors board (tree info kids rest) (legal, right, below, later) = (
    legal,
    record { seat = right.seat; opened = right.opened; closed = right.closed },
    below,
    set_priors-Fits priors board rest later,
  )

  set_priors-FitsNode :
      (priors : List W) (board : Board) (info : Info W) (kids : Forest W)
      → FitsNode rng board (info, kids)
      → FitsNode rng board (info, set_priors priors kids)
  unfolding set_priors
  set_priors-FitsNode priors board info kids (right, below) = (
    replace-IsRight rng board info info kids (set_priors priors kids)
        (record { same_action = refl; same_seat = refl; same_state = refl })
        (ids-set_priors priors kids) (ap (set_priors priors)) right,
    set_priors-Fits priors board kids below,
  )

  module _ {R : Type 0} where
    -- A state that holds a root, which fits the board.
    abbrev pub HoldsRoot : Board → Mcts W R → Node W → Type ℓ
    HoldsRoot board m root = (m.root ≡ some root) × FitsNode rng board root

    -- The same of a state alone.
    abbrev pub HasRoot : Board → Mcts W R → Type ℓ
    HasRoot board m = (root : Node W) × HoldsRoot board m root

    pub held_root :
        (board : Board) (m : Mcts W R) (other : Node W)
        → HasRoot board m
        → HoldsRoot board m (root_or other m.root)
    held_root board m other (root, (same, fit)) =
        let e = ap (root_or other) same in
        (same ∙ ap some (sym e), subst (FitsNode rng board) (sym e) fit)

    module _ ⦃random : Random W R⦄ where
      noised-HasRoot :
          (board : Board) (m : Mcts W R) (root : Node W) (config : Option (DirichletNoiseConfig W))
          → HoldsRoot board m root
          → HasRoot board (noised m board root config)
      unfolding noised
      noised-HasRoot board m (info, kids) none h = ((info, kids), h)
      noised-HasRoot board m (info, nil) (some config) h = ((info, nil), h)
      noised-HasRoot board m (info, tree first below rest) (some config) (same, fit) =
          let kids = tree first below rest in
          let priors = (add_dirichlet_noise board (priors_of kids) config m.random_engine).0 in
          ((info, set_priors priors kids), (refl, set_priors-FitsNode priors board info kids fit))

      filtered-HasRoot :
          (board : Board) (m : Mcts W R) (root : Node W) (solver : Board → Bool × List ℤ)
          → HoldsRoot board m root
          → HasRoot board (apply_defensive_filter m board root solver)
      unfolding apply_defensive_filter
      filtered-HasRoot board m (info, kids) solver (same, fit) =
          let priors = mask_policy_to_safe_actions board (solver board) (priors_of kids) in
          if_both (HasRoot board) _ ((info, kids), (same, fit))
            ((info, set_priors priors kids), (refl, set_priors-FitsNode priors board info kids fit))

      pub filter_root-HasRoot :
          (board : Board) (m : Mcts W R) (root : Node W) (solver : Option (Board → Bool × List ℤ))
          → HoldsRoot board m root
          → HasRoot board (filter_root solver board m root)
      unfolding filter_root
      filter_root-HasRoot board m root none h = (root, h)
      filter_root-HasRoot board m root (some solver) h =
          let filtered = filtered-HasRoot board m root solver h in
          if_both (HasRoot board) m.defensive_filter_applied (root, h) filtered

      pub noise_root-HasRoot :
          (board : Board) (m : Mcts W R) (root : Node W)
          → HoldsRoot board m root
          → HasRoot board (noise_root board m root)
      unfolding noise_root apply_root_noise
      noise_root-HasRoot board m root h =
          let noisy = noised-HasRoot board m root m.dirichlet_noise h in
          if_both (HasRoot board) m.root_noise_applied (root, h) noisy

      pub select_from-FitsRoot :
          (board : Board) (m : Mcts W R) (a : ℤ) (root : Option (Node W))
          → m.root ≡ root
          → FitsRoot rng board root
          → FitsRoot rng (apply rng board a) (select_from m a root).root
      unfolding reset
      select_from-FitsRoot board m a none e fit =
          subst (FitsRoot rng (apply rng board a)) (sym e) tt
      select_from-FitsRoot board m a (some (info, kids)) e (right, below) =
          advanced (detach_child a kids) (detach_child-FitsRoot rng board a kids below)
        where
          advanced :
              (child : Option (Node W))
              → FitsRoot rng (apply rng board a) child
              → FitsRoot rng (apply rng board a) (advance m child).root
          advanced none h = tt
          advanced (some child) h = h
