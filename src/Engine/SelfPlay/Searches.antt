-- ===== src/Engine/SelfPlay/Searches.antt =====
-- The searches that a game of engine/src/self_play.cpp keeps all fit its board.
use gomoku.Engine.SelfPlay.Run.{
  Searches, change_searches, find_search, first_noise, noise_is_over, put_search, quieten,
  search_or_new,
}
use gomoku.Prelude.{ℕ, zero, suc, ◌&&◌, [], ◌∷◌, Option, none, some, if_both, ◌==◌}
use gomoku.Prelude.Int.{ℤ, pos, negsuc}
use gomoku.Prelude.Float.{Float}
use gomoku.Prelude.Results.{IfSome}
use gomoku.Engine.Board.{Board}
use gomoku.Engine.Mcts.Policy.{Random, DirichletNoiseConfig}
use gomoku.Engine.Mcts.Search.{has_value, Mcts, new_mcts, set_dirichlet_noise}
use gomoku.Engine.Mcts.Fits.{FitsRoot}
use gomoku.Engine.SelfPlay.{SelfPlayConfig}

module _ {ℓ} {W : Type ℓ} ⦃f : Float W⦄ (rng : ℕ → ℕ) where
  built_fits :
      (R : Type 0) ⦃random : Random W R⦄ (board : Board) (size : ℤ) (c : W)
      (noise : Option (DirichletNoiseConfig W)) (loss : ℤ)
      → IfSome (λ (m : Mcts W R). FitsRoot rng board m.root) (new_mcts size c noise loss)
  unfolding new_mcts
  built_fits R board (pos (suc n)) c noise (pos loss) =
      if_both (IfSome (λ (m : Mcts W R). FitsRoot rng board m.root)) (f.lt c f.nought) {x = none} tt
        tt
  built_fits R board (pos (suc n)) c noise (negsuc loss) = tt
  built_fits R board (pos zero) c noise loss = tt
  built_fits R board (negsuc n) c noise loss = tt

  module _ {R : Type 0} where
    -- Every search fits the board.
    abbrev pub AllFit : Board → Searches W R → Type ℓ
    AllFit board [] = Unit
    AllFit board ((key, m) ∷ searches) = FitsRoot rng board m.root × AllFit board searches

    abbrev pub FitsFor : Board → Mcts W R → Type ℓ
    FitsFor board m = FitsRoot rng board m.root

    pub found_fits :
        (board : Board) (key : ℕ) (searches : Searches W R)
        → AllFit board searches
        → IfSome (FitsFor board) (find_search key searches)
    found_fits board key [] fit = tt
    found_fits board key ((k, m) ∷ searches) (here, later) =
        if_both (IfSome (FitsFor board)) (k == key) {x = some m} here
          (found_fits board key searches later)

    pub put_fits :
        (board : Board) (key : ℕ) (m : Mcts W R) (searches : Searches W R)
        → FitsFor board m
        → AllFit board searches
        → AllFit board (put_search key m searches)
    put_fits board key m [] fit all = (fit, tt)
    put_fits board key m ((k, other) ∷ searches) fit (here, later) =
        if_both (AllFit board) (k == key) {x = (k, m) ∷ searches}
          {y = (k, other) ∷ put_search key m searches} (fit, later)
          (here, put_fits board key m searches fit later)

    pub changed_fits :
        (board next : Board) (change : Mcts W R → Mcts W R) (searches : Searches W R)
        → ((m : Mcts W R) → FitsFor board m → FitsFor next (change m))
        → AllFit board searches
        → AllFit next (change_searches change searches)
    changed_fits board next change [] step all = tt
    changed_fits board next change ((k, m) ∷ searches) step (here, later) =
        (step m here, changed_fits board next change searches step later)

    module _ ⦃random : Random W R⦄ where
      pub search_or_new_fits :
          (config : SelfPlayConfig W) (count : ℕ) (board : Board) (o : Option (Mcts W R))
          → IfSome (FitsFor board) o
          → IfSome (FitsFor board) (search_or_new config count o)
      search_or_new_fits config count board none h =
          built_fits R board config.batch_size config.c_puct (first_noise config count) (pos 3)
      search_or_new_fits config count board (some m) h = h

      pub quiet_fits :
          (config : SelfPlayConfig W) (count : ℕ) (board : Board) (searches : Searches W R)
          → AllFit board searches
          → AllFit board (quieten config count searches)
      unfolding set_dirichlet_noise
      quiet_fits config count board searches all =
          if_both (AllFit board) (has_value config.dirichlet_noise && noise_is_over config count)
            (changed_fits board board (λ (m : Mcts W R). set_dirichlet_noise m none) searches
              (λ m h. h) all)
            all
