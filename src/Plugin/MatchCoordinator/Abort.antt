-- ===== src/Plugin/MatchCoordinator/Abort.antt =====
-- AbortMatch, and what the other calls do after it.
use gomoku.Prelude.{ℕ, ◌≡◌, refl, true, false, Option, none, some, List}
use gomoku.Prelude.Int.{ℤ}
use gomoku.Plugin.State.{BoardState, Seat, GameResult}
use gomoku.Plugin.Player.{Player}
use gomoku.Plugin.MatchCoordinator.{
  MatchCoordinator, abort_match, get_current_player, step_with, step,
}

module _ (A B : Player) where
  -- A match that was aborted for a reason.
  pub record IsAborted (c : MatchCoordinator A B) (reason : List ℕ) : Type 0 where
    pub over : c.finished ≡ true
    pub open_result : c.result_info.result ≡ GameResult.undetermined
    pub because : c.result_info.termination_reason ≡ reason

  module _ {World : Type 0} (step_callback : BoardState → ℤ → Seat → World → World) where
    step_with_over :
        (c : MatchCoordinator A B) (w : World) (a : Option (Player.State A))
        (b : Option (Player.State B))
        → c.finished ≡ true
        → step_with A B World step_callback c w a b ≡ (c, w, false)
    unfolding step_with
    step_with_over c w none b e = refl
    step_with_over c w (some a) none e = refl
    step_with_over c w (some a) (some b) e = rw e refl

    -- AbortMatch of a match in play leaves it aborted with its reason and the board as it is; a
    -- second abort and a step then change nothing, the step returns false, and there is no
    -- current player.
    pub abort_match-final :
        (c : MatchCoordinator A B) (reason other : List ℕ) (w : World)
        → c.finished ≡ false
        → IsAborted (abort_match A B c reason) reason
          × ((abort_match A B c reason).board ≡ c.board)
          × (abort_match A B (abort_match A B c reason) other ≡ abort_match A B c reason)
          × (step A B World step_callback (abort_match A B c reason) w
              ≡ (abort_match A B c reason, w, false))
          × (get_current_player A B (abort_match A B c reason) ≡ none)
    unfolding abort_match step get_current_player
    abort_match-final c reason other w e = rw e (
      record { over = refl; open_result = refl; because = refl },
      refl,
      refl,
      step_with_over _ w _ _ refl,
      refl,
    )
