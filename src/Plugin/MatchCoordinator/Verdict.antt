-- ===== src/Plugin/MatchCoordinator/Verdict.antt =====
-- PlayMatch ends for whatever players, and its result is the one the board and the answers give.
use gomoku.Prelude.{
  ℕ, zero, suc, ◌+◌, ◌≤◌, ◌≡◌, ◌≢◌, refl, sym, ap, subst, ◌∙◌, inl, inr, Bool, true, false, Option,
  none, some, arith, Bool-cases, if◌then◌else◌, if_false,
}
use gomoku.Prelude.Int.{ℤ}
use gomoku.Prelude.Text.{codes}
use gomoku.Plugin.Difficulty.{Difficulty}
use gomoku.Plugin.State.{
  BoardState, Seat, GameResult, new_state, is_legal_action, is_terminal, other_seat,
}
use gomoku.Plugin.State.Apply.{apply_action, win_of}
use gomoku.Plugin.State.Progress.{
  IsSound, actions, IsSound-actions, apply_action-Advances, new_state-IsSound,
}
use gomoku.Plugin.Player.{Player, MatchResultInfo}
use gomoku.Plugin.MatchCoordinator.{
  MatchCoordinator, outcome, forfeit, is_null, inquire, answer, step_with, step, rounds,
  start_match, play_match,
}

-- What the result of a match should say, given the board on which it ended.
pub record IsVerdict (s : BoardState) (info : MatchResultInfo) : Type 0 where
  pub decided : info.result ≢ GameResult.undetermined
  pub played : s.result ≢ GameResult.undetermined → info.result ≡ s.result
  pub forfeited :
      s.result ≡ GameResult.undetermined
      → (info.result ≡ win_of (other_seat s.current_seat))
        × (info.termination_reason ≡ codes "illegal_action")
  pub won_by_a : info.result ≡ GameResult.player_a_win → info.winner_seat ≡ Seat.a
  pub won_by_b : info.result ≡ GameResult.player_b_win → info.winner_seat ≡ Seat.b

new_state_open : new_state.result ≡ GameResult.undetermined
unfolding new_state
new_state_open = refl

forfeit-IsVerdict :
    (s : BoardState) → s.result ≡ GameResult.undetermined → IsVerdict s (forfeit s.current_seat)
forfeit-IsVerdict s u = record {
  decided = λ e. ground arith;
  played = λ e. absurd (e u);
  forfeited = λ e. (refl, refl);
  won_by_a = λ e. ground arith;
  won_by_b = λ e. ground arith;
}

outcome-IsVerdict :
    (s : BoardState) (info : MatchResultInfo)
    → is_terminal s ≡ true
    → IsVerdict s (outcome info s.result)
outcome-IsVerdict s info t = record {
  decided = λ e. ground arith;
  played = λ e. ground arith;
  forfeited = λ e. ground arith;
  won_by_a = λ e. ground arith;
  won_by_b = λ e. ground arith;
}

module _ (A B : Player) where
  -- A match in play.
  pub record IsRunning (c : MatchCoordinator A B) : Type 0 where
    pub going : c.finished ≡ false
    pub here_a : is_null c.player_a ≡ false
    pub here_b : is_null c.player_b ≡ false
    pub sound : IsSound c.board
    pub undecided : c.board.result ≡ GameResult.undetermined

  pub record IsOver (c : MatchCoordinator A B) : Type 0 where
    pub over : c.finished ≡ true
    pub verdict : IsVerdict c.board c.result_info

  -- What a step does with the action that the player at the seat to move answers, and the value that
  -- it returns.
  pub data Turn (c r : MatchCoordinator A B) (id : ℤ) : Bool → Type 0 where
    forfeits : is_legal_action c.board id ≡ false → r.board ≡ c.board → IsOver r → Turn c r id false
    concludes :
        is_legal_action c.board id ≡ true
        → r.board ≡ apply_action c.board id
        → IsOver r
        → Turn c r id true
    continues :
        is_legal_action c.board id ≡ true
        → r.board ≡ apply_action c.board id
        → IsRunning r
        → Turn c r id true

  module _ {World : Type 0} (step_callback : BoardState → ℤ → Seat → World → World) where
    answer-Turn :
        (c : MatchCoordinator A B) (w : World) (id : ℤ) (a : Player.State A) (b : Player.State B)
        → IsRunning c
        → Turn c
            (answer A B World step_callback c w id a b).0
            id
            (answer A B World step_callback c w id a b).2
    unfolding answer
    answer-Turn c w id a b v = elim (Bool-cases (is_legal_action c.board id)) [
      | inr e ↦ rw e (
          forfeits e refl (record { over = refl; verdict = forfeit-IsVerdict c.board v.undecided }))
      | inl e ↦ elim (Bool-cases (is_terminal (apply_action c.board id))) [
        | inl t ↦
            rw (e, t)
              (concludes e refl (record {
                over = refl;
                verdict = outcome-IsVerdict (apply_action c.board id) c.result_info t;
              }))
        | inr t ↦
            rw (e, t)
              (continues e refl (record {
                going = v.going;
                here_a = refl;
                here_b = refl;
                sound = (apply_action-Advances c.board id v.sound e).0.sound;
                undecided = ground arith;
              }))
      ]
    ]

    -- A step of a match in play, by the action that the player at the seat to move answers: it forfeits
    -- the match if the action is not legal, concludes it if the board is terminal after the action, and
    -- else applies it and leaves the match in play; it returns false in the first case only.
    pub step-Turn :
        (c : MatchCoordinator A B) (w : World) (a : Player.State A) (b : Player.State B)
        → c.player_a ≡ some a
        → c.player_b ≡ some b
        → IsRunning c
        → Turn c
            (step A B World step_callback c w).0
            (inquire A B c.board c.board.current_seat a b).0
            (step A B World step_callback c w).2
    unfolding step step_with
    step-Turn c w a b ea eb v =
        let asked = inquire A B c.board c.board.current_seat a b in
        let next = answer A B World step_callback c w asked.0 asked.1 asked.2 in
        subst (λ (n : MatchCoordinator A B × World × Bool). Turn c n.0 asked.0 n.2)
          (sym (
            ap (λ (o : Option (Player.State A)). step_with A B World step_callback c w o c.player_b)
              ea
            ∙ ap (λ (o : Option (Player.State B)). step_with A B World step_callback c w (some a) o)
                eb
            ∙ if_false (c, w, false) next v.going))
          (answer-Turn c w asked.0 asked.1 asked.2 v)

    there : {S : Type 0} (o : Option S) → is_null o ≡ false → (s : S) × (o ≡ some s)
    there none h = ground arith
    there (some s) h = (s, refl)

    -- The same for the players that the match has.
    some-Turn :
        (c : MatchCoordinator A B) (w : World)
        → IsRunning c
        → (id : ℤ) × Turn c
            (step A B World step_callback c w).0
            id
            (step A B World step_callback c w).2
    some-Turn c w v =
        let (a, ea) = there c.player_a v.here_a in
        let (b, eb) = there c.player_b v.here_b in
        ((inquire A B c.board c.board.current_seat a b).0, step-Turn c w a b ea eb v)

    rounds-over :
        (fuel : ℕ) (c : MatchCoordinator A B) (w : World)
        → c.finished ≡ true
        → rounds A B World step_callback fuel c w ≡ (c, w)
    unfolding rounds
    rounds-over zero c w e = refl
    rounds-over (suc fuel) c w e = rw e refl

    -- The rest of the loop, after a step.
    rounds_rest :
        (fuel : ℕ) (c r : MatchCoordinator A B) (w : World) (id : ℤ) (going : Bool)
        → Turn c r id going
        → IsSound c.board
        → 228 ≤ suc fuel + actions c.board
        → (IsRunning r
            → 228 ≤ fuel + actions r.board
            → IsOver (rounds A B World step_callback fuel r w).0)
        → IsOver (if going then rounds A B World step_callback fuel r w else (r, w)).0
    rounds_rest fuel c r w id going (forfeits e b over) v enough ih = over
    rounds_rest fuel c r w id going (concludes e b over) v enough ih =
        rw (rounds-over fuel r w over.over) over
    rounds_rest fuel c r w id going (continues e b run) v enough ih =
        let further = (apply_action-Advances c.board id v e).0.further in
        ih run (omega (arith, further, ap actions b, enough))

    rounds-IsOver :
        (fuel : ℕ) (c : MatchCoordinator A B) (w : World)
        → IsRunning c
        → 228 ≤ fuel + actions c.board
        → IsOver (rounds A B World step_callback fuel c w).0
    unfolding rounds
    rounds-IsOver zero c w v enough = absurd (omega (arith, IsSound-actions v.sound))
    rounds-IsOver (suc fuel) c w v enough =
        let next = step A B World step_callback c w in
        subst (λ (n : MatchCoordinator A B × World). IsOver n.0) (sym (if_false (c, w) _ v.going))
          (rounds_rest fuel c next.0 next.1 (some-Turn c w v).0 next.2 (some-Turn c w v).1 v.sound
            enough (λ run more. rounds-IsOver fuel next.0 next.1 run more))

    -- The match that PlayMatch leaves.
    abbrev pub Ends : Option (MatchCoordinator A B × World) → Type 0
    Ends none = ⊥
    Ends (some (c, w)) = IsOver c

    -- PlayMatch ends: for whatever two players, difficulties and callback, it throws nothing and
    -- leaves its loop with the match finished, and the result is that of the board or the forfeit.
    pub play_match-Ends :
        (a : Player.State A) (b : Player.State B) (diff_a diff_b : Difficulty) (w : World)
        → Ends (play_match A B World step_callback (some a) (some b) diff_a diff_b w)
    unfolding play_match start_match
    play_match-Ends a b diff_a diff_b w =
        rounds-IsOver 228 _ w
          (record {
            going = refl;
            here_a = refl;
            here_b = refl;
            sound = new_state-IsSound;
            undecided = new_state_open;
          })
          (omega arith)
