-- ===== src/App/ReplayController/Shown.antt =====
-- The board shown is always that of the current ply, and playing stops at the last.
use gomoku.Prelude.{
  ℕ, zero, suc, ◌+◌, ◌≤◌, ◌<◌, ◌≡◌, refl, ap, ◌∙◌, false, List, [], ◌∷◌, Option, none, some, length,
  arith, if_cases, ltb, leb, ◌==◌, max,
}
use gomoku.App.ReplayController.Cells.{Shows, reconstruct-Shows}
use gomoku.Prelude.Int.{ℤ, pos, negsuc}
use gomoku.App.ReplayController.{
  ReplayController, MoveRecord, Command, loads, seeks, speeds, starts, backs, forwards, ends,
  toggles, plays, pauses, ticks, obey, obeys, new_controller, reconstruct, show_moves, pause, clamp,
  seek_to_ply, load_match, loaded, jump_to_start, step_backward, step_forward, jump_to_end, play,
  toggle_play, set_playback_speed, on_play_timer_timeout, at_least_100,
}

-- A pace of 100 milliseconds or more.
abbrev pub Paced : ℤ → Type 0
Paced ms = (k : ℕ) × (ms ≡ pos k) × (100 ≤ k)

-- The board shows the moves up to the ply, which is one of the match, at such a pace.
pub record IsShown (r : ReplayController) : Type 0 where
  pub shown : Shows r.moves r.current_ply r.board_model
  pub within : r.current_ply ≤ length r.moves
  pub paced : Paced r.play_speed_ms

clamp_le : (ply : ℤ) (size : ℕ) → clamp ply size ≤ size
clamp_le (pos n) size = ground arith
clamp_le (negsuc n) size = omega arith

new_controller-IsShown : IsShown new_controller
unfolding new_controller reconstruct show_moves
new_controller-IsShown = record {
  shown = reconstruct-Shows [] 0 (omega arith);
  within = omega arith;
  paced = (1000, refl, omega arith);
}

pause-IsShown : (r : ReplayController) → IsShown r → IsShown (pause r)
unfolding pause
pause-IsShown r v =
    if_cases IsShown r.is_playing
      (λ e. record { shown = v.shown; within = v.within; paced = v.paced }) (λ e. v)

seek_to_ply-IsShown : (r : ReplayController) (ply : ℤ) → IsShown r → IsShown (seek_to_ply r ply)
unfolding seek_to_ply
seek_to_ply-IsShown r ply v =
    if_cases IsShown (r.current_ply == clamp ply (length r.moves)) (λ e. v)
      (λ e.
        let le = clamp_le ply (length r.moves) in
        record {
          shown = reconstruct-Shows r.moves (clamp ply (length r.moves)) le;
          within = le;
          paced = v.paced;
        })

at_least_100-Paced : (ms : ℤ) → Paced (at_least_100 ms)
at_least_100-Paced (pos n) = (max 100 n, refl, omega arith)
at_least_100-Paced (negsuc n) = (100, refl, omega arith)

play-IsShown : (r : ReplayController) → IsShown r → IsShown (play r)
unfolding play
play-IsShown r v =
    let ready =
      if_cases IsShown (leb (length r.moves) r.current_ply) (λ e. seek_to_ply-IsShown r (pos 0) v)
        (λ e. v) in
    record { shown = ready.shown; within = ready.within; paced = ready.paced }

forward-IsShown : (r : ReplayController) → IsShown r → IsShown (step_forward r)
unfolding step_forward
forward-IsShown r v =
    if_cases IsShown (ltb r.current_ply (length r.moves)) (λ e. seek_to_ply-IsShown r _ v)
      (λ e. pause-IsShown r v)

loaded-IsShown :
    (r : ReplayController) (id : ℤ) (found : Option (List MoveRecord))
    → IsShown r
    → IsShown (loaded r id found).0
unfolding loaded
loaded-IsShown r id none v = v
loaded-IsShown r id (some moves) v = record {
  shown = reconstruct-Shows moves 0 (omega arith);
  within = omega arith;
  paced = v.paced;
}

backward-IsShown : (r : ReplayController) → IsShown r → IsShown (step_backward r)
unfolding step_backward
backward-IsShown r v =
    let paused = pause-IsShown r v in
    if_cases IsShown (ltb 0 (pause r).current_ply) (λ e. seek_to_ply-IsShown (pause r) _ paused)
      (λ e. paused)

obey-IsShown :
    (database : ℤ → Option (List MoveRecord)) (r : ReplayController) (c : Command)
    → IsShown r
    → IsShown (obey database r c)
unfolding load_match jump_to_start jump_to_end toggle_play set_playback_speed on_play_timer_timeout
obey-IsShown database r (loads id) v = loaded-IsShown (pause r) id (database id) (pause-IsShown r v)
obey-IsShown database r (seeks ply) v = seek_to_ply-IsShown r ply v
obey-IsShown database r (speeds ms) v = record {
  shown = v.shown;
  within = v.within;
  paced = at_least_100-Paced ms;
}
obey-IsShown database r starts v = seek_to_ply-IsShown (pause r) _ (pause-IsShown r v)
obey-IsShown database r backs v = backward-IsShown r v
obey-IsShown database r forwards v = forward-IsShown r v
obey-IsShown database r ends v = seek_to_ply-IsShown (pause r) _ (pause-IsShown r v)
obey-IsShown database r toggles v =
    if_cases IsShown r.is_playing (λ e. pause-IsShown r v) (λ e. play-IsShown r v)
obey-IsShown database r plays v = play-IsShown r v
obey-IsShown database r pauses v = pause-IsShown r v
obey-IsShown database r ticks v =
    if_cases IsShown (ltb r.current_ply (length r.moves)) (λ e. seek_to_ply-IsShown r _ v)
      (λ e. pause-IsShown r v)

run-IsShown :
    (database : ℤ → Option (List MoveRecord)) (r : ReplayController) (cs : List Command)
    → IsShown r
    → IsShown (obeys database r cs)
run-IsShown database r [] v = v
run-IsShown database r (c ∷ cs) v =
    run-IsShown database (obey database r c) cs (obey-IsShown database r c v)

-- After any calls of the interface and the timer on a new controller, for whatever database: the
-- current ply is one of the match; each cell of the board has the stone of the last move at it up to
-- that ply, 1 for a move recorded as BLACK and 2 for one as WHITE, or none, and is marked as the latest
-- exactly if the move of that ply is at it; and the pace is 100 milliseconds or more.
pub obeys-IsShown :
    (database : ℤ → Option (List MoveRecord)) (cs : List Command)
    → IsShown (obeys database new_controller cs)
obeys-IsShown database cs = run-IsShown database new_controller cs new_controller-IsShown

abbrev pub tick : ℕ → ReplayController → ReplayController
tick zero r = r
tick (suc n) r = tick n (on_play_timer_timeout r)

ticked :
    (r : ReplayController)
    → r.current_ply < length r.moves
    → ((on_play_timer_timeout r).current_ply ≡ suc r.current_ply)
      × ((on_play_timer_timeout r).moves ≡ r.moves)
unfolding on_play_timer_timeout seek_to_ply
ticked r h = (ground (arith, h), ground (arith, h))

on_goes :
    (n : ℕ) (r : ReplayController)
    → suc n + r.current_ply ≡ length r.moves
    → n + (on_play_timer_timeout r).current_ply ≡ length (on_play_timer_timeout r).moves
on_goes n r e =
    let on = ticked r (omega (arith, e)) in
    omega (arith, e, on.0, ap (λ (ms : List MoveRecord). length ms) on.1)

-- From any ply of the match, the timer that fires once for each move that is left shows the last
-- ply, and the timer is off after one time more.
pub tick_ends :
    (n : ℕ) (r : ReplayController)
    → n + r.current_ply ≡ length r.moves
    → ((tick n r).current_ply ≡ length r.moves) × ((tick (suc n) r).is_playing ≡ false)
unfolding on_play_timer_timeout seek_to_ply pause
tick_ends zero r e = (omega (arith, e), ground (arith, e))
tick_ends (suc n) r e =
    let on = ticked r (omega (arith, e)) in
    let rest = tick_ends n (on_play_timer_timeout r) (on_goes n r e) in
    (rest.0 ∙ ap (λ (ms : List MoveRecord). length ms) on.1, rest.1)
