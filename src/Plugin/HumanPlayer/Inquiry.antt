-- ===== src/Plugin/HumanPlayer/Inquiry.antt =====
-- What InquireAction answers, whatever the other threads do while it waits.
use gomoku.Prelude.{
  Bool, true, false, ◌≡◌, refl, ap, ◌∙◌, List, [], ◌∷◌, Option, none, some, arith, if◌then◌else◌,
}
use mathlib.Core.Option
use gomoku.Prelude.Int.{ℤ, negsuc}
use gomoku.Plugin.State.{BoardState}
use gomoku.Plugin.HumanPlayer.{
  HumanPlayer, Call, starts, submits, cancels, ends, run, wake, begin_inquiry, submit_action,
  cancel_inquiry, on_match_start, on_match_end,
}

-- Only submissions.
abbrev pub quiet : List Call → Bool
quiet [] = true
quiet (submits k ∷ cs) = quiet cs
quiet (c ∷ cs) = false

-- Whether one of the calls cancels, or ends the match.
abbrev pub stops : List Call → Bool
stops [] = false
stops (cancels ∷ cs) = true
stops (ends info ∷ cs) = true
stops (c ∷ cs) = stops cs

-- The answer: none before the first call; the submission if that comes first and nothing but
-- submissions follows; none after a start, until a call cancels or ends; and -1 otherwise.
abbrev pub answer : List Call → Option ℤ
answer [] = none
answer (submits k ∷ cs) = some (if quiet cs then k else negsuc 0)
answer (starts s ∷ cs) = if stops cs then some (negsuc 0) else none
answer (cancels ∷ cs) = some (negsuc 0)
answer (ends info ∷ cs) = some (negsuc 0)

abbrev pub answered : Bool × HumanPlayer → Option ℤ
answered (notified, h) = Option.map (λ (r : ℤ × HumanPlayer). r.0) (wake notified h)

-- A player whose inquiry is decided: it is not waiting for an action any more.
run_decided :
    (h : HumanPlayer) (cs : List Call)
    → h.waiting_for_action ≡ false
    → answered (run true h cs)
      ≡ some (if quiet cs then (if h.cancelled then negsuc 0 else h.submitted_action) else negsuc 0)
unfolding wake submit_action cancel_inquiry on_match_start on_match_end
run_decided h [] w = ground arith
run_decided h (submits k ∷ cs) w =
    let same : (submit_action h k).0 ≡ h = ground arith in
    ap (λ (g : HumanPlayer). answered (run true g cs)) same ∙ run_decided h cs w
run_decided h (starts s ∷ cs) w = ground (arith, run_decided (on_match_start h s) cs refl)
run_decided h (cancels ∷ cs) w = ground (arith, run_decided (cancel_inquiry h) cs refl)
run_decided h (ends i ∷ cs) w = ground (arith, run_decided (on_match_end h i) cs refl)

-- A player that a start has reset: nobody is told before a call cancels or ends.
run_reset :
    (h : HumanPlayer) (cs : List Call)
    → h.waiting_for_action ≡ false
    → answered (run false h cs) ≡ (if stops cs then some (negsuc 0) else none)
unfolding wake submit_action cancel_inquiry on_match_start on_match_end
run_reset h [] w = refl
run_reset h (submits k ∷ cs) w =
    let same : submit_action h k ≡ (h, false) = ground arith in
    ap (λ (g : HumanPlayer × Bool). answered (run g.1 g.0 cs)) same ∙ run_reset h cs w
run_reset h (starts s ∷ cs) w = run_reset (on_match_start h s) cs refl
run_reset h (cancels ∷ cs) w = run_decided (cancel_inquiry h) cs refl ∙ ground arith
run_reset h (ends i ∷ cs) w = run_decided (on_match_end h i) cs refl ∙ ground arith

-- What InquireAction returns, for every sequence of calls that other threads make while it waits, if
-- it tests its condition only when it was notified: it goes on waiting as long as there is none; the
-- first submission if it comes first and only further submissions follow before the thread wakes;
-- after a start that comes first, it waits until a call cancels or ends the match; and it returns -1
-- in every other case.
pub inquire_action_answer :
    (h : HumanPlayer) (board : BoardState) (cs : List Call)
    → answered (run false (begin_inquiry h board) cs) ≡ answer cs
unfolding wake submit_action cancel_inquiry on_match_start on_match_end begin_inquiry
inquire_action_answer h board [] = refl
inquire_action_answer h board (submits k ∷ cs) =
    run_decided (submit_action (begin_inquiry h board) k).0 cs refl
inquire_action_answer h board (starts s ∷ cs) =
    run_reset (on_match_start (begin_inquiry h board) s) cs refl
inquire_action_answer h board (cancels ∷ cs) =
    ground (arith, run_decided (cancel_inquiry (begin_inquiry h board)) cs refl)
inquire_action_answer h board (ends i ∷ cs) =
    ground (arith, run_decided (on_match_end (begin_inquiry h board) i) cs refl)
