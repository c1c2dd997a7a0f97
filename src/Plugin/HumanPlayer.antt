-- ===== src/Plugin/HumanPlayer.antt =====
-- plugin/include/plugin/human_player.h and plugin/src/human_player.cpp. Each call holds the mutex,
-- so a call is one step; InquireAction is two, since its wait lets the mutex go. The thread that
-- waits tests its condition when it was notified; that it may also do so without is left out.
pub mod Inquiry
use gomoku.Prelude.{
  Bool, true, false, ◌||◌, ◌&&◌, not, List, [], ◌∷◌, Option, none, some, if◌then◌else◌,
}
use gomoku.Prelude.Int.{ℤ, pos, negsuc}
use gomoku.Plugin.State.{BoardState, new_state}
use gomoku.Plugin.Player.{MatchSettings, MatchResultInfo, default_settings}

pub record HumanPlayer : Type 0 where
  pub settings : MatchSettings
  pub waiting_for_action : Bool
  pub cancelled : Bool
  pub submitted_action : ℤ
  pub current_board : BoardState

pub new_player : HumanPlayer
new_player = record {
  settings = default_settings;
  waiting_for_action = false;
  cancelled = false;
  submitted_action = negsuc 0;
  current_board = new_state;
}

pub on_match_start : HumanPlayer → MatchSettings → HumanPlayer
on_match_start h settings = record h {
  settings = settings;
  waiting_for_action = false;
  cancelled = false;
  submitted_action = negsuc 0;
}

-- InquireAction up to its wait.
pub begin_inquiry : HumanPlayer → BoardState → HumanPlayer
begin_inquiry h board = record h {
  current_board = board;
  waiting_for_action = true;
  cancelled = false;
  submitted_action = negsuc 0;
}

abbrev is_nonnegative : ℤ → Bool
is_nonnegative (pos n) = true
is_nonnegative (negsuc n) = false

-- The test of the wait.
abbrev pub may_wake : HumanPlayer → Bool
may_wake h = not h.waiting_for_action || h.cancelled || is_nonnegative h.submitted_action

-- InquireAction from its wait on, by whether it was notified: `none` while it waits.
pub wake : Bool → HumanPlayer → Option (ℤ × HumanPlayer)
wake notified h =
    if notified && may_wake h
    then if h.cancelled
      then some (negsuc 0, record h { waiting_for_action = false })
      else some
          (h.submitted_action, record h { waiting_for_action = false; submitted_action = negsuc 0 })
    else none

pub cancel_inquiry : HumanPlayer → HumanPlayer
cancel_inquiry h = record h { cancelled = true; waiting_for_action = false }

pub on_match_end : HumanPlayer → MatchResultInfo → HumanPlayer
unfolding cancel_inquiry
on_match_end h info = cancel_inquiry h

pub submit_action : HumanPlayer → ℤ → HumanPlayer × Bool
submit_action h action_id =
    if not h.waiting_for_action || h.cancelled
    then (h, false)
    else (record h { submitted_action = action_id; waiting_for_action = false }, true)

abbrev pub is_waiting_for_action : HumanPlayer → Bool
is_waiting_for_action h = h.waiting_for_action

-- The calls that other threads make while InquireAction waits.
pub data Call : Type 0 where
  starts : MatchSettings → Call
  submits : ℤ → Call
  cancels : Call
  ends : MatchResultInfo → Call

-- A call, and whether it notifies: OnMatchStart and a submission that is refused do not.
abbrev pub call : HumanPlayer → Call → HumanPlayer × Bool
call h (starts settings) = (on_match_start h settings, false)
call h (submits action_id) = submit_action h action_id
call h cancels = (cancel_inquiry h, true)
call h (ends info) = (on_match_end h info, true)

-- Calls, and whether one has notified, those before included.
abbrev pub run : Bool → HumanPlayer → List Call → Bool × HumanPlayer
run notified h [] = (notified, h)
run notified h (c ∷ cs) = let (next, told) = call h c in run (notified || told) next cs
