-- ===== src/App/ReplayController.antt =====
-- app/src/core/replay_controller.h and replay_controller.cpp. The database is a parameter that gives
-- the moves of a match; the timer is whether it is active, and its timeout is a call.
pub mod Cells
pub mod Shown
use gomoku.Prelude.{
  ℕ, zero, suc, ◌+◌, ◌-◌, Bool, true, false, ◌||◌, List, [], ◌∷◌, Option, none, some, ltb, leb,
  ◌==◌, if◌then◌else◌, length, max,
}
use gomoku.Prelude.Int.{ℤ, pos, negsuc, in_range}
use gomoku.Prelude.Text.{codes, ◌==T◌}
use gomoku.Plugin.State.{num_board_cells}
use gomoku.App.BoardViewModel.{BoardViewModel, clear_board, set_cell_by_action}

-- MoveRecord, the fields that the replay reads.
pub record MoveRecord : Type 0 where
  pub action_id : ℤ
  pub action_label : List ℕ
  pub seat : List ℕ
  pub stone_placed : List ℕ

pub record ReplayController : Type 0 where
  pub match_id : ℤ
  pub moves : List MoveRecord
  pub current_ply : ℕ
  pub play_speed_ms : ℤ
  pub is_playing : Bool
  pub board_model : BoardViewModel

pub new_controller : ReplayController
new_controller = record {
  match_id = pos 0;
  moves = [];
  current_ply = 0;
  play_speed_ms = pos 1000;
  is_playing = false;
  board_model = clear_board;
}

abbrev pub color_of : List ℕ → ℤ
color_of stone_placed =
    if stone_placed ==T codes "BLACK" || stone_placed ==T codes "1"
    then pos 1
    else if stone_placed ==T codes "WHITE" || stone_placed ==T codes "2"
    then pos 2
    else pos 0

-- The loop of ReconstructStateAtCurrentPly, with `left` rounds to go.
unfoldable pub show_moves : List MoveRecord → ℕ → ℕ → BoardViewModel → BoardViewModel
show_moves moves zero move_num board = board
show_moves [] (suc left) move_num board = board
show_moves (move ∷ moves) (suc left) move_num board =
    let shown =
      set_cell_by_action board move.action_id (color_of move.stone_placed) move_num (left == 0) in
    if in_range move.action_id num_board_cells
    then show_moves moves left (suc move_num) shown
    else show_moves moves left move_num board

unfoldable pub reconstruct : List MoveRecord → ℕ → BoardViewModel
reconstruct moves ply = show_moves moves ply 1 clear_board

unfoldable pub pause : ReplayController → ReplayController
pause r = if r.is_playing then record r { is_playing = false } else r

-- std::clamp from 0 to a size.
abbrev pub clamp : ℤ → ℕ → ℕ
clamp (negsuc n) size = 0
clamp (pos n) size = if ltb size n then size else n

unfoldable pub seek_to_ply : ReplayController → ℤ → ReplayController
seek_to_ply r ply =
    let target = clamp ply (length r.moves) in
    if r.current_ply == target
    then r
    else record r { current_ply = target; board_model = reconstruct r.moves target }

-- What the database answered.
unfoldable pub loaded : ReplayController → ℤ → Option (List MoveRecord) → ReplayController × Bool
loaded r id none = (r, false)
loaded r id (some moves) = (
  record r { match_id = id; moves = moves; current_ply = 0; board_model = reconstruct moves 0 },
  true,
)

unfoldable pub load_match :
    (ℤ → Option (List MoveRecord)) → ReplayController → ℤ → ReplayController × Bool
load_match database r id = loaded (pause r) id (database id)

unfoldable pub jump_to_start : ReplayController → ReplayController
jump_to_start r = seek_to_ply (pause r) (pos 0)

unfoldable pub step_backward : ReplayController → ReplayController
step_backward r =
    let paused = pause r in
    if ltb 0 paused.current_ply then seek_to_ply paused (pos (paused.current_ply - 1)) else paused

unfoldable pub step_forward : ReplayController → ReplayController
step_forward r =
    if ltb r.current_ply (length r.moves) then seek_to_ply r (pos (r.current_ply + 1)) else pause r

unfoldable pub jump_to_end : ReplayController → ReplayController
jump_to_end r = seek_to_ply (pause r) (pos (length (pause r).moves))

unfoldable pub play : ReplayController → ReplayController
play r =
    let ready = if leb (length r.moves) r.current_ply then seek_to_ply r (pos 0) else r in
    record ready { is_playing = true }

unfoldable pub toggle_play : ReplayController → ReplayController
toggle_play r = if r.is_playing then pause r else play r

abbrev pub at_least_100 : ℤ → ℤ
at_least_100 (negsuc n) = pos 100
at_least_100 (pos n) = pos (max 100 n)

unfoldable pub set_playback_speed : ReplayController → ℤ → ReplayController
set_playback_speed r ms = record r { play_speed_ms = at_least_100 ms }

unfoldable pub on_play_timer_timeout : ReplayController → ReplayController
on_play_timer_timeout r =
    if ltb r.current_ply (length r.moves) then seek_to_ply r (pos (r.current_ply + 1)) else pause r

-- The calls of the interface and of the timer.
pub data Command : Type 0 where
  loads seeks speeds : ℤ → Command
  starts backs forwards ends toggles plays pauses ticks : Command

abbrev pub obey : (ℤ → Option (List MoveRecord)) → ReplayController → Command → ReplayController
obey database r (loads id) = (load_match database r id).0
obey database r (seeks ply) = seek_to_ply r ply
obey database r (speeds ms) = set_playback_speed r ms
obey database r starts = jump_to_start r
obey database r backs = step_backward r
obey database r forwards = step_forward r
obey database r ends = jump_to_end r
obey database r toggles = toggle_play r
obey database r plays = play r
obey database r pauses = pause r
obey database r ticks = on_play_timer_timeout r

abbrev pub obeys :
    (ℤ → Option (List MoveRecord)) → ReplayController → List Command → ReplayController
obeys database r [] = r
obeys database r (c ∷ cs) = obeys database (obey database r c) cs
