-- ===== src/App/Tests.antt =====
-- A match on which the theorems about the replay are applied.
use gomoku.Prelude.{ℕ, ◌≡◌, refl, true, false, List, [], ◌∷◌, Option, some}
use gomoku.Prelude.Int.{ℤ, pos}
use gomoku.Prelude.Text.{codes}
use gomoku.App.ReplayController.{
  ReplayController, MoveRecord, loads, ticks, plays, backs, seeks, obeys, new_controller,
  reconstruct,
}
use gomoku.App.ReplayController.Shown.{IsShown, obeys-IsShown, tick, tick_ends}
use gomoku.App.BoardViewModel.{clear_board}
use gomoku.App.BoardViewModel.Tidy.{IsTidy, Change, ghosts, wins, changes, changes-IsTidy}

abbrev move_of : ℤ → List ℕ → MoveRecord
move_of id stone = record {
  action_id = id;
  action_label = [];
  seat = codes "A";
  stone_placed = stone;
}

abbrev three_moves : List MoveRecord
three_moves =
    move_of (pos 112) (codes "BLACK")
    ∷ move_of (pos 226) (codes "NONE")
    ∷ move_of (pos 113) (codes "WHITE")
    ∷ []

abbrev one_match : ℤ → Option (List MoveRecord)
one_match id = some three_moves

obeys-IsShown_example : IsShown (
    obeys one_match new_controller
      (loads (pos 4) ∷ plays ∷ ticks ∷ ticks ∷ backs ∷ seeks (pos 9) ∷ []))
obeys-IsShown_example =
    obeys-IsShown one_match (loads (pos 4) ∷ plays ∷ ticks ∷ ticks ∷ backs ∷ seeks (pos 9) ∷ [])

abbrev playing : ReplayController
playing = record {
  match_id = pos 4;
  moves = three_moves;
  current_ply = 1;
  play_speed_ms = pos 500;
  is_playing = true;
  board_model = reconstruct three_moves 1;
}

tick_ends_example : ((tick 2 playing).current_ply ≡ 3) × ((tick 3 playing).is_playing ≡ false)
tick_ends_example = tick_ends 2 playing refl

changes-IsTidy_example : IsTidy (
    changes clear_board (
      ghosts (pos 7) (pos 7) (pos 1)
      ∷ Change.plays (pos 112) (pos 1) 1 true
      ∷ Change.plays (pos 113) (pos 2) 2 true
      ∷ wins (pos 112 ∷ [])
      ∷ []))
changes-IsTidy_example = changes-IsTidy (
    ghosts (pos 7) (pos 7) (pos 1)
    ∷ Change.plays (pos 112) (pos 1) 1 true
    ∷ Change.plays (pos 113) (pos 2) 2 true
    ∷ wins (pos 112 ∷ [])
    ∷ [])
