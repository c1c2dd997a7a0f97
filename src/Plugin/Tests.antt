-- ===== src/Plugin/Tests.antt =====
-- Boards, players and matches on which the theorems about the plugins' side are applied.
use gomoku.Prelude.{ℕ, ◌+◌, ◌≤◌, ◌≡◌, ◌↔◌, refl, true, false, List, [], ◌∷◌, none, some, map}
use gomoku.Prelude.Int.{contains, ℤ, pos, negsuc}
use gomoku.Prelude.Text.{codes, to_lower}
use gomoku.Plugin.Difficulty.{
  Difficulty, difficulty_to_string, difficulty_from_string, difficulty_from_string_iff,
}
use gomoku.Plugin.State.{
  BoardState, Seat, new_state, is_legal_action, get_legal_actions, num_board_cells,
}
use gomoku.Plugin.State.Apply.{apply_action}
use gomoku.Plugin.State.Legal.{contains-get_legal_actions}
use gomoku.Plugin.State.Progress.{
  Advances, actions, new_state-IsSound, apply_action-Advances, apply_action_iff,
}
use gomoku.Plugin.Player.{Player, default_result}
use gomoku.Plugin.HumanPlayer.{new_player, submits, run, begin_inquiry}
use gomoku.Plugin.HumanPlayer.Inquiry.{answered, inquire_action_answer}
use gomoku.Plugin.MatchCoordinator.{
  MatchCoordinator, step, play_match, abort_match, get_current_player,
}
use gomoku.Plugin.MatchCoordinator.Verdict.{IsRunning, Turn, Ends, step-Turn, play_match-Ends}
use gomoku.Plugin.MatchCoordinator.Sync.{IsFollower, Synced, play_match-Synced}
use gomoku.Plugin.MatchCoordinator.Abort.{IsAborted, abort_match-final}

contains-get_legal_actions_example :
    contains (get_legal_actions new_state) (pos 112) ≡ is_legal_action new_state (pos 112)
contains-get_legal_actions_example = contains-get_legal_actions new_state (pos 112)

centre_legal : is_legal_action new_state (pos 112) ≡ true
unfolding is_legal_action new_state
centre_legal = refl

apply_action-Advances_example :
    Advances new_state (apply_action new_state (pos 112))
    × (actions (apply_action new_state (pos 112)) ≤ num_board_cells + 2)
apply_action-Advances_example =
    apply_action-Advances new_state (pos 112) new_state-IsSound centre_legal

apply_action_iff_example :
    (apply_action new_state (pos 112) ≡ new_state) ↔ (is_legal_action new_state (pos 112) ≡ false)
apply_action_iff_example = apply_action_iff new_state (pos 112) new_state-IsSound

difficulty_from_string_iff_example :
    (difficulty_from_string (codes "cLUB") ≡ some Difficulty.club)
    ↔ (map to_lower (codes "cLUB") ≡ map to_lower (difficulty_to_string Difficulty.club))
difficulty_from_string_iff_example = difficulty_from_string_iff (codes "cLUB") Difficulty.club

inquire_action_answer_example :
    answered
      (run false (begin_inquiry new_player new_state) (submits (pos 7) ∷ submits (pos 8) ∷ []))
    ≡ some (pos 7)
inquire_action_answer_example =
    inquire_action_answer new_player new_state (submits (pos 7) ∷ submits (pos 8) ∷ [])

-- A player that follows the board and answers from a script.
abbrev Script : Type 0
Script = BoardState × List ℤ

abbrev next_answer : Script → ℤ × Script
next_answer (s, []) = (negsuc 0, (s, []))
next_answer (s, (id ∷ ids)) = (id, (s, ids))

abbrev Scripted : Player
Scripted = record {
  State = Script;
  on_match_start = λ settings p. (new_state, p.1);
  inquire_action = λ board p. next_answer p;
  apply_action = λ id p. (apply_action p.0 id, p.1);
  on_match_end = λ info p. p;
  cancel_inquiry = λ p. p;
  get_name = λ p. codes "script";
}

abbrev seen : Script → BoardState
seen p = p.0

seen-next_answer : (p : Script) → seen (next_answer p).1 ≡ seen p
seen-next_answer (s, []) = refl
seen-next_answer (s, (id ∷ ids)) = refl

Scripted-IsFollower : IsFollower Scripted seen
Scripted-IsFollower = record {
  starts = λ settings p. refl;
  inquired = λ board p. seen-next_answer p;
  applies = λ id p. refl;
  ends = λ info p. refl;
}

-- The callback counts the actions.
abbrev count_up : BoardState → ℤ → Seat → ℕ → ℕ
count_up board id seat n = n + 1

abbrev opener : Script
opener = (new_state, pos 0 ∷ pos 1 ∷ pos 2 ∷ [])

abbrev chooser : Script
chooser = (new_state, pos 226 ∷ [])

abbrev in_play : MatchCoordinator Scripted Scripted
in_play = record {
  player_a = some opener;
  player_b = some chooser;
  board = new_state;
  finished = false;
  result_info = default_result;
}

in_play-IsRunning : IsRunning Scripted Scripted in_play
unfolding new_state
in_play-IsRunning = record {
  going = refl;
  here_a = refl;
  here_b = refl;
  sound = new_state-IsSound;
  undecided = refl;
}

step-Turn_example :
    Turn Scripted Scripted in_play
      (step Scripted Scripted ℕ count_up in_play 0).0
      (pos 0)
      (step Scripted Scripted ℕ count_up in_play 0).2
unfolding new_state
step-Turn_example =
    step-Turn Scripted Scripted count_up in_play 0 opener chooser refl refl in_play-IsRunning

play_match-Ends_example : Ends Scripted Scripted count_up (
    play_match Scripted Scripted ℕ count_up
      (some opener)
      (some chooser)
      Difficulty.club
      Difficulty.truth
      0)
play_match-Ends_example =
    play_match-Ends Scripted Scripted count_up opener chooser Difficulty.club Difficulty.truth 0

play_match-Synced_example :
    Synced Scripted Scripted seen seen count_up Scripted-IsFollower Scripted-IsFollower (
      play_match Scripted Scripted ℕ count_up
        (some opener)
        (some chooser)
        Difficulty.club
        Difficulty.truth
        0)
play_match-Synced_example =
    play_match-Synced Scripted Scripted seen seen count_up Scripted-IsFollower Scripted-IsFollower
      opener chooser Difficulty.club Difficulty.truth 0

abort_match-final_example :
    IsAborted Scripted Scripted
      (abort_match Scripted Scripted in_play (codes "left"))
      (codes "left")
    × ((abort_match Scripted Scripted in_play (codes "left")).board ≡ new_state)
    × (abort_match Scripted Scripted
          (abort_match Scripted Scripted in_play (codes "left"))
          (codes "x")
        ≡ abort_match Scripted Scripted in_play (codes "left"))
    × (step Scripted Scripted ℕ count_up (abort_match Scripted Scripted in_play (codes "left")) 0
        ≡ (abort_match Scripted Scripted in_play (codes "left"), 0, false))
    × (get_current_player Scripted Scripted (abort_match Scripted Scripted in_play (codes "left"))
        ≡ none)
abort_match-final_example =
    abort_match-final Scripted Scripted count_up in_play (codes "left") (codes "x") 0 refl
