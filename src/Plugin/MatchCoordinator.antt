-- ===== src/Plugin/MatchCoordinator.antt =====
-- plugin/include/plugin/match_coordinator.h and plugin/src/match_coordinator.cpp. The players are
-- two objects behind the interface of a player, each with its own state; a pointer to one is null
-- or holds that state. The callback acts on a world of its own, and is the identity where the
-- source has none.
pub mod Verdict
pub mod Sync
pub mod Abort
use gomoku.Prelude.{
  ℕ, zero, suc, Bool, true, false, ◌||◌, not, Option, none, some, List, if◌then◌else◌,
}
use mathlib.Core.Option
use gomoku.Prelude.Int.{ℤ}
use gomoku.Prelude.Text.{codes}
use gomoku.Plugin.Difficulty.{Difficulty}
use gomoku.Plugin.State.{
  BoardState, Seat, GameResult, new_state, is_legal_action, is_terminal, other_seat,
}
use gomoku.Plugin.State.Apply.{apply_action, win_of}
use gomoku.Plugin.Player.{Player, MatchSettings, MatchResultInfo, default_settings, default_result}

pub record MatchCoordinator (A B : Player) : Type 0 where
  pub player_a : Option (Player.State A)
  pub player_b : Option (Player.State B)
  pub board : BoardState
  pub finished : Bool
  pub result_info : MatchResultInfo

-- The three ways in which a board in play ends a match.
abbrev pub outcome : MatchResultInfo → GameResult → MatchResultInfo
outcome info GameResult.player_a_win = record info {
  result = GameResult.player_a_win;
  winner_seat = Seat.a;
  termination_reason = codes "five_in_a_row";
}
outcome info GameResult.player_b_win = record info {
  result = GameResult.player_b_win;
  winner_seat = Seat.b;
  termination_reason = codes "five_in_a_row";
}
outcome info r = record info { result = r; termination_reason = codes "draw" }

-- The result when the player at a seat answers an illegal action.
abbrev pub forfeit : Seat → MatchResultInfo
forfeit seat = record {
  result = win_of (other_seat seat);
  winner_seat = other_seat seat;
  termination_reason = codes "illegal_action";
}

abbrev pub is_null {ℓ} : {A : Type ℓ} → Option A → Bool
is_null none = true
is_null (some a) = false

module _ (A B : Player) where
  pub new_coordinator : MatchCoordinator A B
  new_coordinator = record {
    player_a = none;
    player_b = none;
    board = new_state;
    finished = true;
    result_info = default_result;
  }

  unfoldable pub get_current_player : MatchCoordinator A B → Option Seat
  get_current_player c =
      if c.finished || is_null c.player_a || is_null c.player_b
      then none
      else some c.board.current_seat

  abbrev pub settings_for : Seat → Difficulty → List ℕ → MatchSettings
  settings_for seat difficulty opponent_name = record default_settings {
    seat = seat;
    difficulty = difficulty;
    opponent_name = opponent_name;
  }

  -- `none` is the exception.
  unfoldable pub start_match :
      Option (Player.State A)
      → Option (Player.State B)
      → Difficulty
      → Difficulty
      → Option (MatchCoordinator A B)
  start_match (some a) (some b) diff_a diff_b = some (record {
    player_a = some (Player.on_match_start A (settings_for Seat.a diff_a (Player.get_name B b)) a);
    player_b = some (Player.on_match_start B (settings_for Seat.b diff_b (Player.get_name A a)) b);
    board = new_state;
    finished = false;
    result_info = default_result;
  })
  start_match player_a player_b diff_a diff_b = none

  -- OnMatchEnd of both players.
  abbrev pub end_match :
      MatchCoordinator A B
      → Player.State A
      → Player.State B
      → MatchResultInfo
      → MatchCoordinator A B
  end_match c a b info = record c {
    player_a = some (Player.on_match_end A info a);
    player_b = some (Player.on_match_end B info b);
    finished = true;
    result_info = info;
  }

  -- InquireAction of the player whose turn it is.
  abbrev pub inquire :
      BoardState → Seat → Player.State A → Player.State B → ℤ × Player.State A × Player.State B
  inquire board Seat.a a b =
      let (action, next) = Player.inquire_action A board a in (action, next, b)
  inquire board Seat.b a b =
      let (action, next) = Player.inquire_action B board b in (action, a, next)

  unfoldable pub abort_match : MatchCoordinator A B → List ℕ → MatchCoordinator A B
  abort_match c reason =
      if c.finished
      then c
      else let info = record c.result_info {
        result = GameResult.undetermined;
        termination_reason = reason;
      } in
        record c {
          finished = true;
          result_info = info;
          player_a =
              Option.map
                (λ (a : Player.State A). Player.on_match_end A info (Player.cancel_inquiry A a))
                c.player_a;
          player_b =
              Option.map
                (λ (b : Player.State B). Player.on_match_end B info (Player.cancel_inquiry B b))
                c.player_b;
        }

  module _ (World : Type 0) (step_callback : BoardState → ℤ → Seat → World → World) where
    -- Step, once the player has answered.
    unfoldable pub answer :
        MatchCoordinator A B
        → World
        → ℤ
        → Player.State A
        → Player.State B
        → MatchCoordinator A B × World × Bool
    answer c w action a b =
        if not (is_legal_action c.board action)
        then (end_match c a b (forfeit c.board.current_seat), w, false)
        else let board = apply_action c.board action in
          let a = Player.apply_action A action a in
          let b = Player.apply_action B action b in
          let w = step_callback board action c.board.current_seat w in
          if is_terminal board
          then (
            end_match (record c { board = board }) a b (outcome c.result_info board.result),
            w,
            true,
          )
          else (record c { board = board; player_a = some a; player_b = some b }, w, true)

    unfoldable pub step_with :
        MatchCoordinator A B
        → World
        → Option (Player.State A)
        → Option (Player.State B)
        → MatchCoordinator A B × World × Bool
    step_with c w (some a) (some b) =
        if c.finished
        then (c, w, false)
        else let (action, a, b) = inquire c.board c.board.current_seat a b in answer c w action a b
    step_with c w player_a player_b = (c, w, false)

    unfoldable pub step : MatchCoordinator A B → World → MatchCoordinator A B × World × Bool
    step c w = step_with c w c.player_a c.player_b

    -- The loop of PlayMatch, on fuel.
    unfoldable pub rounds : ℕ → MatchCoordinator A B → World → MatchCoordinator A B × World
    rounds zero c w = (c, w)
    rounds (suc fuel) c w =
        let next = step c w in
        let rest = rounds fuel next.0 next.1 in
        if c.finished then (c, w) else if next.2 then rest else (next.0, next.1)

    -- The bound of the fuel: 225 stones, two choices of Swap2, one illegal answer.
    unfoldable pub play_match :
        Option (Player.State A)
        → Option (Player.State B)
        → Difficulty
        → Difficulty
        → World
        → Option (MatchCoordinator A B × World)
    play_match player_a player_b diff_a diff_b w =
        Option.map (λ (c : MatchCoordinator A B). rounds 228 c w)
          (start_match player_a player_b diff_a diff_b)
