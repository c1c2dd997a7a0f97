-- ===== src/Plugin/Player.antt =====
-- plugin/include/plugin/player_interface.h: what players are told, and the interface of a player.
use gomoku.Prelude.{ℕ, List}
use gomoku.Prelude.Int.{ℤ}
use gomoku.Prelude.Text.{codes}
use gomoku.Plugin.Difficulty.{Difficulty}
use gomoku.Plugin.State.{BoardState, Seat, GameResult}

pub record MatchSettings : Type 0 where
  pub seat : Seat
  pub difficulty : Difficulty
  pub opponent_name : List ℕ
  pub custom_config_json : List ℕ

abbrev pub default_settings : MatchSettings
default_settings = record {
  seat = Seat.a;
  difficulty = Difficulty.veteran;
  opponent_name = codes "Opponent";
  custom_config_json = codes "{}";
}

pub record MatchResultInfo : Type 0 where
  pub result : GameResult
  pub winner_seat : Seat
  pub termination_reason : List ℕ

abbrev pub default_result : MatchResultInfo
default_result = record {
  result = GameResult.undetermined;
  winner_seat = Seat.a;
  termination_reason = codes "";
}

-- IPlayer: an object with a state of its own, which each call may change.
pub record Player : Type 1 where
  pub State : Type 0
  pub on_match_start : MatchSettings → State → State
  pub inquire_action : BoardState → State → ℤ × State
  pub apply_action : ℤ → State → State
  pub on_match_end : MatchResultInfo → State → State
  pub cancel_inquiry : State → State
  pub get_name : State → List ℕ
