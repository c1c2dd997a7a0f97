-- ===== src/Engine/Board.antt =====
-- engine/src/board.h and board.cpp: the board's state, its Zobrist keys and ToggleHash.
-- An `int` action id or coordinate is an integer; a 64-bit hash is the number of its bit pattern.
pub mod Win
pub mod Rules
pub mod Play
use Prim.Native.Nat.{bit_xor}
use gomoku.Prelude.{ℕ, ◌+◌, ◌*◌, Bool, List, ◌==◌, if◌then◌else◌, get_or, not}
use gomoku.Prelude.Int.{ℤ, pos_part}
use gomoku.Engine.Action.{is_placement}

pub data Player : Type 0 where
  none black white : Player

pub data Seat : Type 0 where
  a b : Seat

pub data Phase : Type 0 where
  place_initial_three swap2_decision swap2_place_two choose_color standard : Phase

pub data Result : Type 0 where
  undetermined player_a_win player_b_win draw : Result

-- The enumerators' values.
abbrev pub player_id : Player → ℕ
player_id Player.none = 0
player_id Player.black = 1
player_id Player.white = 2

abbrev pub seat_id : Seat → ℕ
seat_id Seat.a = 0
seat_id Seat.b = 1

abbrev pub phase_id : Phase → ℕ
phase_id Phase.place_initial_three = 0
phase_id Phase.swap2_decision = 1
phase_id Phase.swap2_place_two = 2
phase_id Phase.choose_color = 3
phase_id Phase.standard = 4

abbrev pub result_id : Result → ℕ
result_id Result.undetermined = 0
result_id Result.player_a_win = 1
result_id Result.player_b_win = 2
result_id Result.draw = 3

infix 50 ◌==P◌ ◌==S◌ ◌==Ph◌
abbrev pub ◌==P◌ : Player → Player → Bool
p ==P q = player_id p == player_id q

abbrev pub ◌==S◌ : Seat → Seat → Bool
s ==S t = seat_id s == seat_id t

abbrev pub ◌==Ph◌ : Phase → Phase → Bool
p ==Ph q = phase_id p == phase_id q

abbrev pub other_player : Player → Player
other_player p = if p ==P Player.black then Player.white else Player.black

abbrev pub other_seat : Seat → Seat
other_seat s = if s ==S Seat.a then Seat.b else Seat.a

abbrev pub is_determined : Result → Bool
is_determined r = not (result_id r == 0)

-- Board::kSize.
abbrev pub size : ℕ
size = 15

-- The two Zobrist hashes.
abbrev pub BoardSignature : Type 0
BoardSignature = ℕ × ℕ

pub record Board : Type 0 where
  pub cells : List Player
  pub phase : Phase
  pub current_player : Seat
  pub stone_to_place : Player
  pub move_count : ℤ
  pub seat_a_stone : Player
  pub seat_b_stone : Player
  pub result : Result
  pub zobrists : BoardSignature

-- for (hash = 0; hash < kNumBoardHashes; ++hash) sig[hash] ^= key(hash)
abbrev pub xor_each : (ℕ → ℕ) → BoardSignature → BoardSignature
xor_each key (s₀, s₁) = (bit_xor s₀ (key 0), bit_xor s₁ (key 1))

-- What `rng()` gives at its n-th call, from the seed, is `rng n`. The constructor of ZobristKeys
-- draws 695 keys for each hash, in the order of the offsets below.
module _ (rng : ℕ → ℕ) where
  abbrev pub cell_key : ℕ → ℕ → Player → ℕ
  cell_key hash i p = rng (hash * 695 + (i * 3 + player_id p))

  abbrev pub phase_key : Phase → ℕ → ℕ
  phase_key p hash = rng (hash * 695 + (675 + phase_id p))

  abbrev pub player_key : Seat → ℕ → ℕ
  player_key s hash = rng (hash * 695 + (680 + seat_id s))

  abbrev pub stone_to_place_key : Player → ℕ → ℕ
  stone_to_place_key p hash = rng (hash * 695 + (682 + player_id p * 3))

  abbrev pub seat_a_key : Player → ℕ → ℕ
  seat_a_key p hash = rng (hash * 695 + (683 + player_id p * 3))

  abbrev pub seat_b_key : Player → ℕ → ℕ
  seat_b_key p hash = rng (hash * 695 + (684 + player_id p * 3))

  abbrev pub result_key : Result → ℕ → ℕ
  result_key r hash = rng (hash * 695 + (691 + result_id r))

  abbrev pub xor_cell : BoardSignature → ℕ → Player → BoardSignature
  xor_cell sig i p = xor_each (λ hash. cell_key hash i p) sig

  -- The signature that ToggleHash leaves.
  pub toggled : Board → ℤ → BoardSignature
  toggled board id =
      let cell =
        if is_placement id
        then xor_cell zobrists (pos_part id) (get_or cells (pos_part id) Player.none)
        else zobrists in
      xor_each (result_key result) (
        xor_each (seat_b_key seat_b_stone) (
          xor_each (seat_a_key seat_a_stone) (
            xor_each (stone_to_place_key stone_to_place)
              (xor_each (player_key current_player) (xor_each (phase_key phase) cell)))))
    where
      open board use {
        cells, phase, current_player, stone_to_place, seat_a_stone, seat_b_stone, result, zobrists,
      }

  pub toggle_hash : Board → ℤ → Board
  toggle_hash board id = record board { zobrists = toggled board id }
