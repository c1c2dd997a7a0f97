-- ===== src/Engine/Board/Rules/Shape.antt =====
-- The valid boards written out: each is one of five records, in which Apply and Retract compute.
use gomoku.Prelude.{
  ◌≢◌, ℕ, ◌%◌, ◌≤◌, ◌<◌, ◌≡◌, refl, inl, inr, Bool, true, false, List, ◌==◌, if◌then◌else◌, arith,
}
use gomoku.Prelude.Int.{pos}
use gomoku.Engine.Board.{Board, BoardSignature, Player, Seat, Phase, Result, black, white}
use gomoku.Engine.Board.Rules.Valid.{IsValid, Stage, count_stones, turn}

module _ (cells : List Player) (sig : BoardSignature) where
  -- Before the colours are chosen: `n` stones, of which the next is `p`.
  abbrev pub opening : Phase → Seat → Player → ℕ → Board
  opening ph s p n = record {
    cells = cells;
    phase = ph;
    current_player = s;
    stone_to_place = p;
    move_count = pos n;
    seat_a_stone = Player.none;
    seat_b_stone = Player.none;
    result = Result.undetermined;
    zobrists = sig;
  }

  -- Standard play: does seat A have black, and is it white's turn?
  abbrev pub playing : Bool → Bool → ℕ → Result → Board
  playing a_black to_white n r = record {
    cells = cells;
    phase = Phase.standard;
    current_player =
        if a_black
        then if to_white then Seat.b else Seat.a
        else if to_white
        then Seat.a
        else Seat.b;
    stone_to_place = if to_white then white else black;
    move_count = pos n;
    seat_a_stone = if a_black then black else white;
    seat_b_stone = if a_black then white else black;
    result = r;
    zobrists = sig;
  }

-- The parameters that vary with the stones.
pub data Shape : Type 0 where
  initial : ℕ → Shape
  deciding : Shape
  placing_two : ℕ → Shape
  choosing : Shape
  playing_on : Bool → Bool → ℕ → Result → Shape

abbrev pub shaped : List Player → BoardSignature → Shape → Board
shaped cells sig (initial n) = opening cells sig Phase.place_initial_three Seat.a (turn n) n
shaped cells sig deciding = opening cells sig Phase.swap2_decision Seat.b Player.none 3
shaped cells sig (placing_two n) = opening cells sig Phase.swap2_place_two Seat.b (turn n) n
shaped cells sig choosing = opening cells sig Phase.choose_color Seat.a Player.none 5
shaped cells sig (playing_on a_black to_white n r) = playing cells sig a_black to_white n r

abbrev pub Fits : ℕ → Shape → Type 0
Fits k (initial n) = (n ≡ k) × (n < 3)
Fits k deciding = 3 ≡ k
Fits k (placing_two n) = (n ≡ k) × (3 ≤ n) × (n < 5)
Fits k choosing = 5 ≡ k
Fits k (playing_on a_black to_white n r) =
    (n ≡ k) × (3 ≤ n) × ((n % 2 == 1) ≡ to_white) × (r ≡ Result.undetermined → n < 225)

abbrev Shaped : Board → Type 0
Shaped board =
    (s : Shape) × (board ≡ shaped board.cells board.zobrists s) × Fits (count_stones board.cells) s

Stage-Shaped :
    (board : Board) (ph : Phase) (n : ℕ)
    → board.phase ≡ ph
    → board.move_count ≡ pos n
    → n ≡ count_stones board.cells
    → Stage ph n board
    → Shaped board
Stage-Shaped board Phase.place_initial_three n e c k s = (initial n, ground arith, (k, s.0))
Stage-Shaped board Phase.swap2_decision n e c k s = (deciding, ground arith, ground arith)
Stage-Shaped board Phase.swap2_place_two n e c k s = (placing_two n, ground arith, (k, s.0, s.1))
Stage-Shaped board Phase.choose_color n e c k s = (choosing, ground arith, ground arith)
Stage-Shaped board Phase.standard n e c k (few, st, inl ab, hold, room) =
    (playing_on true (n % 2 == 1) n board.result, ground arith, (k, few, refl, room))
Stage-Shaped board Phase.standard n e c k (few, st, inr ba, hold, room) =
    (playing_on false (n % 2 == 1) n board.result, ground arith, (k, few, refl, room))

pub IsValid-Shaped : (board : Board) → IsValid board → Shaped board
IsValid-Shaped board v =
    Stage-Shaped board board.phase (count_stones board.cells) refl v.counted refl v.stage

pub turn-stone : (n : ℕ) → turn n ≢ Player.none
turn-stone n e = ground arith
