-- ===== src/Engine/Board/Rules/Outcome.antt =====
-- How Apply decides a game.
use gomoku.Prelude.{
  Bool-cases, ◌⊎◌, inl, inr, ◌==◌, ℕ, ◌+◌, ◌/◌, ◌%◌, ◌<◌, ◌≡◌, ap, subst, ◌∙◌, ◌≢◌, true, arith,
  set, List,
}
use gomoku.Prelude.Int.{ℤ, pos, negsuc, pos-+ℤ}
use gomoku.Engine.Action.{num_cells}
use gomoku.Engine.Board.Play.{get_value_for_seat}
use gomoku.Engine.Board.{other_seat, Board, Player, Seat, Phase, Result, size}
use gomoku.Engine.Board.Win.{directions, check_win}
use gomoku.Engine.Board.Win.Exact.{Any, FiveAlong, check_win-Five}
use gomoku.Engine.Board.Rules.{apply, place, score, transition_phase}
use gomoku.Engine.Board.Rules.Valid.{IsValid, IsLegal, Stage, count_stones}
use gomoku.Engine.Board.Rules.Hash.{apply-sealed, perform-place, apply_over}

-- The result that seat `s` wants.
abbrev pub wins : Seat → Result
wins Seat.a = Result.player_a_win
wins Seat.b = Result.player_b_win

-- A stone of `p` at cell `i` is one of exactly five in a row.
abbrev pub MakesFive : List Player → Player → ℕ → Type 0
MakesFive cells p i = Any (FiveAlong (set cells i p) p (pos (i % size)) (pos (i / size))) directions

-- What the result is, by whether there is a line of five and how many stones lie.
abbrev pub Outcome : Type 0 → ℕ → Seat → Result → Type 0
Outcome Five n s r =
    (Five → r ≡ wins s)
    × (¬ Five → n ≡ num_cells → r ≡ Result.draw)
    × (¬ Five → n ≢ num_cells → r ≡ Result.undetermined)

place-Outcome :
    (board : Board) (i n : ℕ)
    → board.phase ≡ Phase.standard
    → board.move_count ≡ pos n
    → board.result ≡ Result.undetermined
    → Stage Phase.standard n board
    → let won =
        check_win
          (set board.cells i board.stone_to_place)
          board.stone_to_place
          (pos (i % size))
          (pos (i / size)) in
      Outcome (won ≡ true) (n + 1) board.current_player (place board i).result
unfolding place transition_phase score
place-Outcome board i n e c o s = (
  λ w. ground (arith, pos-+ℤ n 1),
  λ w f. ground (arith, pos-+ℤ n 1),
  λ w f. ground (arith, pos-+ℤ n 1),
)

-- A legal placement in standard play on a valid board: if it completes a line of exactly five, the
-- seat that moved has won; if not, the game is drawn when the board is full and goes on otherwise.
pub apply-Outcome :
    (rng : ℕ → ℕ) (board : Board) (i : ℕ)
    → IsValid board
    → IsLegal board (pos i)
    → board.phase ≡ Phase.standard
    → i < num_cells
    → Outcome
        (MakesFive board.cells board.stone_to_place i)
        (count_stones board.cells + 1)
        board.current_player
        (apply rng board (pos i)).result
apply-Outcome rng board i v l e inside =
    let n = count_stones board.cells in
    let five =
      check_win-Five (set board.cells i board.stone_to_place) board.stone_to_place (pos (i % size))
        (pos (i / size)) in
    let (won, drawn, on) =
      place-Outcome board i n e v.counted l.open_game (subst (λ ph. Stage ph n board) e v.stage) in
    let r : (apply rng board (pos i)).result ≡ (place board i).result =
      ap (λ (b : Board). b.result) (apply-sealed rng board (pos i) l.open_game)
      ∙ ap (λ (b : Board). b.result) (perform-place board i inside) in
    (
      λ f. r ∙ won (five.1 f),
      λ no full. r ∙ drawn (λ w. no (five.0 w)) full,
      λ no room. r ∙ on (λ w. no (five.0 w)) room,
    )

-- Once decided, a board does not change.
pub apply-decided :
    (rng : ℕ → ℕ) (board : Board) (id : ℤ)
    → board.result ≢ Result.undetermined
    → apply rng board id ≡ board
apply-decided rng board id over = apply_over rng board id (ground arith)

-- What a board is worth: 1 for a seat that has made five and -1 for the other one, and else 0 for both.
abbrev pub Worth : Type 0 → Seat → Board → Type 0
Worth Five mover board =
    (Five
      → (get_value_for_seat board mover ≡ pos 1)
        × (get_value_for_seat board (other_seat mover) ≡ negsuc 0))
    × (¬ Five → (seat : Seat) → get_value_for_seat board seat ≡ pos 0)

won_worth :
    (board : Board) (s : Seat)
    → board.result ≡ wins s
    → (get_value_for_seat board s ≡ pos 1) × (get_value_for_seat board (other_seat s) ≡ negsuc 0)
unfolding get_value_for_seat
won_worth board Seat.a e = ground (arith, e)
won_worth board Seat.b e = ground (arith, e)

nobody_worth :
    (board : Board) (seat : Seat)
    → (board.result ≡ Result.draw) ⊎ (board.result ≡ Result.undetermined)
    → get_value_for_seat board seat ≡ pos 0
unfolding get_value_for_seat
nobody_worth board seat e = ground arith

-- After a legal placement in standard play on a valid board, GetValueForSeat is 1 for the seat that
-- moved and -1 for the other one if the placement completes a line of exactly five, and 0 for both if
-- it does not.
pub get_value_for_seat-apply :
    (rng : ℕ → ℕ) (board : Board) (i : ℕ)
    → IsValid board
    → IsLegal board (pos i)
    → board.phase ≡ Phase.standard
    → i < num_cells
    → Worth
        (MakesFive board.cells board.stone_to_place i)
        board.current_player
        (apply rng board (pos i))
get_value_for_seat-apply rng board i v l e inside =
    let next = apply rng board (pos i) in
    let out = apply-Outcome rng board i v l e inside in
    (
      λ five. won_worth next board.current_player (out.0 five),
      λ none seat.
          nobody_worth next seat (elim (Bool-cases (count_stones board.cells + 1 == num_cells)) [
            | inl full ↦ inl (out.1 none (ground (arith, full)))
            | inr free ↦ inr (out.2 none (λ q. ground (arith, free, q)))
          ]),
    )
