-- ===== src/Engine/Board/Rules/Turn.antt =====
-- The seat to move after an action, without applying it; the value of a board for the two seats.
use gomoku.Prelude.{ℕ, ◌≡◌, refl, ap, ◌∙◌, arith}
use gomoku.Prelude.Int.{ℤ, pos, pos-+ℤ}
use gomoku.Engine.Board.{Board, Phase}
use gomoku.Engine.Board.Play.{get_child_current_player}
use gomoku.Engine.Board.Rules.{apply, perform, place, control, transition_phase}
use gomoku.Engine.Board.Rules.Valid.{IsValid, IsLegal, LegalIn, Stage, count_stones}
use gomoku.Engine.Board.Rules.Hash.{apply-sealed}

perform-child :
    (board : Board) (ph : Phase) (n : ℕ) (id : ℤ)
    → board.phase ≡ ph
    → board.move_count ≡ pos n
    → Stage ph n board
    → LegalIn ph board.cells id
    → (perform board id).current_player ≡ get_child_current_player board id
unfolding perform place control transition_phase get_child_current_player
perform-child board Phase.place_initial_three n id e c s l = ground (arith, pos-+ℤ n 1)
perform-child board Phase.swap2_decision n id e c s l = ground arith
perform-child board Phase.swap2_place_two n id e c s l = ground (arith, pos-+ℤ n 1)
perform-child board Phase.choose_color n id e c s l = ground arith
perform-child board Phase.standard n id e c s l = ground arith

-- On a valid board, GetChildCurrentPlayer of a legal action is the seat to move that Apply leaves.
pub get_child_current_player-apply :
    (rng : ℕ → ℕ) (board : Board) (id : ℤ)
    → IsValid board
    → IsLegal board id
    → (apply rng board id).current_player ≡ get_child_current_player board id
get_child_current_player-apply rng board id v l =
    ap (λ (b : Board). b.current_player) (apply-sealed rng board id l.open_game)
    ∙ perform-child board board.phase (count_stones board.cells) id refl v.counted v.stage l.allowed
