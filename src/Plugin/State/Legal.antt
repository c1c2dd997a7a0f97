-- ===== src/Plugin/State/Legal.antt =====
-- GetLegalActions and IsLegalAction agree.
use gomoku.Prelude.{ℕ, zero, suc, ◌+◌, ◌≡◌, refl, ◌∙◌, false, ◌&&◌, List, arith, get_or, ltb, leb}
use gomoku.Prelude.Int.{contains, ℤ, pos, negsuc}
use gomoku.Plugin.State.{
  BoardState, Stone, GamePhase, ◌==St◌, empty_cells, get_legal_actions, is_legal_action, may_place,
  num_board_cells,
}

contains-empty_cells :
    (cells : List Stone) (left i j : ℕ)
    → contains (empty_cells cells left i) (pos j)
      ≡ (leb i j && ltb j (i + left) && get_or cells j Stone.empty ==St Stone.empty)
unfolding empty_cells
contains-empty_cells cells zero i j = ground arith
contains-empty_cells cells (suc left) i j =
    ground (arith, contains-empty_cells cells left (i + 1) j)

contains-empty_cells_negative :
    (cells : List Stone) (left i j : ℕ) → contains (empty_cells cells left i) (negsuc j) ≡ false
unfolding empty_cells
contains-empty_cells_negative cells zero i j = refl
contains-empty_cells_negative cells (suc left) i j =
    ground (arith, contains-empty_cells_negative cells left (i + 1) j)

offered :
    (cells : List Stone) (id : ℤ)
    → contains (empty_cells cells num_board_cells 0) id ≡ may_place cells id
offered cells (pos j) = contains-empty_cells cells num_board_cells 0 j ∙ ground arith
offered cells (negsuc j) = contains-empty_cells_negative cells num_board_cells 0 j

legal_in :
    (s : BoardState) (ph : GamePhase) (id : ℤ)
    → s.phase ≡ ph
    → contains (get_legal_actions s) id ≡ is_legal_action s id
unfolding get_legal_actions is_legal_action
legal_in s GamePhase.place_initial_three id e = ground (arith, offered s.cells id)
legal_in s GamePhase.swap2_decision id e = ground arith
legal_in s GamePhase.swap2_place_two id e = ground (arith, offered s.cells id)
legal_in s GamePhase.choose_color id e = ground arith
legal_in s GamePhase.standard id e = ground (arith, offered s.cells id)

-- For every state and every `int`, IsLegalAction answers whether GetLegalActions lists it.
pub contains-get_legal_actions :
    (s : BoardState) (id : ℤ) → contains (get_legal_actions s) id ≡ is_legal_action s id
contains-get_legal_actions s id = legal_in s s.phase id refl
