-- ===== src/Engine/Board/Rules/Game.antt =====
-- Games: the boards that legal actions reach from a new board.
use gomoku.Prelude.{
  ℕ, zero, suc, ◌+◌, ◌≤◌, ◌≡◌, refl, List, [], ◌∷◌, arith, length, length-replicate, subst, sym, ap,
  ◌∙◌, replicate, ◌≢◌, set,
}
use gomoku.Prelude.Int.{ℤ, pos, negsuc}
use gomoku.Engine.Action.{num_cells}
use gomoku.Engine.Board.{Board, Player, Phase, toggle_hash}
use gomoku.Engine.Board.Rules.{
  apply, perform, control, place, transition_phase, new_board, blank, xor_empty_cells,
}
use gomoku.Engine.Board.Rules.Valid.{
  IsValid, IsLegal, LegalIn, count_stones, count_stones-set, Stage,
}
use gomoku.Engine.Board.Rules.Hash.{
  sealed, after, toggle_hash-sealed, full_signature, apply-sealed, perform-place,
}
use gomoku.Engine.Board.Rules.Shape.{turn-stone}
use gomoku.Engine.Board.Rules.Invariant.{apply-IsValid}
use gomoku.Engine.Board.Rules.Signature.{apply-IsHashed, new_board-IsHashed}

-- `Game rng n board`: `n` legal actions lead to `board`.
pub data Game (rng : ℕ → ℕ) : ℕ → Board → Type 0 where
  start : Game rng 0 (new_board rng)
  move :
      {n : ℕ} {board : Board} (id : ℤ)
      → Game rng n board
      → IsLegal board id
      → Game rng (suc n) (apply rng board id)

count_stones-replicate : (n : ℕ) → count_stones (replicate n Player.none) ≡ 0
count_stones-replicate zero = refl
count_stones-replicate (suc n) = omega (arith, count_stones-replicate n)

blank-IsValid :
    (rng : ℕ → ℕ) (n : ℕ) → n ≡ num_cells → IsValid (toggle_hash rng (blank rng n) (negsuc 0))
blank-IsValid rng n e =
    let none = count_stones-replicate n in
    let z = xor_empty_cells rng n 0 (0, 0) in
    subst IsValid (sym (toggle_hash-sealed rng (blank rng n) (negsuc 0) z)) (record {
      sized = length-replicate n Player.none ∙ e;
      counted = ap pos (sym none);
      stage =
          subst
            (λ k.
              Stage Phase.place_initial_three k
                (sealed (blank rng n) (after rng (blank rng n) (negsuc 0) z)))
            (sym none) (omega arith, refl, refl, (refl, refl, refl));
    })

pub new_board-IsValid : (rng : ℕ → ℕ) → IsValid (new_board rng)
unfolding new_board
new_board-IsValid rng = blank-IsValid rng num_cells refl

-- Every board of a game is valid, and its incremental signature is the one that hashing the whole
-- board gives, whatever the keys.
pub Game-Sound :
    (rng : ℕ → ℕ) {n : ℕ} {board : Board}
    → Game rng n board
    → IsValid board × (board.zobrists ≡ full_signature rng board)
Game-Sound rng start = (new_board-IsValid rng, new_board-IsHashed rng)
Game-Sound rng (move {board = board} id g l) =
    let (v, h) = Game-Sound rng g in
    (apply-IsValid rng board id v l, apply-IsHashed rng board id v.sized h)

-- Control actions: how many a game has made at most.
abbrev controls : Phase → ℕ
controls Phase.place_initial_three = 0
controls Phase.swap2_decision = 0
controls Phase.swap2_place_two = 1
controls Phase.choose_color = 1
controls Phase.standard = 2

abbrev made : Board → ℕ
made board = count_stones board.cells + controls board.phase

count_stones-le : (cells : List Player) → count_stones cells ≤ length cells
count_stones-le [] = omega arith
count_stones-le (c ∷ cs) = ground (arith, count_stones-le cs)

place-controls : (board : Board) (i : ℕ) → controls (place board i).phase ≡ controls board.phase
unfolding place transition_phase
place-controls board i = ground arith

place-cells :
    (board : Board) (i : ℕ) → (place board i).cells ≡ set board.cells i board.stone_to_place
unfolding place transition_phase
place-cells board i = ground arith

-- A placement on an empty cell, of a stone.
made-place :
    (board : Board) (id : ℤ)
    → length board.cells ≡ num_cells
    → board.stone_to_place ≢ Player.none
    → LegalIn Phase.standard board.cells id
    → made board + 1 ≤ made (perform board id)
made-place board id sized stone (i, e, inside, free) =
    let n = count_stones-set board.cells i board.stone_to_place (omega arith) free stone in
    subst (λ (b : Board). made board + 1 ≤ made b)
      (sym (perform-place board i inside) ∙ sym (ap (perform board) e))
      (omega (arith, place-controls board i, ap count_stones (place-cells board i), n))

made-perform :
    (board : Board) (ph : Phase) (n : ℕ) (id : ℤ)
    → board.phase ≡ ph
    → length board.cells ≡ num_cells
    → Stage ph n board
    → LegalIn ph board.cells id
    → made board + 1 ≤ made (perform board id)
unfolding perform control
made-perform board Phase.place_initial_three n id e sized s l =
    made-place board id sized (λ q. turn-stone n (sym s.2 ∙ q)) l
made-perform board Phase.swap2_decision n id e sized s l = ground arith
made-perform board Phase.swap2_place_two n id e sized s l =
    made-place board id sized (λ q. turn-stone n (sym s.3 ∙ q)) l
made-perform board Phase.choose_color n id e sized s l = ground arith
made-perform board Phase.standard n id e sized s l =
    made-place board id sized (λ q. turn-stone n (sym s.1 ∙ q)) l

Game-made : (rng : ℕ → ℕ) {n : ℕ} {board : Board} → Game rng n board → n ≤ made board
Game-made rng start = omega arith
Game-made rng (move {n = n} {board = board} id g l) =
    let v = (Game-Sound rng g).0 in
    let next =
      made-perform board board.phase (count_stones board.cells) id refl v.sized v.stage l.allowed in
    subst (λ (b : Board). suc n ≤ made b) (sym (apply-sealed rng board id l.open_game))
      (omega (arith, Game-made rng g))

-- A game has at most 227 actions: one stone for each cell, and two choices of Swap2.
pub Game-length : (rng : ℕ → ℕ) {n : ℕ} {board : Board} → Game rng n board → n ≤ num_cells + 2
Game-length rng {board = board} g =
    let v = (Game-Sound rng g).0 in
    ground (arith, Game-made rng g, count_stones-le board.cells, v.sized)
