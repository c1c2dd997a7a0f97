-- ===== src/Engine/Vcf/Solve/OfBoard.antt =====
-- SolveVCF on a board of the engine: the position that it is given is that of the board.
use gomoku.Prelude.{
  ℕ, zero, suc, ◌+◌, ◌<◌, ◌≡◌, refl, sym, ap, subst, ◌∙◌, Bool, true, List, [], ◌∷◌, length, arith,
  if_cases, if_both, get_or, set, length-set, length-replicate, get_or-set_self, get_or-set_ne,
  Bool-cases, ◌==◌, ==_iff, inl, inr,
}
use gomoku.Prelude.Int.{ℤ}
use gomoku.Engine.Board.{Board, Player, Phase, Result}
use gomoku.Engine.Vcf.{
  Position, Stone, other_stone, vcf_num_cells, new_position, action_x, action_y, is_inside, set_at,
}
use gomoku.Engine.Vcf.Search.Force.{Forces}
use gomoku.Engine.Vcf.Solve.{
  solve_vcf, make_vcf_position, copy_cells, to_vcf_stone, in_standard_play, solve_vcf_board,
}
use gomoku.Engine.Vcf.Solve.Sound.{Promises, solve_vcf-Promises}

-- The stone of the solver for one of the board.
pub data IsStoneOf : Player → Stone → Type 0 where
  black : IsStoneOf Player.black Stone.black
  white : IsStoneOf Player.white Stone.white
  none : IsStoneOf Player.none Stone.empty

-- A position with the stones of a board, and its stone to place to move.
pub record IsPositionOf (board : Board) (p : Position) : Type 0 where
  pub sized : length p.cells ≡ vcf_num_cells
  pub stones :
      (i : ℕ)
      → i < vcf_num_cells
      → IsStoneOf (get_or board.cells i Player.none) (get_or p.cells i Stone.empty)
  pub to_move : IsStoneOf board.stone_to_place p.current_player

to_vcf_stone-IsStoneOf : (s : Player) → IsStoneOf s (to_vcf_stone s)
to_vcf_stone-IsStoneOf Player.black = black
to_vcf_stone-IsStoneOf Player.white = white
to_vcf_stone-IsStoneOf Player.none = none

-- One cell of the copy.
copied :
    (p : Position) (i : ℕ) (s : Stone)
    → i < vcf_num_cells
    → (set_at p (action_x i) (action_y i) s).0.cells ≡ set p.cells i s
copied p i s h =
    if_cases (λ (q : Position × Bool). q.0.cells ≡ set p.cells i s)
      (is_inside (action_x i) (action_y i)) (λ e. ap (λ k. set p.cells k s) (omega arith))
      (λ e. absurd (ground arith))

copied_player :
    (p : Position) (i : ℕ) (s : Stone)
    → (set_at p (action_x i) (action_y i) s).0.current_player ≡ p.current_player
copied_player p i s =
    if_both (λ (q : Position × Bool). q.0.current_player ≡ p.current_player)
      (is_inside (action_x i) (action_y i)) refl refl

-- The stones of the cells before an index are those of the board.
abbrev Copied : List Player → Position → ℕ → Type 0
Copied cells p n =
    (j : ℕ) → j < n → IsStoneOf (get_or cells j Player.none) (get_or p.cells j Stone.empty)

step-Copied :
    (cells : List Player) (p : Position) (i : ℕ)
    → length p.cells ≡ vcf_num_cells
    → i < vcf_num_cells
    → Copied cells p i
    → Copied cells
        (set_at p (action_x i) (action_y i) (to_vcf_stone (get_or cells i Player.none))).0
        (suc i)
step-Copied cells p i sized inside before j h =
    let stone = to_vcf_stone (get_or cells i Player.none) in
    subst (λ (cs : List Stone). IsStoneOf (get_or cells j Player.none) (get_or cs j Stone.empty))
      (sym (copied p i stone inside))
      (elim (Bool-cases (i == j)) [
        | inl e ↦
            subst
              (λ k.
                IsStoneOf (get_or cells k Player.none) (get_or (set p.cells i stone) k Stone.empty))
              ((==_iff i j).0 e)
              (subst (IsStoneOf (get_or cells i Player.none))
                (sym (get_or-set_self p.cells i stone Stone.empty (omega arith)))
                (to_vcf_stone-IsStoneOf (get_or cells i Player.none)))
        | inr e ↦
            subst (IsStoneOf (get_or cells j Player.none))
              (sym (get_or-set_ne p.cells i j stone Stone.empty (λ q. ground (arith, e, q))))
              (before j (ground (arith, e)))
      ])

-- What the loops over the cells leave.
record IsCopy (cells : List Player) (p q : Position) (n : ℕ) : Type 0 where
  sized : length q.cells ≡ vcf_num_cells
  player : q.current_player ≡ p.current_player
  stones : Copied cells q n

copy_cells-IsCopy :
    (cells : List Player) (left i : ℕ) (p : Position)
    → length p.cells ≡ vcf_num_cells
    → i + left ≡ vcf_num_cells
    → Copied cells p i
    → IsCopy cells p (copy_cells cells left i p) vcf_num_cells
copy_cells-IsCopy cells zero i p sized e before = record {
  sized = sized;
  player = refl;
  stones = λ j h. before j (omega arith);
}
copy_cells-IsCopy cells (suc left) i p sized e before =
    let stone = to_vcf_stone (get_or cells i Player.none) in
    let next = (set_at p (action_x i) (action_y i) stone).0 in
    let inside : i < vcf_num_cells = omega arith in
    let rest =
      copy_cells-IsCopy cells left (suc i) next
        (ap (λ (cs : List Stone). length cs) (copied p i stone inside)
          ∙ length-set p.cells i stone
          ∙ sized)
        (omega arith) (step-Copied cells p i sized inside before) in
    record {
      sized = rest.sized;
      player = rest.player ∙ copied_player p i stone;
      stones = rest.stones;
    }

make_vcf_position-IsPositionOf : (board : Board) → IsPositionOf board (make_vcf_position board)
unfolding make_vcf_position
make_vcf_position-IsPositionOf board =
    let first = new_position (to_vcf_stone board.stone_to_place) in
    let copy =
      copy_cells-IsCopy board.cells vcf_num_cells 0 first
        (length-replicate vcf_num_cells Stone.empty) refl (λ j h. absurd (omega arith)) in
    record {
      sized = copy.sized;
      stones = copy.stones;
      to_move =
          subst (IsStoneOf board.stone_to_place) (sym copy.player)
            (to_vcf_stone-IsStoneOf board.stone_to_place);
    }

-- A line, if there is one, is for a board in standard play whose game goes on, and begins with a move
-- that wins by force from its position.
abbrev pub BoardPromises : Board → List ℕ → Type 0
BoardPromises board [] = Unit
BoardPromises board (a ∷ line) =
    (board.phase ≡ Phase.standard)
    × (board.result ≡ Result.undetermined)
    × ((p : Position) × IsPositionOf board p
        × Forces p.current_player (other_stone p.current_player) p a)

playable :
    (board : Board)
    → in_standard_play board ≡ true
    → (board.phase ≡ Phase.standard) × (board.result ≡ Result.undetermined)
playable board h = ground arith

promised :
    (board : Board) (line : List ℕ)
    → in_standard_play board ≡ true
    → Promises (make_vcf_position board) line
    → BoardPromises board line
promised board [] h w = tt
promised board (a ∷ line) h w = (
  (playable board h).0,
  (playable board h).1,
  (make_vcf_position board, make_vcf_position-IsPositionOf board, w),
)

-- A line that SolveVCF answers for a board of the engine is for one in standard play whose game goes
-- on, and begins with a move that wins by force, against every reply, for the colour to place, from the
-- position that has the stones of the board.
pub solve_vcf_board-Promises :
    (board : Board) (max_nodes : ℤ) → BoardPromises board (solve_vcf_board board max_nodes)
unfolding solve_vcf_board
solve_vcf_board-Promises board max_nodes =
    let p = make_vcf_position board in
    if_cases (BoardPromises board) (in_standard_play board)
      (λ e.
        promised board (solve_vcf p max_nodes) e
          (solve_vcf-Promises p max_nodes (make_vcf_position-IsPositionOf board).sized))
      (λ e. tt)
