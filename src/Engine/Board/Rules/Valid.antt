-- ===== src/Engine/Board/Rules/Valid.antt =====
-- What holds of every board of a game, and which actions are legal on it.
use gomoku.Prelude.{
  ℕ, zero, suc, ◌+◌, ◌%◌, ◌≤◌, ◌<◌, ◌≡◌, ◌≢◌, ◌⊎◌, List, [], ◌∷◌, ◌==◌, if◌then◌else◌, arith,
  length, get_or, set,
}
use gomoku.Prelude.Int.{ℤ, pos}
use gomoku.Engine.Action
use gomoku.Engine.Action.{num_cells}
use gomoku.Engine.Board.{Board, Player, Seat, Phase, Result, black, white, ◌==P◌}

-- The stones on the board.
abbrev pub count_stones : List Player → ℕ
count_stones [] = 0
count_stones (c ∷ cs) = (if c ==P Player.none then 0 else 1) + count_stones cs

-- The colour of the next stone when `n` lie: black begins, also after the two of Swap2.
abbrev pub turn : ℕ → Player
turn n = if n % 2 == 1 then white else black

-- Before the colours are chosen.
abbrev pub Unassigned : Board → Type 0
Unassigned board =
    (board.seat_a_stone ≡ Player.none)
    × (board.seat_b_stone ≡ Player.none)
    × (board.result ≡ Result.undetermined)

-- The seats have the two colours.
abbrev pub Assigned : Board → Type 0
Assigned board =
    ((board.seat_a_stone ≡ black) × (board.seat_b_stone ≡ white))
    ⊎ ((board.seat_a_stone ≡ white) × (board.seat_b_stone ≡ black))

-- The stone to place is that of the seat to move.
abbrev pub Holds : Board → Type 0
Holds board =
    ((board.current_player ≡ Seat.a) × (board.seat_a_stone ≡ board.stone_to_place))
    ⊎ ((board.current_player ≡ Seat.b) × (board.seat_b_stone ≡ board.stone_to_place))

-- The state in each phase, with `n` stones on the board.
abbrev pub Stage : Phase → ℕ → Board → Type 0
Stage Phase.place_initial_three n board =
    (n < 3) × (board.current_player ≡ Seat.a) × (board.stone_to_place ≡ turn n) × Unassigned board
Stage Phase.swap2_decision n board =
    (n ≡ 3)
    × (board.current_player ≡ Seat.b)
    × (board.stone_to_place ≡ Player.none)
    × Unassigned board
Stage Phase.swap2_place_two n board =
    (3 ≤ n)
    × (n < 5)
    × (board.current_player ≡ Seat.b)
    × (board.stone_to_place ≡ turn n)
    × Unassigned board
Stage Phase.choose_color n board =
    (n ≡ 5)
    × (board.current_player ≡ Seat.a)
    × (board.stone_to_place ≡ Player.none)
    × Unassigned board
Stage Phase.standard n board =
    (3 ≤ n)
    × (board.stone_to_place ≡ turn n)
    × Assigned board
    × Holds board
    × (board.result ≡ Result.undetermined → n < num_cells)

pub record IsValid (board : Board) : Type 0 where
  pub sized : length board.cells ≡ num_cells
  pub counted : board.move_count ≡ pos (count_stones board.cells)
  pub stage : Stage board.phase (count_stones board.cells) board

-- The actions that each phase allows.
abbrev pub LegalIn : Phase → List Player → ℤ → Type 0
LegalIn Phase.swap2_decision cells id =
    (id ≡ pos Action.swap2_choose_white)
    ⊎ (id ≡ pos Action.swap2_choose_black)
    ⊎ (id ≡ pos Action.swap2_place_two)
LegalIn Phase.choose_color cells id =
    (id ≡ pos Action.choose_white) ⊎ (id ≡ pos Action.choose_black)
LegalIn _ cells id =
    (i : ℕ) × (id ≡ pos i) × (i < num_cells) × (get_or cells i Player.none ≡ Player.none)

pub record IsLegal (board : Board) (id : ℤ) : Type 0 where
  pub open_game : board.result ≡ Result.undetermined
  pub allowed : LegalIn board.phase board.cells id

pub count_stones-set :
    (cells : List Player) (i : ℕ) (p : Player)
    → i < length cells
    → get_or cells i Player.none ≡ Player.none
    → p ≢ Player.none
    → count_stones (set cells i p) ≡ count_stones cells + 1
count_stones-set [] i p h e ne = elim h [ ]
count_stones-set (c ∷ cs) zero p h e ne = ground arith
count_stones-set (c ∷ cs) (suc i) p h e ne =
    omega (arith, count_stones-set cs i p (omega arith) e ne)
