-- ===== src/Engine/Board/Play/Legal.antt =====
-- GetLegalActions lists the legal actions, and is empty only when the game is over.
use gomoku.Prelude.{
  ℕ, zero, suc, ◌+◌, ◌≤◌, ◌<◌, ◌≡◌, refl, sym, subst, ◌∙◌, ◌↔◌, inl, inr, true, false, List, [],
  ◌∷◌, arith, length, get_or, Bool-cases, if◌then◌else◌,
}
use gomoku.Prelude.Int.{contains, ℤ, pos, ◌==ℤ◌, ==ℤ_iff}
use gomoku.Engine.Action
use gomoku.Engine.Action.{num_cells}
use gomoku.Engine.Board.{Board, Player, Phase, Result, ◌==P◌, is_determined}
use gomoku.Engine.Board.Play.{empty_cells, get_legal_actions}
use gomoku.Engine.Board.Rules.Valid.{IsValid, IsLegal, LegalIn, Stage, count_stones}

-- The cells that the loop offers.
abbrev Offered : List Player → ℕ → ℕ → ℤ → Type 0
Offered cells left i id =
    (j : ℕ) × (id ≡ pos j) × (i ≤ j) × (j < i + left) × (get_or cells j Player.none ≡ Player.none)

empty_cells_sound :
    (cells : List Player) (left i : ℕ) (id : ℤ)
    → contains (empty_cells cells left i) id ≡ true
    → Offered cells left i id
unfolding empty_cells
empty_cells_sound cells zero i id h = cc
empty_cells_sound cells (suc left) i id h = elim (Bool-cases (pos i ==ℤ id)) [
  | inl here ↦ elim (Bool-cases (get_or cells i Player.none ==P Player.none)) [
    | inl free ↦ (i, sym ((==ℤ_iff (pos i) id).0 here), omega arith, omega arith, ground arith)
    | inr taken ↦ later (empty_cells_sound cells left (i + 1) id (ground arith))
  ]
  | inr other ↦ later (empty_cells_sound cells left (i + 1) id (ground arith))
]
  where
    later : Offered cells left (i + 1) id → Offered cells (suc left) i id
    later (j, e, p, q, free) = (j, e, omega arith, omega arith, free)

empty_cells_complete :
    (cells : List Player) (left i j : ℕ)
    → i ≤ j
    → j < i + left
    → get_or cells j Player.none ≡ Player.none
    → contains (empty_cells cells left i) (pos j) ≡ true
unfolding empty_cells
empty_cells_complete cells zero i j p q free = absurd (omega arith)
empty_cells_complete cells (suc left) i j p q free =
    ground (arith, empty_cells_complete cells left (i + 1) j)

-- The listed actions in a phase, and the legal ones.
offered_iff :
    (cells : List Player) (id : ℤ)
    → (contains (empty_cells cells num_cells 0) id ≡ true) ↔ LegalIn Phase.standard cells id
offered_iff cells id = (
  λ h.
      let (j, e, p, q, free) = empty_cells_sound cells num_cells 0 id h in
      (j, e, omega arith, free),
  λ l.
      let (j, e, inside, free) = l in
      subst (λ k. contains (empty_cells cells num_cells 0) k ≡ true) (sym e)
        (empty_cells_complete cells num_cells 0 j (omega arith) (omega arith) free),
)

listed : Phase → List Player → List ℤ
listed ph cells = elim ph [
  | Phase.swap2_decision ↦
      pos Action.swap2_choose_white
      ∷ pos Action.swap2_choose_black
      ∷ pos Action.swap2_place_two
      ∷ []
  | Phase.choose_color ↦ pos Action.choose_white ∷ pos Action.choose_black ∷ []
  | _ ↦ empty_cells cells num_cells 0
]

listed_iff :
    (ph : Phase) (cells : List Player) (id : ℤ)
    → (contains (listed ph cells) id ≡ true) ↔ LegalIn ph cells id
unfolding listed
listed_iff Phase.swap2_decision cells id = (λ h. ground arith, λ l. ground arith)
listed_iff Phase.choose_color cells id = (λ h. ground arith, λ l. ground arith)
listed_iff Phase.place_initial_three cells id = offered_iff cells id
listed_iff Phase.swap2_place_two cells id = offered_iff cells id
listed_iff Phase.standard cells id = offered_iff cells id

get_legal_actions-listed :
    (board : Board)
    → get_legal_actions board
      ≡ (if is_determined board.result then [] else listed board.phase board.cells)
unfolding get_legal_actions listed
get_legal_actions-listed board = refl

-- GetLegalActions lists exactly the actions that are legal: none when the game is over, the three
-- or the two choices of Swap2 in its control phases, and the empty cells in the others.
pub get_legal_actions_iff :
    (board : Board) (id : ℤ) → (contains (get_legal_actions board) id ≡ true) ↔ IsLegal board id
get_legal_actions_iff board id = (
  λ h. elim (Bool-cases (is_determined board.result)) [
    | inl over ↦ cc (subst (λ l. contains l id ≡ true) (nothing over) h)
    | inr going ↦ record {
      open_game = ground arith;
      allowed =
          (listed_iff board.phase board.cells id).0
            (subst (λ l. contains l id ≡ true) (all_of going) h);
    }
  ],
  λ l.
      subst (λ l. contains l id ≡ true) (sym (all_of (ground arith)))
        ((listed_iff board.phase board.cells id).1 l.allowed),
)
  where
    nothing : is_determined board.result ≡ true → get_legal_actions board ≡ []
    nothing over = get_legal_actions-listed board ∙ rw over

    all_of :
        is_determined board.result ≡ false
        → get_legal_actions board ≡ listed board.phase board.cells
    all_of going = get_legal_actions-listed board ∙ rw going

-- With fewer stones than cells there is an empty cell.
free_cell :
    (cells : List Player)
    → count_stones cells < length cells
    → (j : ℕ) × (j < length cells) × (get_or cells j Player.none ≡ Player.none)
free_cell [] h = absurd (omega arith)
free_cell (Player.none ∷ cs) h = (0, omega arith, refl)
free_cell (Player.black ∷ cs) h =
    let (j, inside, e) = free_cell cs (omega arith) in (suc j, omega arith, e)
free_cell (Player.white ∷ cs) h =
    let (j, inside, e) = free_cell cs (omega arith) in (suc j, omega arith, e)

allowed_action :
    (board : Board) (ph : Phase)
    → length board.cells ≡ num_cells
    → board.result ≡ Result.undetermined
    → Stage ph (count_stones board.cells) board
    → (id : ℤ) × LegalIn ph board.cells id
allowed_action board Phase.swap2_decision sized o s = (pos Action.swap2_choose_white, inl refl)
allowed_action board Phase.choose_color sized o s = (pos Action.choose_white, inl refl)
allowed_action board Phase.place_initial_three sized o s =
    let (j, inside, e) = free_cell board.cells (omega arith) in (pos j, (j, refl, omega arith, e))
allowed_action board Phase.swap2_place_two sized o s =
    let (j, inside, e) = free_cell board.cells (omega arith) in (pos j, (j, refl, omega arith, e))
allowed_action board Phase.standard sized o s =
    let room = s.4 o in
    let (j, inside, e) = free_cell board.cells (omega arith) in (pos j, (j, refl, omega arith, e))

-- A valid board whose game is not over has a legal action, which GetLegalActions lists.
pub get_legal_actions_progress :
    (board : Board)
    → IsValid board
    → board.result ≡ Result.undetermined
    → (id : ℤ) × (contains (get_legal_actions board) id ≡ true) × IsLegal board id
get_legal_actions_progress board v o =
    let (id, allowed) = allowed_action board board.phase v.sized o v.stage in
    let l : IsLegal board id = record { open_game = o; allowed = allowed } in
    (id, (get_legal_actions_iff board id).1 l, l)
