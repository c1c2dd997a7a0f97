-- ===== src/App/ReplayController/Cells.antt =====
-- What the loop of ReconstructStateAtCurrentPly in app/src/core/replay_controller.cpp leaves in each
-- cell.
use gomoku.Prelude.{
  ℕ, zero, suc, ◌+◌, ◌*◌, ◌/◌, ◌%◌, ◌≤◌, ◌<◌, ◌≡◌, refl, ap, subst, sym, ◌∙◌, Bool, true, false,
  List, [], ◌∷◌, Option, none, some, length, arith, if_cases, if_false, not, ◌&&◌, if◌then◌else◌,
  ◌==◌, ==_iff, set, length-set, get_or-set_self, get_or-set_ne, Bool-cases, inl, inr,
}
use gomoku.Prelude.Int.{ℤ, pos, negsuc, pos_part, in_range, ◌==ℤ◌}
use gomoku.Plugin.State.{num_board_cells, board_size}
use gomoku.App.BoardViewModel.{
  CellData, BoardViewModel, clear_cell, cell_at, set_cell, set_cell_by_action, clear_cells,
  clear_board,
}
use gomoku.App.BoardViewModel.Marks.{clear_cells_plain}
use gomoku.Prelude.Text.{codes}
use gomoku.App.ReplayController.{MoveRecord, color_of, show_moves, reconstruct}

-- A cell with a stone on it.
abbrev with_stone : CellData → ℤ → ℕ → Bool → CellData
with_stone cell color number latest = record cell {
  stone_color = color;
  move_number = number;
  is_latest = latest;
  is_ghost = false;
}

abbrev shown_board : List CellData → ℤ → ℤ → BoardViewModel
shown_board cells latest ghost = record {
  cells = cells;
  latest_action = latest;
  ghost_index = ghost;
}

if_true {ℓ} : {A : Type ℓ} {b : Bool} (x y : A) → b ≡ true → (if b then x else y) ≡ x
if_true x y e = rw e refl

columns : (k : ℕ) → k < num_board_cells → (k % 15 < 15) × (k / 15 < 15)
columns k h = (omega arith, omega (arith, h))

set_cell_by_action_at :
    (cells : List CellData) (g : ℤ) (k : ℕ) (color : ℤ) (number : ℕ) (b : Bool)
    → k < num_board_cells
    → set_cell_by_action (shown_board cells (negsuc 0) g) (pos k) color number b
      ≡ shown_board
          (set cells k (with_stone (cell_at cells k) color number b))
          (if b then pos k else negsuc 0)
          g
unfolding set_cell_by_action set_cell
set_cell_by_action_at cells g k color number b h =
    let e : k / 15 * 15 + k % 15 ≡ k = omega arith in
    if_true {b = in_range (pos k) num_board_cells} _ _ (ground (arith, h))
    ∙ if_false {b = not (in_range (pos (k % 15)) board_size && in_range (pos (k / 15)) board_size)}
        _ _ (ground (arith, columns k h))
    ∙ ap
        (λ j.
          shown_board (set cells j (with_stone (cell_at cells j) color number b))
            (if b then pos j else negsuc 0) g)
        e

-- A cell of a list after one of its cells changed.
cell_at-set_same :
    (cells : List CellData) (k i : ℕ) (c : CellData)
    → k < length cells
    → (pos k ==ℤ pos i) ≡ true
    → cell_at (set cells k c) i ≡ c
cell_at-set_same cells k i c h e =
    subst (λ j. cell_at (set cells k c) j ≡ c) ((==_iff k i).0 e)
      (get_or-set_self cells k c (clear_cell 0) h)

cell_at-set_other :
    (cells : List CellData) (k i : ℕ) (c : CellData)
    → (pos k ==ℤ pos i) ≡ false
    → cell_at (set cells k c) i ≡ cell_at cells i
cell_at-set_other cells k i c e =
    get_or-set_ne cells k i c (clear_cell 0) (λ q. ground (arith, e, (==_iff k i).1 q))

-- The last of the first moves that is at a cell, or none.
abbrev pub last_at : List MoveRecord → ℕ → ℕ → Option MoveRecord
last_at moves zero i = none
last_at [] (suc left) i = none
last_at (move ∷ moves) (suc left) i =
    let here = if move.action_id ==ℤ pos i then some move else none in
    elim (last_at moves left i) [ none ↦ here | some later ↦ some later ]

-- Whether the move of a ply is at a cell.
abbrev pub is_newest : List MoveRecord → ℕ → ℕ → Bool
is_newest moves zero i = false
is_newest [] (suc left) i = false
is_newest (move ∷ moves) (suc zero) i = move.action_id ==ℤ pos i
is_newest (move ∷ moves) (suc (suc left)) i = is_newest moves (suc left) i

-- The colour of the stone of a move, if there is one.
abbrev pub stone_or : ℤ → Option MoveRecord → ℤ
stone_or color none = color
stone_or color (some move) = color_of move.stone_placed

-- A cell after a stone was set at an index.
after_set :
    (cells : List CellData) (k i : ℕ) (color : ℤ) (number : ℕ) (b : Bool)
    → k < length cells
    → (cell_at cells i).is_latest ≡ false
    → ((cell_at (set cells k (with_stone (cell_at cells k) color number b)) i).stone_color
        ≡ (if pos k ==ℤ pos i then color else (cell_at cells i).stone_color))
      × ((cell_at (set cells k (with_stone (cell_at cells k) color number b)) i).is_latest
          ≡ (if pos k ==ℤ pos i then b else false))
after_set cells k i color number b h plain =
    let c = with_stone (cell_at cells k) color number b in
    elim (Bool-cases (pos k ==ℤ pos i)) [
      | inl e ↦
          let same = cell_at-set_same cells k i c h e in
          (
            ap (λ (d : CellData). d.stone_color) same ∙ sym (if_true _ _ e),
            ap (λ (d : CellData). d.is_latest) same ∙ sym (if_true _ _ e),
          )
      | inr e ↦
          let other = cell_at-set_other cells k i c e in
          (
            ap (λ (d : CellData). d.stone_color) other ∙ sym (if_false _ _ e),
            ap (λ (d : CellData). d.is_latest) other ∙ plain ∙ sym (if_false _ _ e),
          )
    ]

-- The stone of the first move counts where no later one is at the cell.
later_wins :
    (color : ℤ) (move : MoveRecord) (b : Bool) (later : Option MoveRecord)
    → stone_or (if b then color_of move.stone_placed else color) later
      ≡ stone_or color (elim later [ none ↦ if b then some move else none | some next ↦ some next ])
later_wins color move true none = refl
later_wins color move false none = refl
later_wins color move b (some next) = refl

-- A cell shows the stone of the last move at it, and whether the newest one is.
abbrev pub Cell : List MoveRecord → ℕ → ℕ → ℤ → CellData → Type 0
Cell moves ply i color cell =
    (cell.stone_color ≡ stone_or color (last_at moves ply i))
    × (cell.is_latest ≡ is_newest moves ply i)

set_at_id :
    (cells : List CellData) (g id color : ℤ) (number : ℕ) (b : Bool)
    → in_range id num_board_cells ≡ true
    → set_cell_by_action (shown_board cells (negsuc 0) g) id color number b
      ≡ shown_board
          (set cells (pos_part id) (with_stone (cell_at cells (pos_part id)) color number b))
          (if b then pos (pos_part id) else negsuc 0)
          g
set_at_id cells g (pos k) color number b e =
    set_cell_by_action_at cells g k color number b (ground (arith, e))
set_at_id cells g (negsuc k) color number b e = absurd (ground (arith, e))

-- A cell after a stone was set at an action.
abbrev Changed : List CellData → ℤ → ℕ → ℤ → Bool → CellData → Type 0
Changed cells id i color b cell =
    (cell.stone_color ≡ (if id ==ℤ pos i then color else (cell_at cells i).stone_color))
    × (cell.is_latest ≡ (if id ==ℤ pos i then b else false))

after_id :
    (cells : List CellData) (id : ℤ) (i : ℕ) (color : ℤ) (number : ℕ) (b : Bool)
    → length cells ≡ num_board_cells
    → in_range id num_board_cells ≡ true
    → (cell_at cells i).is_latest ≡ false
    → Changed cells id i color b (
        cell_at
          (set cells (pos_part id) (with_stone (cell_at cells (pos_part id)) color number b))
          i)
after_id cells (pos k) i color number b sized e plain =
    after_set cells k i color number b (ground (arith, e, sized)) plain
after_id cells (negsuc k) i color number b sized e plain = absurd (ground (arith, e))

elsewhere :
    (id : ℤ) (i : ℕ)
    → in_range id num_board_cells ≡ false
    → i < num_board_cells
    → (id ==ℤ pos i) ≡ false
elsewhere (pos k) i e h = ground (arith, e, h)
elsewhere (negsuc k) i e h = refl

if_same : (b : Bool) → (if b then true else false) ≡ b
if_same true = refl
if_same false = refl

if_never : (b : Bool) → (if b then false else false) ≡ false
if_never true = refl
if_never false = refl

pub show_moves-Cell :
    (moves : List MoveRecord) (left number : ℕ) (cells : List CellData) (g : ℤ) (i : ℕ)
    → length cells ≡ num_board_cells
    → i < num_board_cells
    → (cell_at cells i).is_latest ≡ false
    → left ≤ length moves
    → Cell moves left i
        (cell_at cells i).stone_color
        (cell_at (show_moves moves left number (shown_board cells (negsuc 0) g)).cells i)
unfolding show_moves
show_moves-Cell moves zero number cells g i sized inside plain le = (refl, plain)
show_moves-Cell [] (suc left) number cells g i sized inside plain le = absurd (omega arith)
show_moves-Cell (move ∷ moves) (suc zero) number cells g i sized inside plain le =
    let id = move.action_id in
    let color = color_of move.stone_placed in
    let old = (cell_at cells i).stone_color in
    let P = λ (m : BoardViewModel). Cell (move ∷ moves) 1 i old (cell_at m.cells i) in
    if_cases P (in_range id num_board_cells)
      (λ e.
        let (stone, newest) = after_id cells id i color number true sized e plain in
        subst P (sym (set_at_id cells g id color number true e))
          (stone ∙ later_wins old move (id ==ℤ pos i) none, newest ∙ if_same (id ==ℤ pos i)))
      (λ e.
        let off = elsewhere id i e inside in
        (
          sym (if_false {b = id ==ℤ pos i} color old off) ∙ later_wins old move (id ==ℤ pos i) none,
          plain ∙ sym off,
        ))
show_moves-Cell (move ∷ moves) (suc (suc left)) number cells g i sized inside plain le =
    let id = move.action_id in
    let color = color_of move.stone_placed in
    let old = (cell_at cells i).stone_color in
    let later = last_at moves (suc left) i in
    let P =
      λ (m : BoardViewModel). Cell (move ∷ moves) (suc (suc left)) i old (cell_at m.cells i) in
    let more : (suc left == 0) ≡ false = ground arith in
    if_cases P (in_range id num_board_cells)
      (λ e.
        let (stone, newest) = after_id cells id i color number false sized e plain in
        let next =
          set cells (pos_part id) (with_stone (cell_at cells (pos_part id)) color number false) in
        let rest =
          show_moves-Cell moves (suc left) (suc number) next g i (length-set cells _ _ ∙ sized)
            inside (newest ∙ if_never (id ==ℤ pos i)) (omega (arith, le)) in
        subst (λ m. P (show_moves moves (suc left) (suc number) m))
          (sym (
            ap (set_cell_by_action (shown_board cells (negsuc 0) g) id color number) more
            ∙ set_at_id cells g id color number false e))
          (
            rest.0 ∙ ap (λ d. stone_or d later) stone ∙ later_wins old move (id ==ℤ pos i) later,
            rest.1,
          ))
      (λ e.
        let off = elsewhere id i e inside in
        let rest =
          show_moves-Cell moves (suc left) number cells g i sized inside plain
            (omega (arith, le)) in
        (
          rest.0
              ∙ ap (λ d. stone_or d later) (sym (if_false {b = id ==ℤ pos i} color old off))
              ∙ later_wins old move (id ==ℤ pos i) later,
          rest.1,
        ))

-- A stone of a move, or none.
abbrev pub Stone : Option MoveRecord → ℤ → Type 0
Stone none color = color ≡ pos 0
Stone (some move) color =
    (move.stone_placed ≡ codes "BLACK" → color ≡ pos 1)
    × (move.stone_placed ≡ codes "WHITE" → color ≡ pos 2)

-- Each cell shows the stone of the last move at it up to a ply, black as 1 and white as 2, and is
-- marked as the latest exactly if the move of that ply is at it.
abbrev pub Shows : List MoveRecord → ℕ → BoardViewModel → Type 0
Shows moves ply board =
    (i : ℕ)
    → i < num_board_cells
    → Stone (last_at moves ply i) (cell_at board.cells i).stone_color
      × ((cell_at board.cells i).is_latest ≡ is_newest moves ply i)

clear_cells_empty : (left index i : ℕ) → (cell_at (clear_cells left index) i).stone_color ≡ pos 0
clear_cells_empty zero index i = refl
clear_cells_empty (suc left) index zero = refl
clear_cells_empty (suc left) index (suc i) = clear_cells_empty left (suc index) i

stone_or-Stone :
    (move : Option MoveRecord) (color cell : ℤ)
    → color ≡ pos 0
    → cell ≡ stone_or color move
    → Stone move cell
stone_or-Stone none color cell empty e = e ∙ empty
stone_or-Stone (some move) color cell empty e =
    (λ black. e ∙ ap color_of black, λ white. e ∙ ap color_of white)

length-clear_cells : (left index : ℕ) → length (clear_cells left index) ≡ left
length-clear_cells zero index = refl
length-clear_cells (suc left) index = ap suc (length-clear_cells left (suc index))

pub reconstruct-Shows :
    (moves : List MoveRecord) (ply : ℕ)
    → ply ≤ length moves
    → Shows moves ply (reconstruct moves ply)
unfolding reconstruct clear_board
reconstruct-Shows moves ply le i inside =
    let cells = clear_cells num_board_cells 0 in
    let (stone, newest) =
      show_moves-Cell moves ply 1 cells (negsuc 0) i (length-clear_cells num_board_cells 0) inside
        (clear_cells_plain num_board_cells 0 i).0 le in
    (stone_or-Stone (last_at moves ply i) _ _ (clear_cells_empty num_board_cells 0 i) stone, newest)
