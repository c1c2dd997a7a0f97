-- ===== src/App/BoardViewModel/Marks.antt =====
-- Which cells of a list carry a mark, and how a change of one cell changes that.
use gomoku.Prelude.{
  ℕ, zero, suc, ◌<◌, ◌≡◌, ◌≢◌, refl, sym, ap, ◌∙◌, Bool, true, false, List, [], ◌∷◌, ◌==◌, ==_iff,
  arith, ◌≤◌, set, length, get_or-set_ne, get_or-set_self, ◌⊎◌, inl, inr, Bool-cases,
}
use gomoku.Prelude.Int.{ℤ, pos, negsuc, in_range, pos_part}
use gomoku.Plugin.State.{num_board_cells}
use gomoku.App.BoardViewModel.{CellData, clear_cell, clear_cells, cell_at}

-- Only the cell at an index, if any, has a mark.
abbrev pub Only : (CellData → Bool) → List CellData → ℤ → Type 0
Only mark cells index = (i : ℕ) → mark (cell_at cells i) ≡ true → index ≡ pos i

cell_at-set :
    (cells : List CellData) (i j : ℕ) (c : CellData) (mark : CellData → Bool)
    → i < length cells
    → mark (cell_at (set cells i c) j) ≡ true
    → ((i ≡ j) × (mark c ≡ true)) ⊎ ((i ≢ j) × (mark (cell_at cells j) ≡ true))
cell_at-set cells i j c mark inside h = elim (Bool-cases (i == j)) [
  | inl e ↦
      let same = (==_iff i j).0 e in
      let here = get_or-set_self cells i c (clear_cell 0) inside in
      inl (same, sym (ap mark here) ∙ ap (λ (k : ℕ). mark (cell_at (set cells i c) k)) same ∙ h)
  | inr e ↦
      let ne : i ≢ j = λ q. ground (arith, e, q) in
      inr (ne, sym (ap mark (get_or-set_ne cells i j c (clear_cell 0) ne)) ∙ h)
]

pub clear_cells_plain :
    (left index i : ℕ)
    → ((cell_at (clear_cells left index) i).is_latest ≡ false)
      × ((cell_at (clear_cells left index) i).is_ghost ≡ false)
clear_cells_plain zero index i = (refl, refl)
clear_cells_plain (suc left) index zero = (refl, refl)
clear_cells_plain (suc left) index (suc i) = clear_cells_plain left (suc index) i

-- A change of one cell that gives it no mark it is not entitled to.
pub set-Only :
    (mark : CellData → Bool) (cells : List CellData) (i : ℕ) (c : CellData) (index : ℤ)
    → i < length cells
    → Only mark cells index
    → (mark c ≡ true → index ≡ pos i)
    → Only mark (set cells i c) index
set-Only mark cells i c index inside v h j m = elim (cell_at-set cells i j c mark inside m) [
  | inl e ↦ h e.1 ∙ ap pos e.0
  | inr e ↦ v j e.1
]

pub no_clash : true ≢ false
no_clash e = ground arith

-- No cell has the mark.
abbrev pub NoMark : (CellData → Bool) → List CellData → Type 0
NoMark mark cells = (i : ℕ) → mark (cell_at cells i) ≡ true → ⊥

get_or_beyond : (cells : List CellData) (i : ℕ) → length cells ≤ i → cell_at cells i ≡ clear_cell 0
get_or_beyond [] i h = refl
get_or_beyond (c ∷ cs) zero h = absurd (omega (arith, h))
get_or_beyond (c ∷ cs) (suc i) h = get_or_beyond cs i (omega (arith, h))

pub in_range_lem :
    (index : ℤ) (n : ℕ)
    → in_range index n ≡ true
    → (index ≡ pos (pos_part index)) × (pos_part index < n)
in_range_lem (pos k) n h = (refl, ground (arith, h))
in_range_lem (negsuc k) n h = ground (arith, h)

out_of_range : (index : ℤ) (i n : ℕ) → in_range index n ≡ false → index ≡ pos i → n ≤ i
out_of_range index i n h e = ground (arith, h, e)

module _ (mark : CellData → Bool) (cells : List CellData) (index : ℤ)
    (sized : length cells ≡ num_board_cells) (v : Only mark cells index) where
  -- An index outside the board marks no cell.
  pub out-NoMark :
      mark (clear_cell 0) ≡ false → in_range index num_board_cells ≡ false → NoMark mark cells
  out-NoMark plain out i m =
      let far = out_of_range index i num_board_cells out (v i m) in
      let blank = get_or_beyond cells i (omega (arith, far, sized)) in
      no_clash (sym m ∙ ap mark blank ∙ plain)

  -- Taking the mark from the cell at the index leaves none.
  pub unmark-NoMark :
      (c : CellData)
      → mark c ≡ false
      → in_range index num_board_cells ≡ true
      → NoMark mark (set cells (pos_part index) c)
  unmark-NoMark c plain inside i m =
      let (at, small) = in_range_lem index num_board_cells inside in
      elim (cell_at-set cells (pos_part index) i c mark (omega (arith, small, sized)) m) [
        | inl e ↦ no_clash (sym e.1 ∙ plain)
        | inr e ↦ e.0 (ap pos_part (v i e.1))
      ]
