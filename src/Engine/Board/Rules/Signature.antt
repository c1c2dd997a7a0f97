-- ===== src/Engine/Board/Rules/Signature.antt =====
-- The incremental signature is the signature from scratch.
use gomoku.Prelude.{
  ℕ, zero, suc, ◌+◌, ◌<◌, ◌≡◌, sym, ap, ◌∙◌, inl, inr, List, [], ◌∷◌, if◌then◌else◌, arith,
  Bool-cases, get_or, get_or-set_self, set, length, subst, replicate,
}
use native.Mathlib.Nat.{zero-add}
use gomoku.Prelude.Int.{ℤ, negsuc, pos_part}
use gomoku.Prelude.Xor.{◌xor◌, xor_assoc, zero-xor, xor-zero, xor_comm, xor_cancel, xor_exchange}
use gomoku.Engine.Action.{is_placement, num_cells}
use gomoku.Engine.Board.{
  Board, BoardSignature, Player, Result, is_determined, cell_key, xor_cell, toggle_hash,
}
use gomoku.Engine.Board.Rules.{apply, perform, xor_empty_cells, new_board, blank}
use gomoku.Engine.Board.Rules.Hash.{
  full_signature, full_hash, cells_hash, state_hash, mask, touched, after, toggle_hash-sealed,
  apply_over, apply-sealed, perform-cells,
}

module _ (rng : ℕ → ℕ) where
  -- A written cell: the old key goes, the new one comes.
  cells_hash-set :
      (cells : List Player) (i j h : ℕ) (p : Player)
      → i < length cells
      → cells_hash rng (set cells i p) j h
        ≡ (cells_hash rng cells j h xor cell_key rng h (j + i) (get_or cells i Player.none))
          xor cell_key rng h (j + i) p
  unfolding cells_hash
  cells_hash-set [] i j h p lt = elim lt [ ]
  cells_hash-set (c ∷ cs) zero j h p lt =
      let rest = cells_hash rng cs (j + 1) h in
      let old = cell_key rng h j c in
      let e : j + 0 ≡ j = omega arith in
      rw (e, xor_comm (old xor rest) old, xor_cancel old rest) (xor_comm (cell_key rng h j p) rest)
  cells_hash-set (c ∷ cs) (suc i) j h p lt =
      let e : j + suc i ≡ j + 1 + i = omega arith in
      rw (e, cells_hash-set cs i (j + 1) h p (omega arith)) (simp xor_assoc)

-- The signature is that of the board hashed as a whole.
abbrev pub IsHashed : (ℕ → ℕ) → Board → Type 0
IsHashed rng board = board.zobrists ≡ full_signature rng board

-- What a placement, or a control action, does to the hash of the cells.
cells_hash-touched :
    (rng : ℕ → ℕ) (cells : List Player) (id : ℤ) (p : Player) (h : ℕ)
    → length cells ≡ num_cells
    → let cells' = if is_placement id then set cells (pos_part id) p else cells in
      cells_hash rng cells' 0 h
      ≡ (cells_hash rng cells 0 h xor touched rng cells id h) xor touched rng cells' id h
cells_hash-touched rng cells id p h sized = elim (Bool-cases (is_placement id)) [
  | inl e ↦
      let i = pos_part id in
      let inside : i < length cells = ground arith in
      let back = get_or-set_self cells i p Player.none inside in
      rw (e, back) (cells_hash-set rng cells i 0 h p inside ∙ rw (zero-add i))
  | inr e ↦ rw e (simp xor-zero)
]

module _ (rng : ℕ → ℕ) (board : Board) (id : ℤ) (sized : length board.cells ≡ num_cells) where
  exchange :
      (h : ℕ)
      → (full_hash rng board h xor mask rng board id h) xor mask rng (perform board id) id h
        ≡ full_hash rng (perform board id) h
  exchange h =
      let cells = board.cells in
      let cells' = (perform board id).cells in
      let s = state_hash rng board h in
      let s' = state_hash rng (perform board id) h in
      let old = touched rng cells id h in
      let new = touched rng cells' id h in
      let e : cells_hash rng cells' 0 h ≡ (cells_hash rng cells 0 h xor old) xor new =
        subst
          (λ (c : List Player).
            cells_hash rng c 0 h ≡ (cells_hash rng cells 0 h xor old) xor touched rng c id h)
          (sym (perform-cells board id))
          (cells_hash-touched rng cells id board.stone_to_place h sized) in
      xor_exchange (cells_hash rng cells 0 h) s old new s' ∙ ap (λ t. t xor s') (sym e)

-- On a board with all its cells, any action, legal or not, keeps the signature right.
pub apply-IsHashed :
    (rng : ℕ → ℕ) (board : Board) (id : ℤ)
    → length board.cells ≡ num_cells
    → IsHashed rng board
    → IsHashed rng (apply rng board id)
apply-IsHashed rng board id sized hashed = elim (Bool-cases (is_determined board.result)) [
  | inl over ↦ subst (IsHashed rng) (sym (apply_over rng board id over)) hashed
  | inr going ↦
      let next = perform board id in
      let o : board.result ≡ Result.undetermined = ground arith in
      subst (IsHashed rng) (sym (apply-sealed rng board id o)) (
        ap (λ (z : BoardSignature). after rng next id (after rng board id z)) hashed ∙ λ i.
        (exchange rng board id sized 0 i, exchange rng board id sized 1 i))
]

xor_empty_cells-hash :
    (rng : ℕ → ℕ) (left i : ℕ) (sig : BoardSignature)
    → let cells = replicate left Player.none in
      xor_empty_cells rng left i sig
      ≡ (sig.0 xor cells_hash rng cells i 0, sig.1 xor cells_hash rng cells i 1)
unfolding xor_empty_cells cells_hash
xor_empty_cells-hash rng zero i sig = simp xor-zero
xor_empty_cells-hash rng (suc left) i sig =
    xor_empty_cells-hash rng left (i + 1) (xor_cell rng sig i Player.none) ∙ simp xor_assoc

blank-IsHashed : (rng : ℕ → ℕ) (n : ℕ) → IsHashed rng (toggle_hash rng (blank rng n) (negsuc 0))
blank-IsHashed rng n =
    subst (IsHashed rng)
      (sym (toggle_hash-sealed rng (blank rng n) (negsuc 0) (xor_empty_cells rng n 0 (0, 0))))
      (rw (xor_empty_cells-hash rng n 0 (0, 0)) (simp zero-xor))

pub new_board-IsHashed : (rng : ℕ → ℕ) → IsHashed rng (new_board rng)
unfolding new_board
new_board-IsHashed rng = blank-IsHashed rng num_cells
