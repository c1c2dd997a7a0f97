-- ===== src/Engine/Board/Rules/Hash.antt =====
-- ToggleHash as one exclusive or, and the signature of a board computed from scratch.
use gomoku.Prelude.{
  ℕ, ◌+◌, ◌<◌, ◌≡◌, ap, ◌∙◌, inl, inr, true, List, [], ◌∷◌, if◌then◌else◌, arith, Bool-cases,
  get_or, set,
}
use gomoku.Prelude.Int.{ℤ, pos, pos_part}
use gomoku.Prelude.Xor.{◌xor◌, xor_assoc, zero-xor}
use gomoku.Engine.Action.{is_placement, num_cells}
use gomoku.Engine.Board.{
  Board, is_determined, BoardSignature, Player, Result, toggled, toggle_hash, cell_key, phase_key,
  player_key, stone_to_place_key, seat_a_key, seat_b_key, result_key,
}
use gomoku.Engine.Board.Rules.{apply, perform, place, control, transition_phase}

-- The board with another signature.
abbrev pub sealed : Board → BoardSignature → Board
sealed board sig = record board { zobrists = sig }

module _ (rng : ℕ → ℕ) where
  -- The keys of all but the cells and the signature.
  abbrev pub state_hash : Board → ℕ → ℕ
  state_hash board h =
      phase_key rng board.phase h
      xor (player_key rng board.current_player h
          xor (stone_to_place_key rng board.stone_to_place h
              xor (seat_a_key rng board.seat_a_stone h
                  xor (seat_b_key rng board.seat_b_stone h xor result_key rng board.result h))))

  unfoldable pub cells_hash : List Player → ℕ → ℕ → ℕ
  cells_hash [] i h = 0
  cells_hash (c ∷ cs) i h = cell_key rng h i c xor cells_hash cs (i + 1) h

  abbrev pub full_hash : Board → ℕ → ℕ
  full_hash board h = cells_hash board.cells 0 h xor state_hash board h

  -- The signature that a board has if it is hashed as a whole.
  abbrev pub full_signature : Board → BoardSignature
  full_signature board = (full_hash board 0, full_hash board 1)

  abbrev pub touched : List Player → ℤ → ℕ → ℕ
  touched cells id h =
      if is_placement id
      then cell_key rng h (pos_part id) (get_or cells (pos_part id) Player.none)
      else 0

  -- What ToggleHash adds to the two hashes.
  abbrev pub mask : Board → ℤ → ℕ → ℕ
  mask board id h = touched board.cells id h xor state_hash board h

  pub toggled-mask :
      (board : Board) (id : ℤ)
      → toggled rng board id
        ≡ (board.zobrists.0 xor mask board id 0, board.zobrists.1 xor mask board id 1)
  unfolding toggled
  toggled-mask board id = elim (Bool-cases (is_placement id)) [
    | inl e ↦ rw e (simp xor_assoc)
    | inr e ↦ rw e (simp (xor_assoc, zero-xor))
  ]

pub perform-sealed :
    (board : Board) (sig : BoardSignature) (id : ℤ)
    → perform (sealed board sig) id ≡ sealed (perform board id) sig
unfolding perform place control transition_phase
perform-sealed board sig id = ground arith

pub perform-zobrists : (board : Board) (id : ℤ) → (perform board id).zobrists ≡ board.zobrists
perform-zobrists board id = ap (λ (b : Board). b.zobrists) (perform-sealed board board.zobrists id)

module _ (rng : ℕ → ℕ) where
  -- The signature after ToggleHash on a board with signature `z`.
  abbrev pub after : Board → ℤ → BoardSignature → BoardSignature
  after board id z = (z.0 xor mask rng board id 0, z.1 xor mask rng board id 1)

  pub toggle_hash-sealed :
      (board : Board) (id : ℤ) (z : BoardSignature)
      → toggle_hash rng (sealed board z) id ≡ sealed board (after board id z)
  unfolding toggle_hash
  toggle_hash-sealed board id z = ap (sealed board) (toggled-mask rng (sealed board z) id)

  apply_open :
      (board : Board) (id : ℤ)
      → board.result ≡ Result.undetermined
      → apply rng board id ≡ toggle_hash rng (perform (toggle_hash rng board id) id) id
  unfolding apply
  apply_open board id o = ground arith

  pub apply_over :
      (board : Board) (id : ℤ) → is_determined board.result ≡ true → apply rng board id ≡ board
  unfolding apply
  apply_over board id over = ground arith

  -- Both calls of ToggleHash in Apply, taken out of it.
  pub apply-sealed :
      (board : Board) (id : ℤ)
      → board.result ≡ Result.undetermined
      → apply rng board id
        ≡ sealed (perform board id) (after (perform board id) id (after board id board.zobrists))
  apply-sealed board id o =
      let z = after board id board.zobrists in
      apply_open board id o
      ∙ ap (λ (b : Board). toggle_hash rng (perform b id) id)
          (toggle_hash-sealed board id board.zobrists)
      ∙ ap (λ (b : Board). toggle_hash rng b id) (perform-sealed board z id)
      ∙ toggle_hash-sealed (perform board id) id z

-- What a placement does to the cells, and that a control action leaves them.
pub perform-cells :
    (board : Board) (id : ℤ)
    → (perform board id).cells ≡ (
        if is_placement id then set board.cells (pos_part id) board.stone_to_place else board.cells)
unfolding perform place control transition_phase
perform-cells board id = ground arith

pub perform-place : (board : Board) (i : ℕ) → i < num_cells → perform board (pos i) ≡ place board i
unfolding perform
perform-place board i inside = let within : is_placement (pos i) ≡ true = ground arith in rw within
