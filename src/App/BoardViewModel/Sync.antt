-- ===== src/App/BoardViewModel/Sync.antt =====
-- The cells after SyncFromBoardState of app/src/core/board_view_model.cpp.
use gomoku.Prelude.{ℕ, zero, suc, ◌+◌, ◌≡◌, refl, ap, ◌∙◌, true, false, List, length, arith}
use gomoku.Prelude.Int.{ℤ, pos, ==ℤ_iff}
use gomoku.Plugin.State.{BoardState}
use gomoku.App.BoardViewModel.{cell_at, sync_cells}

module _ (state : BoardState) (latest_action : ℤ) (numbers : List ℕ) where
  pub length-sync_cells :
      (left index : ℕ) → length (sync_cells state latest_action numbers left index) ≡ left
  length-sync_cells zero index = refl
  length-sync_cells (suc left) index = ap suc (length-sync_cells left (suc index))

  pub sync_cells_latest :
      (left index i : ℕ)
      → (cell_at (sync_cells state latest_action numbers left index) i).is_latest ≡ true
      → latest_action ≡ pos (index + i)
  sync_cells_latest zero index i h = absurd (ground arith)
  sync_cells_latest (suc left) index zero h =
      (==ℤ_iff latest_action (pos index)).0 h ∙ ap pos (omega arith)
  sync_cells_latest (suc left) index (suc i) h =
      sync_cells_latest left (suc index) i h ∙ ap pos (omega arith)

  pub sync_cells_ghost :
      (left index i : ℕ)
      → (cell_at (sync_cells state latest_action numbers left index) i).is_ghost ≡ false
  sync_cells_ghost zero index i = refl
  sync_cells_ghost (suc left) index zero = refl
  sync_cells_ghost (suc left) index (suc i) = sync_cells_ghost left (suc index) i
