-- ===== src/App/BoardViewModel/Tidy.antt =====
-- At most one cell is shown as the latest move and at most one as the ghost.
use gomoku.Prelude.{
  ℕ, ◌+◌, ◌<◌, ◌≡◌, refl, sym, ◌∙◌, Bool, true, false, not, ◌&&◌, List, [], ◌∷◌, arith, ◌*◌, set,
  replicate, ap, length, length-set, if_cases,
}
use gomoku.Prelude.Int.{ℤ, pos, negsuc, in_range, pos_part, ◌==ℤ◌}
use gomoku.Plugin.State.{BoardState, board_size, num_board_cells}
use gomoku.App.BoardViewModel.{
  BoardViewModel, CellData, clear_board, cell_at, lay_ghost, clear_ghost, set_ghost_cell,
  lay_latest, set_cell, set_cell_by_action, set_winning_five, sync_from_board_state, number_moves,
}
use gomoku.App.BoardViewModel.Sync.{length-sync_cells, sync_cells_latest, sync_cells_ghost}
use gomoku.App.BoardViewModel.Marks.{
  Only, NoMark, clear_cells_plain, set-Only, no_clash, in_range_lem, out-NoMark, unmark-NoMark,
}

pub record IsTidy (m : BoardViewModel) : Type 0 where
  pub sized : length m.cells ≡ num_board_cells
  pub one_latest : (i : ℕ) → (cell_at m.cells i).is_latest ≡ true → m.latest_action ≡ pos i
  pub one_ghost : (i : ℕ) → (cell_at m.cells i).is_ghost ≡ true → m.ghost_index ≡ pos i

clear_board-IsTidy : IsTidy clear_board
unfolding clear_board
clear_board-IsTidy = record {
  sized = refl;
  one_latest = λ i h. ground (arith, (clear_cells_plain num_board_cells 0 i).0, h);
  one_ghost = λ i h. ground (arith, (clear_cells_plain num_board_cells 0 i).1, h);
}

lay_ghost-NoMark :
    (m : BoardViewModel) → IsTidy m → NoMark (λ c. c.is_ghost) (lay_ghost m.cells m.ghost_index)
lay_ghost-NoMark m v =
    if_cases (NoMark (λ c. c.is_ghost)) (in_range m.ghost_index num_board_cells)
      (λ e. unmark-NoMark (λ c. c.is_ghost) m.cells m.ghost_index v.sized v.one_ghost _ refl e)
      (λ e. out-NoMark (λ c. c.is_ghost) m.cells m.ghost_index v.sized v.one_ghost refl e)

-- Laying the ghost changes neither the count of the cells nor the latest move.
lay_ghost-sized :
    (m : BoardViewModel) → IsTidy m → length (lay_ghost m.cells m.ghost_index) ≡ num_board_cells
lay_ghost-sized m v =
    if_cases (λ (cs : List CellData). length cs ≡ num_board_cells)
      (in_range m.ghost_index num_board_cells) (λ e. length-set m.cells _ _ ∙ v.sized)
      (λ e. v.sized)

lay_ghost-Only :
    (m : BoardViewModel)
    → IsTidy m
    → Only (λ c. c.is_latest) (lay_ghost m.cells m.ghost_index) m.latest_action
lay_ghost-Only m v =
    if_cases (λ (cs : List CellData). Only (λ c. c.is_latest) cs m.latest_action)
      (in_range m.ghost_index num_board_cells)
      (λ e.
        set-Only (λ c. c.is_latest) m.cells (pos_part m.ghost_index) _ m.latest_action
          (omega (arith, (in_range_lem m.ghost_index num_board_cells e).1, v.sized)) v.one_latest
          (λ k. v.one_latest (pos_part m.ghost_index) k))
      (λ e. v.one_latest)

clear_ghost-IsTidy : (m : BoardViewModel) → IsTidy m → IsTidy (clear_ghost m)
unfolding clear_ghost
clear_ghost-IsTidy m v =
    if_cases IsTidy (in_range m.ghost_index num_board_cells)
      (λ e. record {
        sized = lay_ghost-sized m v;
        one_latest = lay_ghost-Only m v;
        one_ghost = λ i k. absurd (lay_ghost-NoMark m v i k);
      })
      (λ e. v)

cell_inside :
    (x y : ℤ)
    → not (in_range x board_size && in_range y board_size) ≡ false
    → pos_part y * board_size + pos_part x < num_board_cells
cell_inside (pos x) (pos y) h = ground (arith, h)
cell_inside (negsuc x) y h = ground (arith, h)
cell_inside (pos x) (negsuc y) h = ground (arith, h)

set_ghost_cell-IsTidy :
    (m : BoardViewModel) (x y : ℤ) (color : ℤ) → IsTidy m → IsTidy (set_ghost_cell m x y color)
unfolding set_ghost_cell
set_ghost_cell-IsTidy m x y color v =
    let target = pos_part y * board_size + pos_part x in
    if_cases IsTidy (not (in_range x board_size && in_range y board_size))
      (λ e. clear_ghost-IsTidy m v)
      (λ e.
        if_cases IsTidy (not ((cell_at m.cells target).stone_color ==ℤ pos 0))
          (λ _. clear_ghost-IsTidy m v)
          (λ _.
            if_cases IsTidy
              (m.ghost_index ==ℤ pos target && (cell_at m.cells target).ghost_color ==ℤ color)
              (λ _. v)
              (λ _.
                let cells = lay_ghost m.cells m.ghost_index in
                let sized = lay_ghost-sized m v in
                let inside : target < length cells = omega (arith, cell_inside x y e, sized) in
                record {
                  sized = length-set cells target _ ∙ sized;
                  one_latest =
                      set-Only (λ c. c.is_latest) cells target _ m.latest_action inside
                        (lay_ghost-Only m v) (λ k. lay_ghost-Only m v target k);
                  one_ghost =
                      set-Only (λ c. c.is_ghost) cells target _ (pos target) inside
                        (λ i k. absurd (lay_ghost-NoMark m v i k)) (λ k. refl);
                })))

-- The cells after the mark of the latest move was taken away, if a new one comes.
module _ (m : BoardViewModel) (v : IsTidy m) where
  laid-sized :
      (is_latest : Bool) → length (lay_latest m.cells m.latest_action is_latest) ≡ num_board_cells
  laid-sized is_latest =
      if_cases (λ (cs : List CellData). length cs ≡ num_board_cells)
        (in_range m.latest_action num_board_cells && is_latest)
        (λ e. length-set m.cells _ _ ∙ v.sized) (λ e. v.sized)

  laid_ghost :
      (is_latest : Bool)
      → Only (λ c. c.is_ghost) (lay_latest m.cells m.latest_action is_latest) m.ghost_index
  laid_ghost is_latest =
      if_cases (λ (cs : List CellData). Only (λ c. c.is_ghost) cs m.ghost_index)
        (in_range m.latest_action num_board_cells && is_latest)
        (λ e.
          set-Only (λ c. c.is_ghost) m.cells (pos_part m.latest_action) _ m.ghost_index
            (omega (
              arith,
              (in_range_lem m.latest_action num_board_cells (ground (arith, e))).1,
              v.sized,
            ))
            v.one_ghost (λ k. v.one_ghost (pos_part m.latest_action) k))
        (λ e. v.one_ghost)

  laid_none : NoMark (λ c. c.is_latest) (lay_latest m.cells m.latest_action true)
  laid_none =
      if_cases (NoMark (λ c. c.is_latest)) (in_range m.latest_action num_board_cells && true)
        (λ e.
          unmark-NoMark (λ c. c.is_latest) m.cells m.latest_action v.sized v.one_latest _ refl
            (ground (arith, e)))
        (λ e.
          out-NoMark (λ c. c.is_latest) m.cells m.latest_action v.sized v.one_latest refl
            (ground (arith, e)))

  laid_same : Only (λ c. c.is_latest) (lay_latest m.cells m.latest_action false) m.latest_action
  laid_same =
      if_cases (λ (cs : List CellData). Only (λ c. c.is_latest) cs m.latest_action)
        (in_range m.latest_action num_board_cells && false) (λ e. ground (arith, e))
        (λ e. v.one_latest)

  set_cell-IsTidy :
      (x y color : ℤ) (number : ℕ) (is_latest : Bool)
      → IsTidy (set_cell m x y color number is_latest)
  unfolding set_cell
  set_cell-IsTidy x y color number true =
      let target = pos_part y * board_size + pos_part x in
      let cells = lay_latest m.cells m.latest_action true in
      if_cases IsTidy (not (in_range x board_size && in_range y board_size)) (λ e. v)
        (λ e.
          let inside : target < length cells = omega (arith, cell_inside x y e, laid-sized true) in
          record {
            sized = length-set cells target _ ∙ laid-sized true;
            one_latest =
                set-Only (λ c. c.is_latest) cells target _ (pos target) inside
                  (λ i k. absurd (laid_none i k)) (λ k. refl);
            one_ghost =
                set-Only (λ c. c.is_ghost) cells target _ m.ghost_index inside (laid_ghost true)
                  (λ k. absurd (no_clash (sym k)));
          })
  set_cell-IsTidy x y color number false =
      let target = pos_part y * board_size + pos_part x in
      let cells = lay_latest m.cells m.latest_action false in
      if_cases IsTidy (not (in_range x board_size && in_range y board_size)) (λ e. v)
        (λ e.
          let inside : target < length cells = omega (arith, cell_inside x y e, laid-sized false) in
          record {
            sized = length-set cells target _ ∙ laid-sized false;
            one_latest =
                set-Only (λ c. c.is_latest) cells target _ m.latest_action inside laid_same
                  (λ k. absurd (no_clash (sym k)));
            one_ghost =
                set-Only (λ c. c.is_ghost) cells target _ m.ghost_index inside (laid_ghost false)
                  (λ k. absurd (no_clash (sym k)));
          })

  set_cell_by_action-IsTidy :
      (id color : ℤ) (number : ℕ) (is_latest : Bool)
      → IsTidy (set_cell_by_action m id color number is_latest)
  unfolding set_cell_by_action
  set_cell_by_action-IsTidy id color number is_latest =
      if_cases IsTidy (in_range id num_board_cells)
        (λ e. set_cell-IsTidy _ _ color number is_latest) (λ e. v)

  win_one-IsTidy :
      (id : ℤ)
      → in_range id num_board_cells ≡ true
      → IsTidy (record m {
        cells =
            set m.cells
              (pos_part id)
              (record (cell_at m.cells (pos_part id)) { is_winning_five = true });
      })
  win_one-IsTidy id e =
      let inside : pos_part id < length m.cells =
        omega (arith, (in_range_lem id num_board_cells e).1, v.sized) in
      record {
        sized = length-set m.cells _ _ ∙ v.sized;
        one_latest =
            set-Only (λ c. c.is_latest) m.cells (pos_part id) _ m.latest_action inside v.one_latest
              (λ k. v.one_latest (pos_part id) k);
        one_ghost =
            set-Only (λ c. c.is_ghost) m.cells (pos_part id) _ m.ghost_index inside v.one_ghost
              (λ k. v.one_ghost (pos_part id) k);
      }

set_winning_five-IsTidy :
    (ids : List ℤ) (m : BoardViewModel) → IsTidy m → IsTidy (set_winning_five m ids)
unfolding set_winning_five
set_winning_five-IsTidy [] m v = v
set_winning_five-IsTidy (id ∷ ids) m v =
    set_winning_five-IsTidy ids _
      (if_cases IsTidy (in_range id num_board_cells) (win_one-IsTidy m v id) (λ e. v))

-- The calls that change the model.
sync_from_board_state-IsTidy :
    (state : BoardState) (latest_action : ℤ) (move_history : List ℤ)
    → IsTidy (sync_from_board_state state latest_action move_history)
unfolding sync_from_board_state
sync_from_board_state-IsTidy state latest_action move_history =
    let numbers = number_moves move_history 1 (replicate num_board_cells 0) in
    record {
      sized = length-sync_cells state latest_action numbers num_board_cells 0;
      one_latest = λ i h.
          sync_cells_latest state latest_action numbers num_board_cells 0 i h
          ∙ ap pos (omega arith);
      one_ghost = λ i h.
          absurd (ground (arith, sync_cells_ghost state latest_action numbers num_board_cells 0 i));
    }

pub data Change : Type 0 where
  clears hides : Change
  ghosts : ℤ → ℤ → ℤ → Change
  shows : ℤ → ℤ → ℤ → ℕ → Bool → Change
  plays : ℤ → ℤ → ℕ → Bool → Change
  wins : List ℤ → Change
  syncs : BoardState → ℤ → List ℤ → Change

abbrev pub change : BoardViewModel → Change → BoardViewModel
change m clears = clear_board
change m hides = clear_ghost m
change m (ghosts x y color) = set_ghost_cell m x y color
change m (shows x y color number is_latest) = set_cell m x y color number is_latest
change m (plays id color number is_latest) = set_cell_by_action m id color number is_latest
change m (wins ids) = set_winning_five m ids
change m (syncs state latest_action move_history) =
    sync_from_board_state state latest_action move_history

abbrev pub changes : BoardViewModel → List Change → BoardViewModel
changes m [] = m
changes m (c ∷ cs) = changes (change m c) cs

change-IsTidy : (m : BoardViewModel) (c : Change) → IsTidy m → IsTidy (change m c)
change-IsTidy m clears v = clear_board-IsTidy
change-IsTidy m hides v = clear_ghost-IsTidy m v
change-IsTidy m (ghosts x y color) v = set_ghost_cell-IsTidy m x y color v
change-IsTidy m (shows x y color number is_latest) v =
    set_cell-IsTidy m v x y color number is_latest
change-IsTidy m (plays id color number is_latest) v =
    set_cell_by_action-IsTidy m v id color number is_latest
change-IsTidy m (wins ids) v = set_winning_five-IsTidy ids m v
change-IsTidy m (syncs state latest_action move_history) v =
    sync_from_board_state-IsTidy state latest_action move_history

run-IsTidy : (m : BoardViewModel) (cs : List Change) → IsTidy m → IsTidy (changes m cs)
run-IsTidy m [] v = v
run-IsTidy m (c ∷ cs) v = run-IsTidy (change m c) cs (change-IsTidy m c v)

-- After any changes of a new model, with whatever coordinates and ids, there are 225 cells, every cell
-- marked as the latest move is the one at latest_action_, and every ghost the one at ghost_index_: at
-- most one of each is shown.
pub changes-IsTidy : (cs : List Change) → IsTidy (changes clear_board cs)
changes-IsTidy cs = run-IsTidy clear_board cs clear_board-IsTidy
