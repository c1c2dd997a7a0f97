-- ===== src/App/BoardViewModel.antt =====
-- app/src/core/board_view_model.h and board_view_model.cpp: the cells that the board shows. The
-- signals to the interface are left out.
pub mod Marks
pub mod Sync
pub mod Tidy
use gomoku.Prelude.{
  ℕ, zero, suc, ◌+◌, ◌*◌, ◌/◌, ◌%◌, Bool, true, false, ◌&&◌, not, List, [], ◌∷◌, ◌==◌,
  if◌then◌else◌, get_or, set, replicate,
}
use gomoku.Prelude.Int.{ℤ, pos, negsuc, in_range, pos_part, ◌==ℤ◌}
use gomoku.Plugin.State.{BoardState, Stone, stone_id, board_size, num_board_cells}

pub record CellData : Type 0 where
  pub x : ℕ
  pub y : ℕ
  pub stone_color : ℤ
  pub move_number : ℕ
  pub is_latest : Bool
  pub is_winning_five : Bool
  pub is_ghost : Bool
  pub ghost_color : ℤ

pub record BoardViewModel : Type 0 where
  pub cells : List CellData
  pub latest_action : ℤ
  pub ghost_index : ℤ

abbrev pub clear_cell : ℕ → CellData
clear_cell index = record {
  x = index % board_size;
  y = index / board_size;
  stone_color = pos 0;
  move_number = 0;
  is_latest = false;
  is_winning_five = false;
  is_ghost = false;
  ghost_color = pos 0;
}

-- The two loops over the cells, in the order of their index, `left` rounds from `index`.
abbrev pub clear_cells : ℕ → ℕ → List CellData
clear_cells zero index = []
clear_cells (suc left) index = clear_cell index ∷ clear_cells left (suc index)

unfoldable pub clear_board : BoardViewModel
clear_board = record {
  cells = clear_cells num_board_cells 0;
  latest_action = negsuc 0;
  ghost_index = negsuc 0;
}

abbrev pub cell_at : List CellData → ℕ → CellData
cell_at cells i = get_or cells i (clear_cell 0)

abbrev pub lay_ghost : List CellData → ℤ → List CellData
lay_ghost cells index =
    if in_range index num_board_cells
    then set cells (pos_part index)
        (record (cell_at cells (pos_part index)) { is_ghost = false; ghost_color = pos 0 })
    else cells

unfoldable pub clear_ghost : BoardViewModel → BoardViewModel
clear_ghost m =
    if in_range m.ghost_index num_board_cells
    then record m { cells = lay_ghost m.cells m.ghost_index; ghost_index = negsuc 0 }
    else m

unfoldable pub set_ghost_cell : BoardViewModel → ℤ → ℤ → ℤ → BoardViewModel
set_ghost_cell m x y ghost_color =
    let target = pos_part y * board_size + pos_part x in
    let cells = lay_ghost m.cells m.ghost_index in
    if not (in_range x board_size && in_range y board_size)
    then clear_ghost m
    else if not ((cell_at m.cells target).stone_color ==ℤ pos 0)
    then clear_ghost m
    else if m.ghost_index ==ℤ pos target && (cell_at m.cells target).ghost_color ==ℤ ghost_color
    then m
    else record m {
      cells =
          set cells target
            (record (cell_at cells target) { is_ghost = true; ghost_color = ghost_color });
      ghost_index = pos target;
    }

abbrev pub lay_latest : List CellData → ℤ → Bool → List CellData
lay_latest cells latest_action is_latest =
    if in_range latest_action num_board_cells && is_latest
    then set cells (pos_part latest_action)
        (record (cell_at cells (pos_part latest_action)) { is_latest = false })
    else cells

unfoldable pub set_cell : BoardViewModel → ℤ → ℤ → ℤ → ℕ → Bool → BoardViewModel
set_cell m x y stone_color move_number is_latest =
    let index = pos_part y * board_size + pos_part x in
    let cells = lay_latest m.cells m.latest_action is_latest in
    if not (in_range x board_size && in_range y board_size) then m else record m {
      cells = set cells index (record (cell_at cells index) {
        stone_color = stone_color;
        move_number = move_number;
        is_latest = is_latest;
        is_ghost = false;
      });
      latest_action = if is_latest then pos index else m.latest_action;
    }

unfoldable pub set_cell_by_action : BoardViewModel → ℤ → ℤ → ℕ → Bool → BoardViewModel
set_cell_by_action m action_id stone_color move_number is_latest =
    if in_range action_id num_board_cells
    then set_cell m (pos (pos_part action_id % board_size)) (pos (pos_part action_id / board_size))
        stone_color move_number is_latest
    else m

unfoldable pub set_winning_five : BoardViewModel → List ℤ → BoardViewModel
set_winning_five m [] = m
set_winning_five m (action_id ∷ ids) =
    set_winning_five
      (if in_range action_id num_board_cells
        then record m {
          cells =
              set m.cells (pos_part action_id)
                (record (cell_at m.cells (pos_part action_id)) { is_winning_five = true });
        }
        else m)
      ids

-- The numbers of the cells' placements, in the order of the moves.
abbrev pub number_moves : List ℤ → ℕ → List ℕ → List ℕ
number_moves [] move_num numbers = numbers
number_moves (act ∷ move_history) move_num numbers =
    let placed = in_range act num_board_cells in
    number_moves move_history (if placed then suc move_num else move_num)
      (if placed then set numbers (pos_part act) move_num else numbers)

abbrev pub sync_cell : BoardState → ℤ → List ℕ → ℕ → CellData
sync_cell state latest_action numbers index = record {
  x = index % board_size;
  y = index / board_size;
  stone_color = pos (stone_id (get_or state.cells index Stone.empty));
  move_number = get_or numbers index 0;
  is_latest = latest_action ==ℤ pos index;
  is_winning_five = false;
  is_ghost = false;
  ghost_color = pos 0;
}

abbrev pub sync_cells : BoardState → ℤ → List ℕ → ℕ → ℕ → List CellData
sync_cells state latest_action numbers zero index = []
sync_cells state latest_action numbers (suc left) index =
    sync_cell state latest_action numbers index
    ∷ sync_cells state latest_action numbers left (suc index)

-- SyncFromBoardState, which writes every field of the model.
unfoldable pub sync_from_board_state : BoardState → ℤ → List ℤ → BoardViewModel
sync_from_board_state state latest_action move_history = record {
  cells =
      sync_cells state latest_action (number_moves move_history 1 (replicate num_board_cells 0))
        num_board_cells 0;
  latest_action = latest_action;
  ghost_index = negsuc 0;
}
