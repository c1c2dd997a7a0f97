-- ===== src/Engine/Mcts.antt =====
-- engine/src/mcts.h and mcts.cpp: the nodes of the search tree. The children of a node are a forest:
-- its first tree, with the children of that one, and the trees after it. A node is found by the path
-- of the indices that lead to it from the root. Visits are numbers: a virtual loss is taken back
-- only where it was added.
pub mod Policy
pub mod Walk
pub mod Search
pub mod Batch
pub mod Run
pub mod Fits
pub mod Returns
pub mod Visits
pub mod Samples
mod Tests
use gomoku.Prelude.{
  ℕ, zero, suc, ◌+◌, ◌-◌, Bool, true, false, List, [], ◌∷◌, ◌==◌, if◌then◌else◌, get_or, Option,
  none, some,
}
use gomoku.Prelude.Int.{ℤ, pos, negsuc, pos_part, ◌==ℤ◌}
use gomoku.Prelude.Float.{Float}
use gomoku.Engine.Board.{Board, Seat, Phase, ◌==S◌, other_seat}
use gomoku.Engine.Board.Play.{get_legal_actions, get_child_current_player}

-- The fields of MCTSNode but its children.
pub record Info {ℓ} (W : Type ℓ) : Type ℓ where
  pub action_id : ℤ
  pub prior_prob : W
  pub current_player : Seat
  pub visits : ℕ
  pub value_sum : W
  pub is_expanded : Bool

pub data Forest {ℓ} (W : Type ℓ) : Type ℓ where
  nil : Forest W
  tree : Info W → Forest W → Forest W → Forest W

abbrev pub Node {ℓ} : Type ℓ → Type ℓ
Node W = Info W × Forest W

abbrev pub is_nil {ℓ} : {W : Type ℓ} → Forest W → Bool
is_nil nil = true
is_nil (tree info kids rest) = false

-- Board::kNumActions.
abbrev pub num_actions : ℕ
num_actions = 230

-- The seat of a child: in standard play the other one, without asking the board.
abbrev pub child_seat : Board → ℤ → Seat
child_seat board action = elim board.phase [
  | Phase.standard ↦ other_seat board.current_player
  | _ ↦ get_child_current_player board action
]

module _ {ℓ} {W : Type ℓ} where
  -- A change of each node on a path, which also takes the seat of the node above.
  unfoldable pub along : (Seat → Info W → Info W) → List ℕ → Seat → Forest W → Forest W
  along change path seat nil = nil
  along change [] seat (tree info kids rest) = tree info kids rest
  along change (zero ∷ path) seat (tree info kids rest) =
      tree (change seat info) (along change path info.current_player kids) rest
  along change (suc i ∷ path) seat (tree info kids rest) =
      tree info kids (along change (i ∷ path) seat rest)

  -- A change of the node at the end of a path.
  unfoldable pub at_end : (Node W → Node W) → List ℕ → Forest W → Forest W
  at_end change path nil = nil
  at_end change [] (tree info kids rest) = tree info kids rest
  at_end change (zero ∷ []) (tree info kids rest) =
      let (info, kids) = change (info, kids) in tree info kids rest
  at_end change (zero ∷ j ∷ path) (tree info kids rest) =
      tree info (at_end change (j ∷ path) kids) rest
  at_end change (suc i ∷ path) (tree info kids rest) =
      tree info kids (at_end change (i ∷ path) rest)

  unfoldable pub at_node : (Node W → Node W) → List ℕ → Node W → Node W
  at_node change [] node = change node
  at_node change (i ∷ path) (info, kids) = (info, at_end change (i ∷ path) kids)

  -- The child with an action: std::find over the children, and what DetachChild returns of it.
  unfoldable pub detach_child : ℤ → Forest W → Option (Node W)
  detach_child action nil = none
  detach_child action (tree info kids rest) =
      let later = detach_child action rest in
      if info.action_id ==ℤ action then some (info, kids) else later

module _ {ℓ} {W : Type ℓ} ⦃f : Float W⦄ where
  abbrev pub new_info : ℤ → W → Seat → Info W
  new_info action_id prior_prob current_player = record {
    action_id = action_id;
    prior_prob = prior_prob;
    current_player = current_player;
    visits = 0;
    value_sum = f.nought;
    is_expanded = false;
  }

  unfoldable pub make_children : Board → List W → List ℤ → Forest W
  make_children board move_pmf [] = nil
  make_children board move_pmf (action ∷ actions) =
      tree (new_info action (get_or move_pmf (pos_part action) f.nought) (child_seat board action))
        nil (make_children board move_pmf actions)

  unfoldable pub expand : Board → List W → Node W → Node W
  expand board move_pmf (info, kids) = if info.is_expanded then (info, kids) else (
    record info { is_expanded = true },
    make_children board move_pmf (get_legal_actions board),
  )

  abbrev pub update : W → Info W → Info W
  update value info = record info {
    value_sum = f.add info.value_sum value;
    visits = info.visits + 1;
  }

  -- What a virtual loss is for a node, seen from the seat to move there.
  abbrev pub loss : Seat → ℕ → Info W → W
  loss selecting_player virtual_loss info =
      let value = f.of_int (pos virtual_loss) in
      if info.current_player ==S selecting_player then f.neg value else value

  abbrev pub add_virtual_loss : ℕ → Seat → Info W → Info W
  add_virtual_loss virtual_loss selecting_player info = record info {
    visits = info.visits + virtual_loss;
    value_sum = f.add info.value_sum (loss selecting_player virtual_loss info);
  }

  abbrev pub revert_virtual_loss : ℕ → Seat → Info W → Info W
  revert_virtual_loss virtual_loss selecting_player info = record info {
    visits = info.visits - virtual_loss;
    value_sum = f.sub info.value_sum (loss selecting_player virtual_loss info);
  }

  unfoldable pub calculate_puct : Info W → Info W → W → W
  calculate_puct parent child c_puct =
      let raw_q = f.div child.value_sum (f.of_int (pos child.visits)) in
      let q =
        if child.visits == 0
        then f.nought
        else if parent.current_player ==S child.current_player
        then raw_q
        else f.neg raw_q in
      let u =
        f.div (f.mul (f.mul c_puct child.prior_prob) (f.sqrt (f.of_int (pos parent.visits))))
          (f.add f.one (f.of_int (pos child.visits))) in
      f.add q u
