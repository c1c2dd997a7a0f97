-- ===== src/Engine/Mcts/Fits.antt =====
-- What the search tree has to do with the game: every node stands for the board that its actions
-- lead to.
pub mod Path
pub mod Descent
pub mod Rounds
pub mod Support
pub mod Root
pub mod Whole
use gomoku.Prelude.{
  ℕ, zero, suc, ◌≡◌, refl, sym, ap, subst, ◌∙◌, inl, inr, Bool, true, false, List, [], ◌∷◌, Option,
  none, some, arith, if_cases,
}
use gomoku.Prelude.Int.{ℤ, contains, ◌==ℤ◌, ==ℤ_iff}
use gomoku.Prelude.Float.{Float}
use gomoku.Engine.Board.{Board, Seat, Phase}
use gomoku.Engine.Board.Play.{get_legal_actions, get_child_current_player}
use gomoku.Engine.Board.Play.Legal.{get_legal_actions_iff}
use gomoku.Engine.Board.Rules.{apply}
use gomoku.Engine.Board.Rules.Valid.{IsValid, IsLegal}
use gomoku.Engine.Board.Rules.Turn.{get_child_current_player-apply}
use gomoku.Engine.Mcts.{
  Info, Forest, nil, tree, Node, child_seat, make_children, expand, along, detach_child,
}

abbrev pub ids {ℓ} : {W : Type ℓ} → Forest W → List ℤ
ids nil = []
ids (tree info kids rest) = info.action_id ∷ ids rest

-- A node at a board: its seat is the one to move, and its children, once it is expanded, are the
-- legal actions in their order.
pub record IsRight {ℓ} {W : Type ℓ} (board : Board) (info : Info W) (kids : Forest W) : Type ℓ where
  pub seat : info.current_player ≡ board.current_player
  pub opened : info.is_expanded ≡ true → ids kids ≡ get_legal_actions board
  pub closed : info.is_expanded ≡ false → kids ≡ nil

-- The children of a node at a board.
abbrev pub Fits {ℓ} : {W : Type ℓ} → (ℕ → ℕ) → Board → Forest W → Type ℓ
Fits rng board nil = Unit
Fits rng board (tree info kids rest) =
    IsLegal board info.action_id
    × IsRight (apply rng board info.action_id) info kids
    × Fits rng (apply rng board info.action_id) kids
    × Fits rng board rest

abbrev pub FitsNode {ℓ} : {W : Type ℓ} → (ℕ → ℕ) → Board → Node W → Type ℓ
FitsNode rng board (info, kids) = IsRight board info kids × Fits rng board kids

-- The root that the state holds, if any.
abbrev pub FitsRoot {ℓ} : {W : Type ℓ} → (ℕ → ℕ) → Board → Option (Node W) → Type ℓ
FitsRoot rng board none = Unit
FitsRoot rng board (some node) = FitsNode rng board node

-- The fields by which a node fits.
pub record KeepsFit {ℓ} {W : Type ℓ} (old new : Info W) : Type ℓ where
  pub same_action : new.action_id ≡ old.action_id
  pub same_seat : new.current_player ≡ old.current_player
  pub same_state : new.is_expanded ≡ old.is_expanded

child_seat-get :
    (board : Board) (ph : Phase) (a : ℤ)
    → board.phase ≡ ph
    → child_seat board a ≡ get_child_current_player board a
unfolding get_child_current_player
child_seat-get board Phase.place_initial_three a e = ground arith
child_seat-get board Phase.swap2_decision a e = ground arith
child_seat-get board Phase.swap2_place_two a e = ground arith
child_seat-get board Phase.choose_color a e = ground arith
child_seat-get board Phase.standard a e = ground arith

pub child_seat_lem :
    (rng : ℕ → ℕ) (board : Board) (a : ℤ)
    → IsValid board
    → IsLegal board a
    → child_seat board a ≡ (apply rng board a).current_player
child_seat_lem rng board a v l =
    child_seat-get board board.phase a refl ∙ sym (get_child_current_player-apply rng board a v l)

module _ {ℓ} {W : Type ℓ} (rng : ℕ → ℕ) where
  pub replace-IsRight :
      (board : Board) (old new : Info W) (kids others : Forest W)
      → KeepsFit old new
      → ids others ≡ ids kids
      → (kids ≡ nil → others ≡ nil)
      → IsRight board old kids
      → IsRight board new others
  replace-IsRight board old new kids others k same none_left v = record {
    seat = k.same_seat ∙ v.seat;
    opened = λ e. same ∙ v.opened (sym k.same_state ∙ e);
    closed = λ e. none_left (v.closed (sym k.same_state ∙ e));
  }

  module _ (change : Seat → Info W → Info W)
      (keeps : (seat : Seat) (info : Info W) → KeepsFit info (change seat info)) where
    pub ids-along :
        (path : List ℕ) (seat : Seat) (kids : Forest W)
        → ids (along change path seat kids) ≡ ids kids
    unfolding along
    ids-along path seat nil = refl
    ids-along [] seat (tree info kids rest) = refl
    ids-along (zero ∷ path) seat (tree info kids rest) =
        ap (λ a. a ∷ ids rest) (keeps seat info).same_action
    ids-along (suc i ∷ path) seat (tree info kids rest) =
        ap (λ l. info.action_id ∷ l) (ids-along (i ∷ path) seat rest)

    pub nil-along :
        (path : List ℕ) (seat : Seat) (kids : Forest W)
        → kids ≡ nil
        → along change path seat kids ≡ nil
    unfolding along
    nil-along path seat kids e = ap (along change path seat) e

    pub along-Fits :
        (path : List ℕ) (seat : Seat) (board : Board) (kids : Forest W)
        → Fits rng board kids
        → Fits rng board (along change path seat kids)
    unfolding along
    along-Fits path seat board nil v = v
    along-Fits [] seat board (tree info kids rest) v = v
    along-Fits (zero ∷ path) seat board (tree info kids rest) (legal, right, below, later) =
        let k = keeps seat info in
        let same = sym k.same_action in
        (
          subst (IsLegal board) same legal,
          subst
              (λ a.
                IsRight (apply rng board a) (change seat info)
                  (along change path info.current_player kids))
              same
              (replace-IsRight (apply rng board info.action_id) info (change seat info) kids _ k
                (ids-along path info.current_player kids) (nil-along path info.current_player kids)
                right),
          subst (λ a. Fits rng (apply rng board a) (along change path info.current_player kids))
              same
              (along-Fits path info.current_player (apply rng board info.action_id) kids below),
          later,
        )
    along-Fits (suc i ∷ path) seat board (tree info kids rest) (legal, right, below, later) =
        (legal, right, below, along-Fits (i ∷ path) seat board rest later)

  module _ ⦃f : Float W⦄ where
    ids-make_children :
        (board : Board) (pmf : List W) (actions : List ℤ)
        → ids (make_children board pmf actions) ≡ actions
    unfolding make_children
    ids-make_children board pmf [] = refl
    ids-make_children board pmf (a ∷ actions) =
        ap (λ l. a ∷ l) (ids-make_children board pmf actions)

    make_children-Fits :
        (board : Board) (pmf : List W) (actions : List ℤ)
        → IsValid board
        → ((a : ℤ) → contains actions a ≡ true → IsLegal board a)
        → Fits rng board (make_children board pmf actions)
    unfolding make_children
    make_children-Fits board pmf [] v l = tt
    make_children-Fits board pmf (a ∷ actions) v l =
        let legal = l a (ground (arith, (==ℤ_iff a a).1 refl)) in
        (
          legal,
          record {
            seat = child_seat_lem rng board a v legal;
            opened = λ e. ground arith;
            closed = λ e. refl;
          },
          tt,
          make_children-Fits board pmf actions v (λ b h. l b (ground (arith, h))),
        )

    -- Expanding a node at its board.
    pub expand-FitsNode :
        (board : Board) (pmf : List W) (node : Node W)
        → IsValid board
        → FitsNode rng board node
        → FitsNode rng board (expand board pmf node)
    unfolding expand
    expand-FitsNode board pmf (info, kids) v (right, below) =
        if_cases (FitsNode rng board) info.is_expanded (λ e. (right, below))
          (λ e. (
            record {
              seat = right.seat;
              opened = λ h. ids-make_children board pmf (get_legal_actions board);
              closed = λ h. ground arith;
            },
            make_children-Fits board pmf (get_legal_actions board) v
                (λ a h. (get_legal_actions_iff board a).0 h),
          ))

  -- The child that SelectAction keeps fits the board after its action.
  pub detach_child-FitsRoot :
      (board : Board) (a : ℤ) (kids : Forest W)
      → Fits rng board kids
      → FitsRoot rng (apply rng board a) (detach_child a kids)
  unfolding detach_child
  detach_child-FitsRoot board a nil v = tt
  detach_child-FitsRoot board a (tree info kids rest) (legal, right, below, later) =
      if_cases (FitsRoot rng (apply rng board a)) (info.action_id ==ℤ a)
        (λ e.
          subst (λ b. FitsNode rng (apply rng board b) (info, kids))
            ((==ℤ_iff info.action_id a).0 e) (right, below))
        (λ e. detach_child-FitsRoot board a rest later)
