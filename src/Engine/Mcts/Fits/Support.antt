-- ===== src/Engine/Mcts/Fits/Support.antt =====
-- The policies of engine/src/mcts.cpp give weight to legal actions only.
use gomoku.Prelude.{
  ℕ, ◌<◌, ◌≡◌, ◌≢◌, refl, sym, ap, subst, ◌∙◌, inl, inr, true, false, List, [], ◌∷◌, Option, none,
  some, arith, if_both, get_or, set, get_or-set_ne, get_or-replicate, Bool-cases, if◌then◌else◌,
}
use gomoku.Prelude.Int.{ℤ, pos, negsuc, pos_part, contains, ==ℤ_iff}
use gomoku.Prelude.Float.{Float}
use gomoku.Engine.Board.{Board, Player, Phase}
use gomoku.Engine.Board.Play.{get_legal_actions}
use gomoku.Engine.Board.Play.Legal.{get_legal_actions_iff}
use gomoku.Engine.Board.Rules.Valid.{LegalIn}
use gomoku.Engine.Mcts.{Info, Forest, nil, tree, Node, num_actions}
use gomoku.Engine.Mcts.Policy.{
  no_policy, is_legal_action, get_solved_action, make_solved_policy, write_all,
  make_uniform_legal_policy, write_children, make_prior_policy,
}
use gomoku.Engine.Mcts.Search.{make_visit_policy}
use gomoku.Engine.Mcts.Run.{early_policy}
use gomoku.Engine.Mcts.Fits.{Fits, FitsRoot}

in_phase :
    (ph : Phase) (cells : List Player) (id : ℤ) → LegalIn ph cells id → id ≡ pos (pos_part id)
in_phase Phase.place_initial_three cells id (i, e, inside, free) = ground arith
in_phase Phase.swap2_decision cells id l = ground arith
in_phase Phase.swap2_place_two cells id (i, e, inside, free) = ground arith
in_phase Phase.choose_color cells id l = ground arith
in_phase Phase.standard cells id (i, e, inside, free) = ground arith

pub is_pos :
    (board : Board) (id : ℤ) → contains (get_legal_actions board) id ≡ true → id ≡ pos (pos_part id)
is_pos board id h =
    in_phase board.phase board.cells id ((get_legal_actions_iff board id).0 h).allowed

bound_in :
    (ph : Phase) (cells : List Player) (id : ℤ) → LegalIn ph cells id → pos_part id < num_actions
bound_in Phase.place_initial_three cells id (i, e, inside, free) = ground arith
bound_in Phase.swap2_decision cells id l = ground arith
bound_in Phase.swap2_place_two cells id (i, e, inside, free) = ground arith
bound_in Phase.choose_color cells id l = ground arith
bound_in Phase.standard cells id (i, e, inside, free) = ground arith

pub legal_bound :
    (board : Board) (id : ℤ)
    → contains (get_legal_actions board) id ≡ true
    → pos_part id < num_actions
legal_bound board id h =
    bound_in board.phase board.cells id ((get_legal_actions_iff board id).0 h).allowed

module _ {ℓ} {W : Type ℓ} ⦃f : Float W⦄ where
  abbrev pub LegalOnly : Board → List W → Type ℓ
  LegalOnly board policy =
      (i : ℕ)
      → contains (get_legal_actions board) (pos i) ≡ false
      → get_or policy i f.nought ≡ f.nought

  pub no_policy-LegalOnly : (board : Board) → LegalOnly board no_policy
  no_policy-LegalOnly board i h = get_or-replicate num_actions i f.nought

  set-LegalOnly :
      (board : Board) (policy : List W) (id : ℤ) (v : W)
      → contains (get_legal_actions board) id ≡ true
      → LegalOnly board policy
      → LegalOnly board (set policy (pos_part id) v)
  set-LegalOnly board policy id v l only i h =
      get_or-set_ne policy (pos_part id) i v f.nought (λ e. true≢false (
        sym (
          subst (λ k. contains (get_legal_actions board) k ≡ true) (is_pos board id l ∙ ap pos e) l)
        ∙ h))
      ∙ only i h
    where
      true≢false : true ≢ false
      true≢false e = cc

  make_solved_policy-LegalOnly :
      (board : Board) (id : ℤ)
      → contains (get_legal_actions board) id ≡ true
      → LegalOnly board (make_solved_policy id)
  unfolding make_solved_policy
  make_solved_policy-LegalOnly board id l =
      set-LegalOnly board no_policy id f.one l (no_policy-LegalOnly board)

  pub write_all-LegalOnly :
      (board : Board) (ids : List ℤ) (value : ℤ → W) (policy : List W)
      → ((id : ℤ) → contains ids id ≡ true → contains (get_legal_actions board) id ≡ true)
      → LegalOnly board policy
      → LegalOnly board (write_all ids value policy)
  unfolding write_all
  write_all-LegalOnly board [] value policy all only = only
  write_all-LegalOnly board (id ∷ ids) value policy all only =
      write_all-LegalOnly board ids value (set policy (pos_part id) (value id))
        (λ a h. all a (ground (arith, h)))
        (set-LegalOnly board policy id (value id) (all id (ground (arith, (==ℤ_iff id id).1 refl)))
          only)

  make_uniform-LegalOnly : (board : Board) → LegalOnly board (make_uniform_legal_policy board)
  unfolding make_uniform_legal_policy
  make_uniform-LegalOnly board =
      write_all-LegalOnly board (get_legal_actions board) _ no_policy (λ id h. h)
        (no_policy-LegalOnly board)

  module _ (rng : ℕ → ℕ) where
    write_children-LegalOnly :
        (board : Board) (kids : Forest W) (value : Info W → W) (policy : List W)
        → Fits rng board kids
        → LegalOnly board policy
        → LegalOnly board (write_children kids value policy)
    unfolding write_children
    write_children-LegalOnly board nil value policy fit only = only
    write_children-LegalOnly board (tree info kids rest) value policy (legal, right, below, later)
          only =
        write_children-LegalOnly board rest value
          (set policy (pos_part info.action_id) (value info)) later
          (set-LegalOnly board policy info.action_id (value info)
            ((get_legal_actions_iff board info.action_id).1 legal) only)

    pub make_prior_policy-LegalOnly :
        (board : Board) (kids : Forest W)
        → Fits rng board kids
        → LegalOnly board (make_prior_policy kids)
    unfolding make_prior_policy
    make_prior_policy-LegalOnly board kids fit =
        if_both (LegalOnly board) _
          (write_children-LegalOnly board kids _ no_policy fit (no_policy-LegalOnly board))
          (write_children-LegalOnly board kids _ no_policy fit (no_policy-LegalOnly board))

    pub make_visit_policy-LegalOnly :
        (board : Board) (kids : Forest W)
        → Fits rng board kids
        → LegalOnly board (make_visit_policy kids)
    unfolding make_visit_policy
    make_visit_policy-LegalOnly board kids fit =
        if_both (LegalOnly board) _
          (write_children-LegalOnly board kids _ no_policy fit (no_policy-LegalOnly board))
          (make_prior_policy-LegalOnly board kids fit)

    pub early_policy-LegalOnly :
        (board : Board) (root : Option (Node W))
        → FitsRoot rng board root
        → LegalOnly board (early_policy board root)
    early_policy-LegalOnly board none fit = make_uniform-LegalOnly board
    early_policy-LegalOnly board (some (info, kids)) (right, below) =
        make_prior_policy-LegalOnly board kids below

-- The first action of a winning line, if it is legal.
answered :
    (board : Board) (line : List ℤ) (n : ℕ)
    → (elim line [
      | [] ↦ negsuc 0
      | action ∷ more ↦ if is_legal_action board action then action else negsuc 0
    ])
      ≡ pos n
    → contains (get_legal_actions board) (pos n) ≡ true
answered board [] n e = ground arith
answered board (action ∷ line) n e = elim (Bool-cases (is_legal_action board action)) [
  | inl h ↦ subst (λ a. contains (get_legal_actions board) a ≡ true) (ground arith) h
  | inr h ↦ ground arith
]

solved_is_legal :
    (board : Board) (solver : Option (Board → List ℤ)) (n : ℕ)
    → get_solved_action board solver ≡ pos n
    → contains (get_legal_actions board) (pos n) ≡ true
unfolding get_solved_action
solved_is_legal board none n e = ground arith
solved_is_legal board (some solver) n e = answered board (solver board) n e

pub solved_action-LegalOnly {ℓ} :
    {W : Type ℓ} ⦃f : Float W⦄ (board : Board) (solver : Option (Board → List ℤ)) (n : ℕ)
    → get_solved_action board solver ≡ pos n
    → LegalOnly board (make_solved_policy {W = W} (pos n))
solved_action-LegalOnly board solver n e =
    make_solved_policy-LegalOnly board (pos n) (solved_is_legal board solver n e)
