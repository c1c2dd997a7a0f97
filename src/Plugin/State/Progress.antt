-- ===== src/Plugin/State/Progress.antt =====
-- ApplyAction keeps the state sound, and each legal action brings the game nearer its end.
use gomoku.Prelude.{
  ℕ, zero, suc, ◌+◌, ◌≤◌, ◌<◌, ◌≡◌, ◌≢◌, refl, sym, ap, ◌∙◌, inl, inr, ◌⊎◌, true, false, ◌↔◌, List,
  [], ◌∷◌, arith, length, length-set, length-replicate, get_or, set, replicate, Bool-cases,
  if◌then◌else◌,
}
use gomoku.Prelude.Int.{ℤ, pos, negsuc, pos_part}
use gomoku.Plugin.State.{
  BoardState, Stone, GamePhase, ◌==St◌, new_state, is_legal_action, may_place, is_placement,
  num_board_cells,
}
use gomoku.Plugin.State.Apply.{transition_phase, place, decide, apply_action}

abbrev pub count_stones : List Stone → ℕ
count_stones [] = 0
count_stones (c ∷ cs) = (if c ==St Stone.empty then 0 else 1) + count_stones cs

-- In the phases that place stones there is a stone to place.
abbrev pub Armed : GamePhase → Stone → Type 0
Armed GamePhase.swap2_decision p = Unit
Armed GamePhase.choose_color p = Unit
Armed _ p = p ≢ Stone.empty

pub record IsSound (s : BoardState) : Type 0 where
  pub sized : length s.cells ≡ num_board_cells
  pub counted : s.move_count ≡ count_stones s.cells
  pub armed : Armed s.phase s.stone_to_place

-- The choices of Swap2 that lie behind a phase, at most.
abbrev pub choices : GamePhase → ℕ
choices GamePhase.place_initial_three = 0
choices GamePhase.swap2_decision = 0
choices GamePhase.swap2_place_two = 1
choices GamePhase.choose_color = 1
choices GamePhase.standard = 2

abbrev pub actions : BoardState → ℕ
actions s = s.move_count + choices s.phase

count_stones-set :
    (cells : List Stone) (i : ℕ) (p : Stone)
    → i < length cells
    → get_or cells i Stone.empty ≡ Stone.empty
    → p ≢ Stone.empty
    → count_stones (set cells i p) ≡ count_stones cells + 1
count_stones-set [] i p h e ne = elim h [ ]
count_stones-set (c ∷ cs) zero p h e ne = ground arith
count_stones-set (c ∷ cs) (suc i) p h e ne =
    omega (arith, count_stones-set cs i p (omega arith) e ne)

count_stones-le : (cells : List Stone) → count_stones cells ≤ length cells
count_stones-le [] = omega arith
count_stones-le (c ∷ cs) = ground (arith, count_stones-le cs)

pub IsSound-actions : {s : BoardState} → IsSound s → actions s ≤ num_board_cells + 2
IsSound-actions {s} v = ground (arith, count_stones-le s.cells, v.sized, v.counted)

-- One legal action further.
pub record Advances (s t : BoardState) : Type 0 where
  pub sound : IsSound t
  pub further : actions s + 1 ≤ actions t

-- What a placement leaves, on each of its branches.
place-cells : (s : BoardState) (i : ℕ) → (place s i).cells ≡ set s.cells i s.stone_to_place
unfolding place transition_phase
place-cells s i = ground arith

place-count : (s : BoardState) (i : ℕ) → (place s i).move_count ≡ s.move_count + 1
unfolding place transition_phase
place-count s i = ground arith

place-choices : (s : BoardState) (i : ℕ) → choices (place s i).phase ≡ choices s.phase
unfolding place transition_phase
place-choices s i = ground arith

place-Armed :
    (s : BoardState) (ph : GamePhase) (i : ℕ)
    → s.phase ≡ ph
    → s.stone_to_place ≢ Stone.empty
    → Armed (place s i).phase (place s i).stone_to_place
unfolding place transition_phase
place-Armed s GamePhase.place_initial_three i e arm = ground arith
place-Armed s GamePhase.swap2_decision i e arm = ground arith
place-Armed s GamePhase.swap2_place_two i e arm = ground arith
place-Armed s GamePhase.choose_color i e arm = ground arith
place-Armed s GamePhase.standard i e arm = ground arith

place-Advances :
    (s : BoardState) (i : ℕ)
    → IsSound s
    → s.stone_to_place ≢ Stone.empty
    → i < num_board_cells
    → get_or s.cells i Stone.empty ≡ Stone.empty
    → Advances s (place s i)
place-Advances s i v arm inside free =
    let cells = ap length (place-cells s i) ∙ length-set s.cells i s.stone_to_place in
    let n = count_stones-set s.cells i s.stone_to_place (ground (arith, v.sized)) free arm in
    record {
      sound = record {
        sized = cells ∙ v.sized;
        counted = omega (arith, place-count s i, ap count_stones (place-cells s i), n, v.counted);
        armed = place-Armed s s.phase i refl arm;
      };
      further = omega (arith, place-count s i, place-choices s i);
    }

may_place_lem :
    (cells : List Stone) (id : ℤ)
    → may_place cells id ≡ true
    → (pos_part id < num_board_cells)
      × (get_or cells (pos_part id) Stone.empty ≡ Stone.empty)
      × (is_placement id ≡ true)
may_place_lem cells (pos i) h = ground arith
may_place_lem cells (negsuc i) h = ground arith

placing-Advances :
    (s : BoardState) (id : ℤ)
    → IsSound s
    → s.stone_to_place ≢ Stone.empty
    → is_legal_action s id ≡ true
    → may_place s.cells id ≡ true
    → Advances s (apply_action s id)
unfolding apply_action
placing-Advances s id v arm legal h =
    let (inside, free, placement) = may_place_lem s.cells id h in
    rw (legal, placement) (place-Advances s (pos_part id) v arm inside free)

-- A choice of Swap2: the cells and the count stay, and the phase goes on.
deciding-Advances :
    (s : BoardState) (ph : GamePhase) (id : ℤ)
    → s.phase ≡ ph
    → (ph ≡ GamePhase.swap2_decision) ⊎ (ph ≡ GamePhase.choose_color)
    → IsSound s
    → is_legal_action s id ≡ true
    → Advances s (apply_action s id)
unfolding apply_action decide is_legal_action
deciding-Advances s ph id e d v h = record {
  sound = record {
    sized = ground (arith, v.sized);
    counted = ground (arith, v.counted);
    armed = ground arith;
  };
  further = ground arith;
}

legal-Advances :
    (s : BoardState) (ph : GamePhase) (id : ℤ)
    → s.phase ≡ ph
    → IsSound s
    → Armed ph s.stone_to_place
    → is_legal_action s id ≡ true
    → Advances s (apply_action s id)
unfolding is_legal_action
legal-Advances s GamePhase.place_initial_three id e v arm h =
    placing-Advances s id v arm h (ground arith)
legal-Advances s GamePhase.swap2_decision id e v arm h = deciding-Advances s _ id e (inl refl) v h
legal-Advances s GamePhase.swap2_place_two id e v arm h =
    placing-Advances s id v arm h (ground arith)
legal-Advances s GamePhase.choose_color id e v arm h = deciding-Advances s _ id e (inr refl) v h
legal-Advances s GamePhase.standard id e v arm h = placing-Advances s id v arm h (ground arith)

-- A legal action leaves a sound state, which is one action further on the way of at most 227.
pub apply_action-Advances :
    (s : BoardState) (id : ℤ)
    → IsSound s
    → is_legal_action s id ≡ true
    → Advances s (apply_action s id) × (actions (apply_action s id) ≤ num_board_cells + 2)
apply_action-Advances s id v h =
    let next = legal-Advances s s.phase id refl v v.armed h in (next, IsSound-actions next.sound)

-- On a sound state ApplyAction changes something exactly if the action is legal.
pub apply_action_iff :
    (s : BoardState) (id : ℤ) → IsSound s → (apply_action s id ≡ s) ↔ (is_legal_action s id ≡ false)
unfolding apply_action
apply_action_iff s id v = (
  λ same. elim (Bool-cases (is_legal_action s id)) [
    | inl legal ↦
        let next = legal-Advances s s.phase id refl v v.armed legal in
        absurd (omega (arith, next.further, ap actions same))
    | inr illegal ↦ illegal
  ],
  λ illegal. rw illegal,
)

count_stones-replicate : (n : ℕ) → count_stones (replicate n Stone.empty) ≡ 0
count_stones-replicate zero = refl
count_stones-replicate (suc n) = omega (arith, count_stones-replicate n)

pub new_state-IsSound : IsSound new_state
unfolding new_state
new_state-IsSound = record {
  sized = length-replicate num_board_cells Stone.empty;
  counted = sym (count_stones-replicate num_board_cells);
  armed = λ e. ground arith;
}
