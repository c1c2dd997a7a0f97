-- ===== src/Engine/Board/Win/Exact.antt =====
-- CheckWin finds exactly the lines of five: the walks end on the board's edge at the latest, and
-- count the stones that lie in a row.
use gomoku.Prelude.{
  ℕ, zero, suc, ◌+◌, ◌-◌, ◌≤◌, ◌<◌, ◌≡◌, refl, ◌∙◌, ◌↔◌, ◌⊎◌, inl, inr, true, false, ◌==◌, ==_iff,
  Bool-cases, List, [], ◌∷◌, arith,
}
use gomoku.Prelude.Int.{ℤ, pos, negsuc, ◌+ℤ◌, ◌-ℤ◌, in_range, pos_part}
use gomoku.Engine.Board.{Player, size}
use gomoku.Engine.Board.Win.{
  holds, forward, backward, count_line, check_lines, check_win, directions, walk_fuel,
}

-- The coordinate `k` steps on.
abbrev pub along : ℤ → ℤ → ℕ → ℤ
along x d zero = x
along x d (suc k) = along (x +ℤ d) d k

-- From (x, y) on, exactly `n` cells in a row are on the board and hold `p`: those before the n-th
-- do, and the n-th does not.
abbrev pub Run : List Player → Player → ℤ → ℤ → ℤ → ℤ → ℕ → Type 0
Run cells p x y dx dy n =
    ((k : ℕ) → k < n → holds cells p (along x dx k) (along y dy k) ≡ true)
    × (holds cells p (along x dx n) (along y dy n) ≡ false)

abbrev pub negate : ℤ → ℤ
negate d = pos 0 -ℤ d

-- A line of exactly five through (x, y), which has a stone: the runs on its two sides have four.
abbrev pub FiveAlong : List Player → Player → ℤ → ℤ → ℤ × ℤ → Type 0
FiveAlong cells p x y (dx, dy) =
    (n : ℕ) × (m : ℕ) × Run cells p (x +ℤ dx) (y +ℤ dy) dx dy n
    × Run cells p (x +ℤ negate dx) (y +ℤ negate dy) (negate dx) (negate dy) m
    × (n + m ≡ 4)

abbrev pub Any : {A : Type 0} → (A → Type 0) → List A → Type 0
Any P [] = ⊥
Any P (x ∷ xs) = P x ⊎ Any P xs

-- The steps by `d` that are left before a coordinate leaves the board.
abbrev left : ℤ → ℤ → ℕ
left (pos d) x = 15 - pos_part x
left (negsuc d) (pos x) = x + 1
left (negsuc d) (negsuc x) = 0

abbrev IsUnit : ℤ → Type 0
IsUnit d = (d ≡ pos 1) ⊎ (d ≡ negsuc 0)

left-falls : (d x : ℤ) → IsUnit d → in_range x size ≡ true → left d (x +ℤ d) < left d x
unfolding ◌+ℤ◌
left-falls d (pos x) (inl e) h = rw e (ground arith)
left-falls d (pos zero) (inr e) h = rw e (ground arith)
left-falls d (pos (suc x)) (inr e) h = rw e (ground arith)
left-falls d (negsuc x) e h = cc

left-le : (d x : ℤ) → in_range x size ≡ true → left d x ≤ 15
left-le (pos d) (pos x) h = ground arith
left-le (negsuc d) (pos x) h = ground arith
left-le d (negsuc x) h = cc

module _ (cells : List Player) (p : Player) where
  holds_inside :
      (x y : ℤ) → holds cells p x y ≡ true → (in_range x size ≡ true) × (in_range y size ≡ true)
  unfolding holds
  holds_inside x y h = ground arith

  module _ (dx dy : ℤ) where
    -- A measure that falls while the walk is on the stones bounds the walk.
    forward-Run :
        (m : ℤ → ℤ → ℕ)
        → ((x y : ℤ) → holds cells p x y ≡ true → m (x +ℤ dx) (y +ℤ dy) < m x y)
        → (fuel count : ℕ) (x y : ℤ) → (holds cells p x y ≡ true → m x y ≤ fuel)
        → (n : ℕ) × Run cells p x y dx dy n × (forward cells p dx dy fuel count x y ≡ count + n)
    unfolding forward
    forward-Run m falls zero count x y h = elim (Bool-cases (holds cells p x y)) [
      | inl on ↦ absurd (omega (arith, h on, falls x y on))
      | inr off ↦ (0, (λ k lt. elim lt [ ], off), omega arith)
    ]
    forward-Run m falls (suc fuel) count x y h = elim (Bool-cases (holds cells p x y)) [
      | inl on ↦
          let (n, run, e) =
            forward-Run m falls fuel (count + 1) (x +ℤ dx) (y +ℤ dy)
              (λ _. omega (arith, h on, falls x y on)) in
          (suc n, (extend on n run.0, run.1), rw on (e ∙ omega arith))
      | inr off ↦ (0, (λ k lt. elim lt [ ], off), rw off (omega arith))
    ]
      where
        extend :
            holds cells p x y ≡ true
            → (n : ℕ)
            → ((k : ℕ) → k < n → holds cells p (along (x +ℤ dx) dx k) (along (y +ℤ dy) dy k) ≡ true)
            → (k : ℕ) → k < suc n
            → holds cells p (along x dx k) (along y dy k) ≡ true
        extend on n run zero lt = on
        extend on n run (suc k) lt = run k (omega arith)

    -- Sixteen rounds are enough, from anywhere, in each direction.
    forward-Run_step :
        (IsUnit dx) ⊎ ((dx ≡ pos 0) × IsUnit dy)
        → (count : ℕ) (x y : ℤ)
        → (n : ℕ) × Run cells p x y dx dy n
          × (forward cells p dx dy walk_fuel count x y ≡ count + n)
    forward-Run_step (inl u) count x y =
        forward-Run (λ a b. left dx a) (λ a b on. left-falls dx a u (holds_inside a b on).0)
          walk_fuel count x y (λ on. omega (arith, left-le dx x (holds_inside x y on).0))
    forward-Run_step (inr u) count x y =
        forward-Run (λ a b. left dy b) (λ a b on. left-falls dy b u.1 (holds_inside a b on).1)
          walk_fuel count x y (λ on. omega (arith, left-le dy y (holds_inside x y on).1))

  -- The walk back is the walk forward in the opposite direction.
  sub_negate : (x d : ℤ) → x -ℤ d ≡ x +ℤ negate d
  unfolding ◌+ℤ◌ ◌-ℤ◌
  sub_negate x d = ground arith

  backward-forward :
      (dx dy : ℤ) (fuel count : ℕ) (x y : ℤ)
      → backward cells p dx dy fuel count x y
        ≡ forward cells p (negate dx) (negate dy) fuel count x y
  unfolding backward forward
  backward-forward dx dy zero count x y = refl
  backward-forward dx dy (suc fuel) count x y = rw (
    sub_negate x dx,
    sub_negate y dy,
    backward-forward dx dy fuel (count + 1) (x +ℤ negate dx) (y +ℤ negate dy),
  )

  -- Runs are unique, so a line counts five only if its runs have four stones.
  Run-unique : (x y dx dy : ℤ) (n m : ℕ) → Run cells p x y dx dy n → Run cells p x y dx dy m → n ≡ m
  Run-unique x y dx dy n m r s = ground (arith, r.0 m, s.0 n)

  abbrev IsDirection : ℤ × ℤ → Type 0
  IsDirection (dx, dy) =
      ((IsUnit dx) ⊎ ((dx ≡ pos 0) × IsUnit dy))
      × ((IsUnit (negate dx)) ⊎ ((negate dx ≡ pos 0) × IsUnit (negate dy)))

  count_line-Runs :
      (x y : ℤ) (d : ℤ × ℤ)
      → IsDirection d
      → (n : ℕ) × (m : ℕ) × Run cells p (x +ℤ d.0) (y +ℤ d.1) d.0 d.1 n
        × Run cells p (x +ℤ negate d.0) (y +ℤ negate d.1) (negate d.0) (negate d.1) m
        × (count_line cells p x y d.0 d.1 ≡ 1 + n + m)
  unfolding count_line
  count_line-Runs x y (dx, dy) (fore, back) =
      let (n, run, e) = forward-Run_step dx dy fore 1 (x +ℤ dx) (y +ℤ dy) in
      let (m, run', e') =
        forward-Run_step (negate dx) (negate dy) back (1 + n) (x +ℤ negate dx) (y +ℤ negate dy) in
      (
        n,
        m,
        run,
        run',
        rw (e, sub_negate x dx, sub_negate y dy)
            (backward-forward dx dy walk_fuel (1 + n) (x +ℤ negate dx) (y +ℤ negate dy) ∙ e'),
      )

  count_line-Five :
      (x y : ℤ) (d : ℤ × ℤ)
      → IsDirection d
      → (count_line cells p x y d.0 d.1 ≡ 5) ↔ FiveAlong cells p x y d
  count_line-Five x y d is =
      let (n, m, run, run', e) = count_line-Runs x y d is in
      (
        λ five. (n, m, run, run', omega arith),
        λ five.
            let (n', m', r, r', sum) = five in
            omega (
              arith,
              Run-unique (x +ℤ d.0) (y +ℤ d.1) d.0 d.1 n n' run r,
              Run-unique (x +ℤ negate d.0) (y +ℤ negate d.1) (negate d.0) (negate d.1) m m' run' r',
            ),
      )

  abbrev AllDirections : List (ℤ × ℤ) → Type 0
  AllDirections [] = Unit
  AllDirections (d ∷ ds) = IsDirection d × AllDirections ds

  check_lines-Five :
      (x y : ℤ) (ds : List (ℤ × ℤ))
      → AllDirections ds
      → (check_lines cells p x y ds ≡ true) ↔ Any (FiveAlong cells p x y) ds
  unfolding check_lines
  check_lines-Five x y [] is = (λ h. cc, λ h. absurd h)
  check_lines-Five x y (d ∷ ds) (i, is) =
      let (sound, complete) = count_line-Five x y d i in
      let (sound', complete') = check_lines-Five x y ds is in
      elim (Bool-cases (count_line cells p x y d.0 d.1 == 5)) [
        | inl five ↦ (λ h. inl (sound ((==_iff _ 5).0 five)), λ h. rw five)
        | inr other ↦ (
          λ h. inr (sound' (rw other at h)),
          elim [ inl f ↦ rw (complete f) | inr f ↦ rw other (complete' f) ],
        )
      ]

-- CheckWin answers yes exactly if, in one of the four directions, the stones of `p` in a row on
-- the two sides of (x, y) are four together: five with the stone at (x, y), and not six or more.
pub check_win-Five :
    (cells : List Player) (p : Player) (x y : ℤ)
    → (check_win cells p x y ≡ true) ↔ Any (FiveAlong cells p x y) directions
unfolding check_win ◌-ℤ◌
check_win-Five cells p x y = check_lines-Five cells p x y directions (
  (inl (inl refl), inl (inr refl)),
  (
    (inr (refl, inl refl), inr (refl, inr refl)),
    ((inl (inl refl), inl (inr refl)), ((inl (inl refl), inl (inr refl)), tt)),
  ),
)
