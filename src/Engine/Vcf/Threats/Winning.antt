-- ===== src/Engine/Vcf/Threats/Winning.antt =====
-- What the searches for winning moves list: fives on offer, all of them, each once.
use gomoku.Prelude.{
  ℕ, zero, suc, ◌+◌, ◌<◌, ◌≤◌, ◌≡◌, refl, ap, ◌∙◌, Bool, true, false, ◌&&◌, ◌||◌, List, [], ◌∷◌,
  ◌++◌, ◌==◌, ==_iff, if◌then◌else◌, arith, Bool-cases, inl, inr,
}
use gomoku.Prelude.Int.{ℤ, pos, negsuc, ◌+ℤ◌, ◌*ℤ◌, ◌==ℤ◌, ==ℤ_iff}
use gomoku.Engine.Vcf.{
  Position, Stone, is_empty, is_inside, directions, vcf_num_cells, action_x, action_y,
  action_from_xy,
}
use gomoku.Engine.Vcf.Threats.{
  five_through, makes_exact_five, winning_from, winning_moves, created, creates_five,
  find_created_winning_moves, lines, has, add_new,
}

module _ (p : Position) (s : Stone) where
  -- Fives on offer, no cell twice.
  pub data AllWin : List ℕ → Type 0 where
    nothing : AllWin []
    one_more :
        (w : ℕ) (ws : List ℕ)
        → makes_exact_five p s w ≡ true
        → has ws w ≡ false
        → AllWin ws
        → AllWin (w ∷ ws)

  winning_from-above : (left i j : ℕ) → j < i → has (winning_from p s left i) j ≡ false
  unfolding winning_from
  winning_from-above zero i j h = refl
  winning_from-above (suc left) i j h =
      ground (arith, winning_from-above left (suc i) j (omega arith))

  winning_from-AllWin : (left i : ℕ) → AllWin (winning_from p s left i)
  unfolding winning_from
  winning_from-AllWin zero i = nothing
  winning_from-AllWin (suc left) i = elim (Bool-cases (makes_exact_five p s i)) [
    | inl e ↦ rw e (
        one_more i _ e (winning_from-above left (suc i) i (omega arith))
          (winning_from-AllWin left (suc i)))
    | inr e ↦ rw e (winning_from-AllWin left (suc i))
  ]

  pub winning_moves-AllWin : AllWin (winning_moves p s)
  unfolding winning_moves
  winning_moves-AllWin = winning_from-AllWin vcf_num_cells 0

  winning_from_complete :
      (left i j : ℕ)
      → i ≤ j
      → j < i + left
      → makes_exact_five p s j ≡ true
      → has (winning_from p s left i) j ≡ true
  unfolding winning_from
  winning_from_complete zero i j h k e = absurd (omega arith)
  winning_from_complete (suc left) i j h k e = elim (Bool-cases (i == j)) [
    | inl q ↦ let five = ap (makes_exact_five p s) ((==_iff i j).0 q) ∙ e in rw (five, q) refl
    | inr q ↦
        let rest = winning_from_complete left (suc i) j (ground (arith, q)) (omega arith) e in
        elim (Bool-cases (makes_exact_five p s i)) [
          | inl f ↦ rw (f, q, rest) refl
          | inr f ↦ rw (f, rest) refl
        ]
  ]

  five-inside : (j : ℕ) → makes_exact_five p s j ≡ true → j < vcf_num_cells
  unfolding makes_exact_five is_empty
  five-inside j e = ground arith

  pub winning_moves_complete :
      (j : ℕ) → makes_exact_five p s j ≡ true → has (winning_moves p s) j ≡ true
  unfolding winning_moves
  winning_moves_complete j e =
      winning_from_complete vcf_num_cells 0 j (omega arith) (omega (arith, five-inside j e)) e

  has-snoc : (ws : List ℕ) (w v : ℕ) → has (ws ++ w ∷ []) v ≡ (has ws v || w == v)
  has-snoc [] w v = ground arith
  has-snoc (u ∷ ws) w v = ground (arith, has-snoc ws w v)

  AllWin-snoc :
      (ws : List ℕ) (w : ℕ)
      → AllWin ws
      → makes_exact_five p s w ≡ true
      → has ws w ≡ false
      → AllWin (ws ++ w ∷ [])
  AllWin-snoc [] w v e n = one_more w [] e refl nothing
  AllWin-snoc (u ∷ ws) w (one_more _ _ f m v) e n =
      one_more u (ws ++ w ∷ []) f (ground (arith, has-snoc ws w u))
        (AllWin-snoc ws w v e (ground arith))

  AllWin-add_new :
      (ws : List ℕ) (w : ℕ) → AllWin ws → makes_exact_five p s w ≡ true → AllWin (add_new ws w)
  AllWin-add_new ws w v e = elim (Bool-cases (has ws w)) [
    | inl h ↦ rw h v
    | inr h ↦ rw h (AllWin-snoc ws w v e h)
  ]

  -- A direction of the list.
  abbrev among : List (ℤ × ℤ) → ℤ → ℤ → Bool
  among [] dx dy = false
  among ((ex, ey) ∷ ds) dx dy = ex ==ℤ dx && ey ==ℤ dy || among ds dx dy

  abbrev directed : List (ℤ × ℤ × ℤ) → Bool
  directed [] = true
  directed ((dx, dy, k) ∷ ls) = among directions dx dy && directed ls

  creates-five_through :
      (px py x y dx dy : ℤ) (ds : List (ℤ × ℤ))
      → among ds dx dy ≡ true
      → creates_five p px py s x y dx dy ≡ true
      → five_through p s x y ds ≡ true
  unfolding creates_five five_through
  creates-five_through px py x y dx dy [] m h = ground arith
  creates-five_through px py x y dx dy ((ex, ey) ∷ ds) m h =
      elim (Bool-cases (ex ==ℤ dx && ey ==ℤ dy)) [
        | inl e ↦
            let same_x : ex ≡ dx = (==ℤ_iff ex dx).0 (ground (arith, e)) in
            let same_y : ey ≡ dy = (==ℤ_iff ey dy).0 (ground (arith, e)) in
            rw (same_x, same_y) (ground (arith, h))
        | inr e ↦
            let rest = creates-five_through px py x y dx dy ds (ground (arith, m, e)) h in
            ground (arith, rest)
      ]

  inside_cell :
      (x y : ℤ)
      → is_inside x y ≡ true
      → (action_x (action_from_xy x y) ≡ x) × (action_y (action_from_xy x y) ≡ y)
  inside_cell (pos x) (pos y) h = ground arith
  inside_cell (negsuc x) y h = ground arith
  inside_cell (pos x) (negsuc y) h = ground arith

  created_five :
      (px py x y dx dy : ℤ)
      → among directions dx dy ≡ true
      → (is_inside x y && is_empty p (pos (action_from_xy x y)) && creates_five p px py s x y dx dy)
        ≡ true
      → makes_exact_five p s (action_from_xy x y) ≡ true
  unfolding makes_exact_five
  created_five px py x y dx dy m h =
      let inside : is_inside x y ≡ true = ground (arith, h) in
      let free : is_empty p (pos (action_from_xy x y)) ≡ true = ground (arith, h) in
      let creates : creates_five p px py s x y dx dy ≡ true = ground (arith, h) in
      let cell = inside_cell x y inside in
      rw (free, cell.0, cell.1) (creates-five_through px py x y dx dy directions m creates)

  AllWin-added :
      (ws : List ℕ) (w : ℕ) (b : Bool)
      → (b ≡ true → makes_exact_five p s w ≡ true)
      → AllWin ws
      → AllWin (if b then add_new ws w else ws)
  AllWin-added ws w true e v = AllWin-add_new ws w v (e refl)
  AllWin-added ws w false e v = v

  created-AllWin :
      (px py : ℤ) (ls : List (ℤ × ℤ × ℤ)) (found : List ℕ)
      → directed ls ≡ true
      → AllWin found
      → AllWin (created p px py s ls found)
  unfolding created
  created-AllWin px py [] found d v = v
  created-AllWin px py ((dx, dy, k) ∷ ls) found d v =
      let x = px +ℤ k *ℤ dx in
      let y = py +ℤ k *ℤ dy in
      created-AllWin px py ls _ (ground (arith, d)) (
        AllWin-added found (action_from_xy x y) _ (created_five px py x y dx dy (ground (arith, d)))
          v)

  pub find_created_winning_moves-AllWin : (a : ℕ) → AllWin (find_created_winning_moves p a s)
  unfolding find_created_winning_moves
  find_created_winning_moves-AllWin a =
      created-AllWin (action_x a) (action_y a) (lines directions) [] refl nothing
