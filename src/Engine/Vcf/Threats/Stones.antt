-- ===== src/Engine/Vcf/Threats/Stones.antt =====
-- How a stone on an empty cell changes the fives of the other colour: only by taking the cell.
use gomoku.Prelude.{
  ℕ, zero, suc, ◌≡◌, ◌≢◌, refl, sym, true, false, List, [], ◌∷◌, arith, get_or, set, get_or-set_ne,
  get_or-set_self, length, length-set,
}
use gomoku.Prelude.Int.{ℤ, pos, ◌+ℤ◌, ◌-ℤ◌}
use gomoku.Engine.Vcf.{
  Position, Stone, ◌==V◌, is_empty, set_action, directions, vcf_num_cells, action_x, action_y,
  action_from_xy,
}
use gomoku.Engine.Vcf.Threats.{on, walk, count_in_direction, five_through, makes_exact_five}

-- The board with a stone more.
abbrev pub put : Position → ℕ → Stone → Position
put p action stone = (set_action p (pos action) stone).0

get_or-set_other :
    (cells : List Stone) (i j : ℕ) (t s : Stone)
    → get_or cells i Stone.empty ≡ Stone.empty
    → t ≢ s
    → s ≢ Stone.empty
    → (get_or (set cells i t) j Stone.empty ==V s) ≡ (get_or cells j Stone.empty ==V s)
get_or-set_other [] i j t s e ne se = refl
get_or-set_other (c ∷ cs) zero zero t s e ne se = ground arith
get_or-set_other (c ∷ cs) zero (suc j) t s e ne se = refl
get_or-set_other (c ∷ cs) (suc i) zero t s e ne se = refl
get_or-set_other (c ∷ cs) (suc i) (suc j) t s e ne se = get_or-set_other cs i j t s e ne se

pub is_empty_cell :
    (p : Position) (a : ℕ) → is_empty p (pos a) ≡ true → get_or p.cells a Stone.empty ≡ Stone.empty
unfolding is_empty
is_empty_cell p a e = ground arith

module _ (p : Position) (a : ℕ) (t s : Stone) (free : is_empty p (pos a) ≡ true) (ne : t ≢ s)
    (se : s ≢ Stone.empty) where
  put-on : (x y : ℤ) → on (put p a t) s x y ≡ on p s x y
  unfolding on
  put-on x y =
      ground
        (arith, get_or-set_other p.cells a (action_from_xy x y) t s (is_empty_cell p a free) ne se)

  put-walk :
      (fuel : ℕ) (x y dx dy : ℤ) → walk (put p a t) s fuel x y dx dy ≡ walk p s fuel x y dx dy
  unfolding walk
  put-walk zero x y dx dy = refl
  put-walk (suc fuel) x y dx dy = rw (put-on x y, put-walk fuel (x +ℤ dx) (y +ℤ dy) dx dy) refl

  put-five_through :
      (x y : ℤ) (ds : List (ℤ × ℤ)) → five_through (put p a t) s x y ds ≡ five_through p s x y ds
  unfolding five_through count_in_direction
  put-five_through x y [] = refl
  put-five_through x y ((dx, dy) ∷ ds) =
      rw
        (
          put-walk 16 (x +ℤ dx) (y +ℤ dy) dx dy,
          put-walk 16 (x +ℤ (pos 0 -ℤ dx)) (y +ℤ (pos 0 -ℤ dy)) (pos 0 -ℤ dx) (pos 0 -ℤ dy),
          put-five_through x y ds,
        )
        refl

-- A cell that is not taken is as empty as before.
pub put-is_empty :
    (p : Position) (a r : ℕ) (t : Stone) → r ≢ a → is_empty (put p a t) (pos r) ≡ is_empty p (pos r)
unfolding is_empty
put-is_empty p a r t ne = ground (arith, get_or-set_ne p.cells a r t Stone.empty (λ e. ne (sym e)))

-- The cell that is taken was inside the board, so it is taken.
pub put_taken :
    (p : Position) (a : ℕ) (t : Stone)
    → t ≢ Stone.empty
    → length p.cells ≡ vcf_num_cells
    → is_empty (put p a t) (pos a) ≡ false
unfolding is_empty
put_taken p a t ne sized = ground (arith, get_or-set_self p.cells a t Stone.empty)

pub put-sized :
    (p : Position) (a : ℕ) (t : Stone)
    → length p.cells ≡ vcf_num_cells
    → length (put p a t).cells ≡ vcf_num_cells
put-sized p a t sized = ground (arith, length-set p.cells a t)

-- A five on offer stays on offer when another cell is taken by the other colour.
pub five_stays :
    (p : Position) (a w : ℕ) (t s : Stone)
    → is_empty p (pos a) ≡ true
    → t ≢ s
    → s ≢ Stone.empty
    → w ≢ a
    → makes_exact_five p s w ≡ true
    → makes_exact_five (put p a t) s w ≡ true
unfolding makes_exact_five
five_stays p a w t s free ne se other five =
    rw
      (
        put-is_empty p a w t other,
        put-five_through p a t s free ne se (action_x w) (action_y w) directions,
      )
      five

-- And a stone of the other colour offers no new one.
pub five_was :
    (p : Position) (a w : ℕ) (t s : Stone)
    → is_empty p (pos a) ≡ true
    → t ≢ s
    → s ≢ Stone.empty
    → w ≢ a
    → makes_exact_five (put p a t) s w ≡ true
    → makes_exact_five p s w ≡ true
unfolding makes_exact_five
five_was p a w t s free ne se other five =
    rw⁻¹
      (
        put-is_empty p a w t other,
        put-five_through p a t s free ne se (action_x w) (action_y w) directions,
      )
      five

pub five-is_empty :
    (p : Position) (s : Stone) (w : ℕ) → makes_exact_five p s w ≡ true → is_empty p (pos w) ≡ true
unfolding makes_exact_five
five-is_empty p s w five = ground arith
