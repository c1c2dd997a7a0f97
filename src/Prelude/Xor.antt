-- ===== src/Prelude/Xor.antt =====
-- The laws of exclusive or on the native numbers, from the recursion on binary digits that the
-- native operation stands for.
use Prim.Native.Nat.{
  ℕ, zero, suc, ◌+◌, ◌*◌, ◌/◌, ◌%◌, ◌≤◌, ◌<◌, bit_xor, digits, differ, bit_xor-bitwise,
}
use mathlib.Core.Path.{◌≡◌, refl, sym, ◌∙◌, ap}
use native.Mathlib.Omega.{arith}

infixl 60 ◌xor◌
abbrev pub ◌xor◌ : ℕ → ℕ → ℕ
a xor b = bit_xor a b

abbrev xor_digits : ℕ → ℕ → ℕ → ℕ
xor_digits n a b = digits (λ b. b) differ n a b

xor_digits_fuel : (n m a b : ℕ) → a ≤ n → a ≤ m → xor_digits n a b ≡ xor_digits m a b
xor_digits_fuel zero zero a b p q = refl
xor_digits_fuel zero (suc m) zero b p q = refl
xor_digits_fuel zero (suc m) (suc a) b p q = absurd (omega arith)
xor_digits_fuel (suc n) zero zero b p q = refl
xor_digits_fuel (suc n) zero (suc a) b p q = absurd (omega arith)
xor_digits_fuel (suc n) (suc m) zero b p q = refl
xor_digits_fuel (suc n) (suc m) (suc a) b p q =
    rw (xor_digits_fuel n m (suc a / 2) (b / 2) (omega arith) (omega arith))

pub zero-xor : (b : ℕ) → bit_xor 0 b ≡ b
zero-xor b = bit_xor-bitwise 0 b

-- The lowest digit, and the others.
xor_step : (a b : ℕ) → bit_xor a b ≡ bit_xor (a / 2) (b / 2) * 2 + differ (a % 2) (b % 2)
xor_step zero b = omega (arith, zero-xor b, zero-xor (b / 2))
xor_step (suc a) b = omega (
  arith,
  bit_xor-bitwise (suc a) b,
  bit_xor-bitwise (suc a / 2) (b / 2),
  xor_digits_fuel a (suc a / 2) (suc a / 2) (b / 2) (omega arith) (omega arith),
)

-- On digits it is addition modulo 2.
differ_digits : (p q : ℕ) → p < 2 → q < 2 → differ p q ≡ (p + q) % 2
differ_digits zero zero hp hq = refl
differ_digits zero (suc zero) hp hq = refl
differ_digits (suc zero) zero hp hq = refl
differ_digits (suc zero) (suc zero) hp hq = refl
differ_digits zero (suc (suc q)) hp hq = absurd (omega arith)
differ_digits (suc zero) (suc (suc q)) hp hq = absurd (omega arith)
differ_digits (suc (suc p)) q hp hq = absurd (omega arith)

digit : (a b : ℕ) → bit_xor a b ≡ bit_xor (a / 2) (b / 2) * 2 + (a % 2 + b % 2) % 2
digit a b =
    xor_step a b
    ∙ ap (λ d. bit_xor (a / 2) (b / 2) * 2 + d)
        (differ_digits (a % 2) (b % 2) (omega arith) (omega arith))

xor_parts :
    (a b : ℕ)
    → (bit_xor a b / 2 ≡ bit_xor (a / 2) (b / 2)) × (bit_xor a b % 2 ≡ (a % 2 + b % 2) % 2)
xor_parts a b = (omega (arith, digit a b), omega (arith, digit a b))

xor-zero_fuel : (n a : ℕ) → a ≤ n → bit_xor a 0 ≡ a
xor-zero_fuel n zero h = refl
xor-zero_fuel zero (suc a) h = absurd (omega arith)
xor-zero_fuel (suc n) (suc a) h =
    omega (arith, digit (suc a) 0, xor-zero_fuel n (suc a / 2) (omega arith))

pub xor-zero : (a : ℕ) → a xor 0 ≡ a
xor-zero a = xor-zero_fuel a a (omega arith)

xor_comm_fuel : (n a b : ℕ) → a ≤ n → bit_xor a b ≡ bit_xor b a
xor_comm_fuel n zero b h = omega (arith, zero-xor b, xor-zero b)
xor_comm_fuel zero (suc a) b h = absurd (omega arith)
xor_comm_fuel (suc n) (suc a) b h =
    omega
      (arith, digit (suc a) b, digit b (suc a), xor_comm_fuel n (suc a / 2) (b / 2) (omega arith))

pub xor_comm : (a b : ℕ) → a xor b ≡ b xor a
xor_comm a b = xor_comm_fuel a a b (omega arith)

xor_self_fuel : (n a : ℕ) → a ≤ n → bit_xor a a ≡ 0
xor_self_fuel n zero h = refl
xor_self_fuel zero (suc a) h = absurd (omega arith)
xor_self_fuel (suc n) (suc a) h =
    omega (arith, digit (suc a) (suc a), xor_self_fuel n (suc a / 2) (omega arith))

pub xor_self : (a : ℕ) → a xor a ≡ 0
xor_self a = xor_self_fuel a a (omega arith)

xor_assoc_fuel : (n a b c : ℕ) → a ≤ n → (a xor b) xor c ≡ a xor (b xor c)
xor_assoc_fuel n zero b c h = rw (zero-xor b, zero-xor (b xor c))
xor_assoc_fuel zero (suc a) b c h = absurd (omega arith)
xor_assoc_fuel (suc n) (suc a) b c h =
    rw
      (
        digit (bit_xor (suc a) b) c,
        digit (suc a) (bit_xor b c),
        (xor_parts (suc a) b).0,
        (xor_parts (suc a) b).1,
        (xor_parts b c).0,
        (xor_parts b c).1,
      )
      (omega (arith, xor_assoc_fuel n (suc a / 2) (b / 2) (c / 2) (omega arith)))

pub xor_assoc : (a b c : ℕ) → (a xor b) xor c ≡ a xor (b xor c)
xor_assoc a b c = xor_assoc_fuel a a b c (omega arith)

pub xor_left_comm : (a b c : ℕ) → a xor (b xor c) ≡ b xor (a xor c)
xor_left_comm a b c = sym (xor_assoc a b c) ∙ ap (λ t. t xor c) (xor_comm a b) ∙ xor_assoc b a c

pub xor_cancel : (a b : ℕ) → a xor (a xor b) ≡ b
xor_cancel a b = sym (xor_assoc a a b) ∙ ap (λ t. t xor b) (xor_self a) ∙ zero-xor b

-- Taking `s` and `o` out, and putting `n` and `t` in.
pub xor_exchange :
    (c s o n t : ℕ) → ((c xor s) xor (o xor s)) xor (n xor t) ≡ ((c xor o) xor n) xor t
xor_exchange c s o n t =
    rw (xor_comm o s, xor_assoc c s (s xor o), xor_cancel s o) (sym (xor_assoc (c xor o) n t))
