-- ===== src/Prelude/Float.antt =====
-- All that the code does with a `float`: constants, arithmetic and comparisons, with no law of them.
use gomoku.Prelude.Int.{ℤ}
use mathlib.Core.Bool.{Bool}
use gomoku.Prelude.Tests.{if◌then◌else◌}

pub record Float {ℓ} (W : Type ℓ) : Type ℓ where
  pub nought : W
  pub one : W
  pub minus_infinity : W
  pub add : W → W → W
  pub sub : W → W → W
  pub mul : W → W → W
  pub div : W → W → W
  pub neg : W → W
  pub sqrt : W → W
  pub of_int : ℤ → W
  pub lt : W → W → Bool
  pub le : W → W → Bool
  pub eq : W → W → Bool

-- std::max, which keeps its first argument unless it is less.
abbrev pub max_of {ℓ} : {W : Type ℓ} ⦃f : Float W⦄ → W → W → W
max_of ⦃f⦄ x y = if f.lt x y then y else x
