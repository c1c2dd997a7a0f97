-- ===== src/Prelude/Text.antt =====
-- Text as the list of its code points.
use Prim.Native.Char.{code}
use Prim.Native.String.{String}
use Prim.Native.Nat.{ℕ, ◌+◌}
use mathlib.Core.Path.{◌≡◌, refl}
use mathlib.Core.Logic.{◌↔◌}
use mathlib.Core.Bool.{Bool, true, false, ◌&&◌}
use mathlib.Core.List.{List, [], ◌∷◌}
use native.Mathlib.Omega.{arith}
use gomoku.Prelude.Tests.{◌==◌, leb, if◌then◌else◌}

abbrev pub codes : String → List ℕ
codes String.[] = []
codes (String.◌∷◌ c s) = code c ∷ codes s

infix 50 ◌==T◌
abbrev pub ◌==T◌ : List ℕ → List ℕ → Bool
[] ==T [] = true
[] ==T (d ∷ t) = false
(c ∷ s) ==T [] = false
(c ∷ s) ==T (d ∷ t) = c == d && s ==T t

pub ==T_iff : (s t : List ℕ) → ((s ==T t) ≡ true) ↔ (s ≡ t)
==T_iff [] [] = (λ h. refl, λ h. refl)
==T_iff [] (d ∷ t) = (λ h. cc, λ h. cc)
==T_iff (c ∷ s) [] = (λ h. cc, λ h. cc)
==T_iff (c ∷ s) (d ∷ t) =
    (λ h. ground (arith, (==T_iff s t).0), λ h. ground (arith, (==T_iff s t).1))

-- std::tolower in the C locale.
abbrev pub to_lower : ℕ → ℕ
to_lower c = if leb b'A' c && leb c b'Z' then c + 32 else c

pub to_lower_twice : (c : ℕ) → to_lower (to_lower c) ≡ to_lower c
to_lower_twice c = ground arith
