-- ===== src/Plugin/Difficulty.antt =====
-- plugin/include/plugin/difficulty.h and plugin/src/difficulty.cpp.
use gomoku.Prelude.{ℕ, ◌≡◌, refl, ap, ◌∙◌, ◌↔◌, List, map, Option, none, some, arith, if◌then◌else◌}
use gomoku.Prelude.Text.{codes, ◌==T◌, ==T_iff, to_lower}

pub data Difficulty : Type 0 where
  apprentice casual club veteran champion truth : Difficulty

unfoldable pub difficulty_to_string : Difficulty → List ℕ
difficulty_to_string Difficulty.apprentice = codes "Apprentice"
difficulty_to_string Difficulty.casual = codes "Casual"
difficulty_to_string Difficulty.club = codes "Club"
difficulty_to_string Difficulty.veteran = codes "Veteran"
difficulty_to_string Difficulty.champion = codes "Champion"
difficulty_to_string Difficulty.truth = codes "Truth"

-- The comparisons, on the text in lower case.
abbrev level_named : List ℕ → Option Difficulty
level_named lower =
    if lower ==T codes "apprentice"
    then some Difficulty.apprentice
    else if lower ==T codes "casual"
    then some Difficulty.casual
    else if lower ==T codes "club"
    then some Difficulty.club
    else if lower ==T codes "veteran"
    then some Difficulty.veteran
    else if lower ==T codes "champion"
    then some Difficulty.champion
    else if lower ==T codes "truth"
    then some Difficulty.truth
    else none

unfoldable pub difficulty_from_string : List ℕ → Option Difficulty
difficulty_from_string str = level_named (map to_lower str)

named_sound :
    (s : List ℕ) (d : Difficulty)
    → level_named s ≡ some d
    → s ≡ map to_lower (difficulty_to_string d)
unfolding difficulty_to_string
named_sound s d h = ground (
  arith,
  (==T_iff s (codes "apprentice")).0,
  (==T_iff s (codes "casual")).0,
  (==T_iff s (codes "club")).0,
  (==T_iff s (codes "veteran")).0,
  (==T_iff s (codes "champion")).0,
  (==T_iff s (codes "truth")).0,
)

named_complete : (d : Difficulty) → level_named (map to_lower (difficulty_to_string d)) ≡ some d
unfolding difficulty_to_string
named_complete Difficulty.apprentice = refl
named_complete Difficulty.casual = refl
named_complete Difficulty.club = refl
named_complete Difficulty.veteran = refl
named_complete Difficulty.champion = refl
named_complete Difficulty.truth = refl

-- DifficultyFromString gives a level exactly for the texts that are its name up to case, and every
-- level is given by its name.
pub difficulty_from_string_iff :
    (s : List ℕ) (d : Difficulty)
    → (difficulty_from_string s ≡ some d) ↔ (map to_lower s ≡ map to_lower (difficulty_to_string d))
unfolding difficulty_from_string
difficulty_from_string_iff s d =
    (λ h. named_sound (map to_lower s) d h, λ h. ap level_named h ∙ named_complete d)
