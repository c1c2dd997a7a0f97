-- ===== src/Engine/Action/Text.antt =====
-- engine/src/board.cpp: ToString and FromString of struct Action. A text is the list of its codes. The
-- numbers are written and read as `<<` and std::stoi of the C++ library do it; `none` is an exception.
use gomoku.Prelude.{
  ℕ, zero, suc, ◌+◌, ◌-◌, ◌*◌, ◌/◌, ◌%◌, ◌^◌, ◌<◌, ◌≡◌, refl, sym, ap, subst, ◌∙◌, Bool, true,
  false, ◌&&◌, ◌||◌, List, [], ◌∷◌, ◌++◌, ◌==◌, ltb, leb, length, if◌then◌else◌, Option, none, some,
  arith, get_or, inl, inr, Bool-cases, ==_iff, if_false,
}
use mathlib.Core.Option
use gomoku.Prelude.Int.{ℤ, pos, negsuc, ◌==ℤ◌, ◌+ℤ◌, ◌*ℤ◌, pos_part, ==ℤ_iff, in_range}
use gomoku.Prelude.Text.{codes, ◌==T◌}
use gomoku.Engine.Action

-- The decimal digits of a number, on fuel: one round for each digit is enough.
abbrev decimal_on : ℕ → ℕ → List ℕ
decimal_on zero n = []
decimal_on (suc fuel) n =
    let front = decimal_on fuel (n / 10) in
    if ltb n 10 then (48 + n) ∷ [] else front ++ (48 + n % 10) ∷ []

-- An `int` has ten digits at most.
abbrev pub decimal : ℕ → List ℕ
decimal n = decimal_on 10 n

abbrev is_digit : ℕ → Bool
is_digit c = leb 48 c && leb c 57

-- A number and whether a digit was read before.
abbrev pub read_digits : List ℕ → ℕ → Bool → Option ℕ
read_digits [] n seen = if seen then some n else none
read_digits (c ∷ text) n seen =
    let more = read_digits text (n * 10 + (c - 48)) true in
    if is_digit c then more else if seen then some n else none

abbrev is_space : ℕ → Bool
is_space c = c == 32 || leb 9 c && leb c 13

-- The number with its sign, if it is in the range of `int`.
abbrev signed : Bool → Option ℕ → Option ℤ
signed negative none = none
signed false (some n) = if ltb n (2 ^ 31) then some (pos n) else none
signed true (some zero) = some (pos 0)
signed true (some (suc n)) = if ltb n (2 ^ 31) then some (negsuc n) else none

abbrev after_spaces : List ℕ → Option ℤ
after_spaces [] = none
after_spaces (c ∷ text) =
    if c == b'-'
    then signed true (read_digits text 0 false)
    else if c == b'+'
    then signed false (read_digits text 0 false)
    else signed false (read_digits (c ∷ text) 0 false)

unfoldable pub stoi : List ℕ → Option ℤ
stoi [] = none
stoi (c ∷ text) = let later = stoi text in if is_space c then later else after_spaces (c ∷ text)

-- `find` of a code: its index.
abbrev pub find_code : ℕ → List ℕ → Option ℕ
find_code c [] = none
find_code c (d ∷ text) =
    let later = Option.map suc (find_code c text) in if d == c then some 0 else later

abbrev pub last_code : List ℕ → ℕ → ℕ
last_code [] c = c
last_code (d ∷ text) c = last_code text d

abbrev first_codes : ℕ → List ℕ → List ℕ
first_codes zero text = []
first_codes (suc n) [] = []
first_codes (suc n) (c ∷ text) = c ∷ first_codes n text

-- `substr` from an index that the text has.
abbrev pub substr : ℕ → ℕ → List ℕ → List ℕ
substr zero count text = first_codes count text
substr (suc i) count [] = []
substr (suc i) count (c ∷ text) = substr i count text

-- Action::FromXY.
abbrev pub from_xy : ℤ → ℤ → ℤ
from_xy x y = y *ℤ pos 15 +ℤ x

abbrev pub placement_string : ℕ → List ℕ
placement_string id = b'(' ∷ decimal (id % 15) ++ b',' ∷ decimal (id / 15) ++ b')' ∷ []

unfoldable pub to_string : ℤ → List ℕ
to_string id =
    if id ==ℤ pos Action.swap2_choose_white
    then codes "swap2_choose_white"
    else if id ==ℤ pos Action.swap2_choose_black
    then codes "swap2_choose_black"
    else if id ==ℤ pos Action.swap2_place_two
    then codes "swap2_place_two"
    else if id ==ℤ pos Action.choose_white
    then codes "choose_white"
    else if id ==ℤ pos Action.choose_black
    then codes "choose_black"
    else if Action.is_placement id
    then placement_string (pos_part id)
    else codes "invalid_action"

-- The two numbers around a comma.
abbrev pub around : List ℕ → Option ℕ → Option ℤ
around str none = none
around str (some comma) = Option.bind (stoi (substr 1 (comma - 1) str)) (λ (x : ℤ).
    Option.map (λ (y : ℤ). from_xy x y) (stoi (substr (comma + 1) (length str - comma - 2) str)))

unfoldable pub from_string : List ℕ → Option ℤ
from_string str =
    if str ==T codes "swap2_choose_white"
    then some (pos Action.swap2_choose_white)
    else if str ==T codes "swap2_choose_black"
    then some (pos Action.swap2_choose_black)
    else if str ==T codes "swap2_place_two"
    then some (pos Action.swap2_place_two)
    else if str ==T codes "choose_white"
    then some (pos Action.choose_white)
    else if str ==T codes "choose_black"
    then some (pos Action.choose_black)
    else if leb 5 (length str) && get_or str 0 0 == b'(' && last_code str 0 == b')'
    then around str (find_code b',' str)
    else none

abbrev is_id : Option ℤ → ℕ → Bool
is_id none id = false
is_id (some a) id = a ==ℤ pos id

-- The round trip of the first so many ids.
abbrev trips : ℕ → Bool
trips zero = true
trips (suc n) = is_id (from_string (to_string (pos n))) n && trips n

all_trips : trips 230 ≡ true
unfolding to_string from_string stoi ◌+ℤ◌ ◌*ℤ◌ Option.bind
all_trips = refl

trip : (n i : ℕ) → i < n → trips n ≡ true → is_id (from_string (to_string (pos i))) i ≡ true
trip zero i h e = absurd (omega arith)
trip (suc n) i h e = elim (Bool-cases (i == n)) [
  | inl here ↦
      subst (λ k. is_id (from_string (to_string (pos k))) k ≡ true) (sym ((==_iff i n).0 here))
        (ground arith)
  | inr other ↦ trip n i (ground arith) (ground arith)
]

named : (o : Option ℤ) (id : ℕ) → is_id o id ≡ true → o ≡ some (pos id)
named none id h = ground arith
named (some a) id h = ap some ((==ℤ_iff a (pos id)).0 h)

no_name : (id : ℤ) → in_range id 230 ≡ false → to_string id ≡ codes "invalid_action"
unfolding to_string
no_name (pos n) h = ground arith
no_name (negsuc n) h = refl

invalid : from_string (codes "invalid_action") ≡ none
unfolding from_string
invalid = refl

-- FromString reads back what ToString writes of an action id below 230, and refuses what it writes of
-- any other number.
pub from_string-to_string :
    (id : ℤ) → from_string (to_string id) ≡ (if in_range id 230 then some id else none)
from_string-to_string id = elim (Bool-cases (in_range id 230)) [
  | inl inside ↦ ranged id inside
  | inr outside ↦
      ap from_string (no_name id outside) ∙ invalid ∙ sym (if_false (some id) none outside)
]
  where
    ranged :
        (id : ℤ)
        → in_range id 230 ≡ true
        → from_string (to_string id) ≡ (if in_range id 230 then some id else none)
    ranged (pos n) h =
        named (from_string (to_string (pos n))) n (trip 230 n (ground arith) all_trips)
        ∙ ground arith
    ranged (negsuc n) h = absurd (ground arith)
