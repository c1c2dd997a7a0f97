-- ===== src/Engine/Mcts/Samples.antt =====
-- Numbers, random numbers, an evaluator, a clock and solvers for the tests of the tree search and of
-- self play.
use gomoku.Prelude.{
  ℕ, suc, ◌+◌, ◌/◌, ◌≡◌, refl, Bool, true, false, List, [], ◌∷◌, Option, none, some, length, ltb,
  leb, if◌then◌else◌, ap, replicate,
}
use gomoku.Prelude.Int.{ℤ, pos, negsuc, ◌+ℤ◌, ◌-ℤ◌, ◌*ℤ◌, ◌==ℤ◌}
use gomoku.Prelude.Float.{Float}
use gomoku.Engine.Board.{Board}
use gomoku.Engine.Board.Rules.{new_board}
use gomoku.Engine.Board.Rules.Valid.{IsValid}
use gomoku.Engine.Board.Rules.Game.{new_board-IsValid}
use gomoku.Engine.Mcts.{
  Info, Forest, nil, tree, Node, add_virtual_loss, calculate_puct, num_actions,
}
use gomoku.Engine.Mcts.Policy.{EvaluationResult, Random}
use gomoku.Engine.Mcts.Search.{Evaluator, Clock}
use gomoku.Engine.Mcts.Run.{Solvers}
use gomoku.Engine.Mcts.Returns.Pick.{Above, AllAbove, IsAbove}
use gomoku.Engine.Mcts.Returns.Found.{Answers}

-- Whole numbers with a minus infinity, which counts as 0 in a sum.
abbrev whole : Option ℤ → ℤ
whole none = pos 0
whole (some a) = a

abbrev is_less : ℤ → ℤ → Bool
is_less (pos a) (pos b) = ltb a b
is_less (pos a) (negsuc b) = false
is_less (negsuc a) (pos b) = true
is_less (negsuc a) (negsuc b) = ltb b a

abbrev less : Option ℤ → Option ℤ → Bool
less none none = false
less none (some b) = true
less (some a) none = false
less (some a) (some b) = is_less a b

abbrev same : Option ℤ → Option ℤ → Bool
same none none = true
same (some a) (some b) = a ==ℤ b
same a b = false

abbrev quotient : ℤ → ℤ → ℤ
quotient (pos a) (pos (suc b)) = pos (a / suc b)
quotient (negsuc a) (pos (suc b)) = pos 0 -ℤ pos (suc a / suc b)
quotient a b = pos 0

instance pub whole_numbers : Float (Option ℤ)
whole_numbers = record {
  nought = some (pos 0);
  one = some (pos 1);
  minus_infinity = none;
  add = λ a b. some (whole a +ℤ whole b);
  sub = λ a b. some (whole a -ℤ whole b);
  mul = λ a b. some (whole a *ℤ whole b);
  div = λ a b. some (quotient (whole a) (whole b));
  neg = λ a. some (pos 0 -ℤ whole a);
  sqrt = λ a. a;
  of_int = λ n. some n;
  lt = less;
  le = λ a b. if less b a then false else true;
  eq = same;
}

instance pub counting : Random (Option ℤ) ℕ
counting = record {
  draw = λ n engine. (1, suc engine);
  gamma = λ alpha engine. (some (pos 1), suc engine);
  seeded = λ seed. seed;
  unseeded = 0;
}

abbrev even_result : EvaluationResult (Option ℤ)
even_result = record { move_pmf = replicate num_actions (some (pos 1)); value = some (pos 1) }

abbrev even_results : List Board → List (EvaluationResult (Option ℤ))
even_results [] = []
even_results (b ∷ bs) = even_result ∷ even_results bs

instance pub even : Evaluator (Option ℤ) ℕ
even = record { evaluate = λ bs world. (even_results bs, suc world) }

instance pub ticking : Clock ℕ
ticking = record { deadline_passed = λ world. (leb 3 world, suc world) }

pub even-Answers : Answers even
unfolding even
even-Answers bs world = all bs
  where
    all : (bs : List Board) → length (even_results bs) ≡ length bs
    all [] = refl
    all (b ∷ bs) = ap suc (all bs)

-- No whole number is minus infinity, so that no tree has such a value.
all_Above :
    (c : Option ℤ) (parent : Info (Option ℤ)) (kids : Forest (Option ℤ)) → Above c parent kids
unfolding whole_numbers calculate_puct
all_Above c parent nil = tt
all_Above c parent (tree child kids rest) = (refl, all_Above c parent rest)

all_AllAbove :
    (c : Option ℤ) (loss : ℕ) (parent : Info (Option ℤ)) (kids : Forest (Option ℤ))
    → AllAbove c loss parent kids
all_AllAbove c loss parent nil = tt
all_AllAbove c loss parent (tree child kids rest) =
    let here = add_virtual_loss loss parent.current_player child in
    (all_Above c here kids, all_AllAbove c loss here kids, all_AllAbove c loss parent rest)

pub whole_IsAbove : (c : Option ℤ) (loss : ℕ) (node : Node (Option ℤ)) → IsAbove c loss node
whole_IsAbove c loss (root, kids) = (all_Above c root kids, all_AllAbove c loss root kids)

abbrev pub keys : ℕ → ℕ
keys n = n + 1

abbrev pub empty_board : Board
empty_board = new_board keys

pub empty_board-IsValid : IsValid empty_board
empty_board-IsValid = new_board-IsValid keys

-- Solvers that see a threat and keep to one cell.
abbrev pub wary : Solvers
wary = record {
  endgame_solver = some (λ board. []);
  defensive_solver = some (λ board. (true, pos 112 ∷ []));
}
