-- ===== src/Engine/Mcts/Search.antt =====
-- MCTS of engine/src/mcts.cpp: its state, Search, SelectAction, Reset and SetDirichletNoise. The
-- evaluator and the clock are parameters that act on a world; the two solvers are functions. A
-- `none` is an exception, or the null pointer where no child can be picked. The loop runs on fuel.
use gomoku.Prelude.{
  ℕ, suc, ◌+◌, Bool, true, false, ◌&&◌, ◌||◌, not, List, [], ◌∷◌, ◌++◌, ◌==◌, ltb, if◌then◌else◌,
  get_or, Option, none, some,
}
use gomoku.Prelude.Int.{ℤ, pos, negsuc, pos_part}
use gomoku.Prelude.Float.{Float}
use gomoku.Engine.Board.{Board, BoardSignature}
use gomoku.Engine.Board.Play.{is_terminal}
use gomoku.Engine.Mcts.{Info, Forest, nil, tree, Node, detach_child}
use gomoku.Engine.Mcts.Policy.{
  EvaluationResult, Random, DirichletNoiseConfig, add_dirichlet_noise, get_solved_action,
  make_solved_evaluation, make_prior_policy, mask_policy_to_safe_actions, write_children, no_policy,
  is_empty_list,
}
use gomoku.Engine.Mcts.Walk.{Leaf}

pub data StoppingCriteria : Type 0 where
  simulations milliseconds : ℤ → StoppingCriteria

abbrev pub has_deadline : StoppingCriteria → Bool
has_deadline (simulations n) = false
has_deadline (milliseconds n) = true

abbrev pub simulation_limit : StoppingCriteria → ℕ
simulation_limit (simulations n) = pos_part n
simulation_limit (milliseconds n) = 0

-- The criterion that is no exception.
abbrev pub is_accepted : StoppingCriteria → Bool
is_accepted (simulations (pos (suc n))) = true
is_accepted (milliseconds (pos n)) = true
is_accepted _ = false

-- The evaluator, and whether the steady clock has reached the deadline when it is read.
pub record Evaluator {ℓ} (W : Type ℓ) (E : Type 0) : Type ℓ where
  pub evaluate : List Board → E → List (EvaluationResult W) × E

pub record Clock (E : Type 0) : Type 0 where
  pub deadline_passed : E → Bool × E

abbrev pub Cache {ℓ} : Type ℓ → Type ℓ
Cache W = List (BoardSignature × EvaluationResult W)

pub record Mcts {ℓ} (W : Type ℓ) (R : Type 0) : Type ℓ where
  pub batch_size : ℕ
  pub c_puct : W
  pub virtual_loss : ℕ
  pub dirichlet_noise : Option (DirichletNoiseConfig W)
  pub random_engine : R
  pub randomize_ties : Bool
  pub root_noise_applied : Bool
  pub defensive_filter_applied : Bool
  pub root_defensive_mask_active : Bool
  pub root : Option (Node W)
  pub evaluation_cache : Cache W

abbrev pub same_signature : BoardSignature → BoardSignature → Bool
same_signature (a, b) (c, d) = a == c && b == d

abbrev pub has_value {ℓ} : {A : Type ℓ} → Option A → Bool
has_value none = false
has_value (some a) = true

-- A solver's leaf is that of a board.
abbrev pub missing_from : List Board → BoardSignature → Bool
missing_from [] sig = true
missing_from (b ∷ bs) sig = not (same_signature b.zobrists sig) && missing_from bs sig

module _ {ℓ} {W : Type ℓ} where
  abbrev pub find_cached : Cache W → BoardSignature → Option (EvaluationResult W)
  find_cached [] sig = none
  find_cached ((s, r) ∷ cache) sig =
      let later = find_cached cache sig in if same_signature s sig then some r else later

  -- operator[] and an assignment, on a cache whose first entry of a board counts.
  abbrev pub put_cached : BoardSignature → EvaluationResult W → Cache W → Cache W
  put_cached sig result cache = (sig, result) ∷ cache

  -- The boards of a batch that the cache has not, each once, after those `found` before.
  unfoldable pub missed_boards : Cache W → List Board → List Board → List Board
  missed_boards cache [] found = found
  missed_boards cache (b ∷ bs) found = missed_boards cache bs (
      if not (has_value (find_cached cache b.zobrists)) && missing_from found b.zobrists
      then found ++ b ∷ []
      else found)

-- The boards to evaluate, of the leaves that are not terminal.
abbrev pub leaf_boards : List Leaf → List Board
leaf_boards [] = []
leaf_boards (leaf ∷ leaves) =
    if is_terminal leaf.board then leaf_boards leaves else leaf.board ∷ leaf_boards leaves

module _ {ℓ} {W : Type ℓ} ⦃f : Float W⦄ where
  -- The solved boards override the evaluator's results.
  unfoldable pub fill_cache :
      Option (Board → List ℤ) → List Board → List (EvaluationResult W) → Cache W → Cache W
  fill_cache solver [] results cache = cache
  fill_cache solver (b ∷ bs) [] cache = cache
  fill_cache solver (b ∷ bs) (r ∷ results) cache = fill_cache solver bs results (
      put_cached b.zobrists
        (elim (get_solved_action b solver) [
          | pos action ↦ make_solved_evaluation (pos action)
          | negsuc n ↦ r
        ])
        cache)

  abbrev pub visits_total : Forest W → ℕ
  visits_total nil = 0
  visits_total (tree info kids rest) = info.visits + visits_total rest

  unfoldable pub make_visit_policy : Forest W → List W
  make_visit_policy children =
      let total_visits = visits_total children in
      if ltb 0 total_visits
      then write_children children
          (λ (info : Info W). f.div (f.of_int (pos info.visits)) (f.of_int (pos total_visits)))
          no_policy
      else make_prior_policy children

  -- The priors of the children, and the loops that set them.
  unfoldable pub priors_of : Forest W → List W
  priors_of children = write_children children (λ (info : Info W). info.prior_prob) no_policy

  unfoldable pub set_priors : List W → Forest W → Forest W
  set_priors priors nil = nil
  set_priors priors (tree info kids rest) =
      tree (record info { prior_prob = get_or priors (pos_part info.action_id) f.nought }) kids
        (set_priors priors rest)

module _ {ℓ} {W : Type ℓ} {R : Type 0} ⦃f : Float W⦄ ⦃random : Random W R⦄ where
  abbrev pub seeded_by : Option (DirichletNoiseConfig W) → R
  seeded_by none = random.unseeded
  seeded_by (some config) = if config.seed == 0 then random.unseeded else random.seeded config.seed

  -- The constructor: `none` is an exception.
  unfoldable pub new_mcts : ℤ → W → Option (DirichletNoiseConfig W) → ℤ → Option (Mcts W R)
  new_mcts (pos (suc size)) c_puct noise (pos loss) =
      if f.lt c_puct f.nought
      then none
      else some (record {
        batch_size = suc size;
        c_puct = c_puct;
        virtual_loss = loss;
        dirichlet_noise = noise;
        random_engine = seeded_by noise;
        randomize_ties = has_value noise;
        root_noise_applied = false;
        defensive_filter_applied = false;
        root_defensive_mask_active = false;
        root = none;
        evaluation_cache = [];
      })
  new_mcts batch_size c_puct noise virtual_loss = none

  unfoldable pub reset : Mcts W R → Mcts W R
  reset m = record m {
    root = none;
    root_noise_applied = false;
    defensive_filter_applied = false;
    root_defensive_mask_active = false;
    evaluation_cache = [];
  }

  -- SelectAction, once the child was looked for.
  abbrev pub advance : Mcts W R → Option (Node W) → Mcts W R
  advance m none = reset m
  advance m (some child) = record m {
    root = some child;
    root_noise_applied = false;
    defensive_filter_applied = false;
    root_defensive_mask_active = false;
  }

  abbrev pub select_from : Mcts W R → ℤ → Option (Node W) → Mcts W R
  select_from m action_id none = m
  select_from m action_id (some (info, kids)) = advance m (detach_child action_id kids)

  unfoldable pub select_action : Mcts W R → ℤ → Mcts W R
  select_action m action_id = select_from m action_id m.root

  unfoldable pub set_dirichlet_noise : Mcts W R → Option (DirichletNoiseConfig W) → Mcts W R
  set_dirichlet_noise m none = record m { dirichlet_noise = none; root_noise_applied = false }
  set_dirichlet_noise m (some config) = record m {
    dirichlet_noise = some config;
    randomize_ties = true;
    root_noise_applied = false;
    random_engine = if config.seed == 0 then m.random_engine else random.seeded config.seed;
  }

  -- The root's noise, if there is a configuration and a child.
  unfoldable pub noised : Mcts W R → Board → Node W → Option (DirichletNoiseConfig W) → Mcts W R
  noised m board node none = m
  noised m board (info, nil) (some config) = m
  noised m board (info, tree first below rest) (some config) =
      let kids = tree first below rest in
      let (noisy, engine) = add_dirichlet_noise board (priors_of kids) config m.random_engine in
      record m { root = some (info, set_priors noisy kids); random_engine = engine }

  -- ApplyRootNoise, on the root that Search has made.
  unfoldable pub apply_root_noise : Mcts W R → Board → Node W → Mcts W R
  apply_root_noise m board node = noised m board node m.dirichlet_noise

  unfoldable pub apply_defensive_filter :
      Mcts W R → Board → Node W → (Board → Bool × List ℤ) → Mcts W R
  apply_defensive_filter m board (info, kids) defensive_solver =
      let analysis = defensive_solver board in
      if not analysis.0 || is_empty_list analysis.1 then m else record m {
        root_defensive_mask_active = true;
        root =
            some
              (info, set_priors (mask_policy_to_safe_actions board analysis (priors_of kids)) kids);
      }
