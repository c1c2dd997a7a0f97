-- ===== src/Engine/Mcts/Policy.antt =====
-- The policies and the root noise of engine/src/mcts.cpp. A policy is a list of 230 floats.
use gomoku.Prelude.{
  ℕ, zero, suc, ◌+◌, Bool, true, false, ◌&&◌, ◌||◌, not, List, [], ◌∷◌, ◌==◌, if◌then◌else◌, get_or,
  set, replicate, length, Option, none, some,
}
use gomoku.Prelude.Int.{ℤ, pos, negsuc, pos_part, in_range, contains}
use gomoku.Prelude.Float.{Float, max_of}
use gomoku.Engine.Board.{Board}
use gomoku.Engine.Board.Play.{get_legal_actions}
use gomoku.Engine.Mcts.{Info, Forest, nil, tree, num_actions}

pub record EvaluationResult {ℓ} (W : Type ℓ) : Type ℓ where
  pub move_pmf : List W
  pub value : W

abbrev pub is_legal_action : Board → ℤ → Bool
is_legal_action board action_id = contains (get_legal_actions board) action_id

-- An endgame solver, or none: the answer -1 is for no solved action.
unfoldable pub get_solved_action : Board → Option (Board → List ℤ) → ℤ
get_solved_action board none = negsuc 0
get_solved_action board (some endgame_solver) = elim (endgame_solver board) [
  | [] ↦ negsuc 0
  | action ∷ line ↦ if is_legal_action board action then action else negsuc 0
]

-- A defence analysis: whether a threat was found, and the safe actions.
abbrev pub is_safe : Board → List ℤ → ℤ → Bool
is_safe board safe_actions action =
    in_range action num_actions && is_legal_action board action && contains safe_actions action

abbrev pub count_safe : (ℤ → Bool) → List ℤ → ℕ
count_safe safe [] = 0
count_safe safe (action ∷ actions) = (if safe action then 1 else 0) + count_safe safe actions

abbrev pub is_empty_list : List ℤ → Bool
is_empty_list [] = true
is_empty_list (a ∷ actions) = false

pub record DirichletNoiseConfig {ℓ} (W : Type ℓ) : Type ℓ where
  pub alpha : W
  pub epsilon : W
  pub seed : ℕ

module _ {ℓ} {W : Type ℓ} ⦃f : Float W⦄ where
  abbrev pub no_policy : List W
  no_policy = replicate num_actions f.nought

  unfoldable pub make_solved_policy : ℤ → List W
  make_solved_policy action_id = set no_policy (pos_part action_id) f.one

  unfoldable pub make_solved_evaluation : ℤ → EvaluationResult W
  make_solved_evaluation action_id = record {
    move_pmf = make_solved_policy action_id;
    value = f.one;
  }

  -- The loops that write one value for each action of a list.
  unfoldable pub write_all : List ℤ → (ℤ → W) → List W → List W
  write_all [] value policy = policy
  write_all (action ∷ actions) value policy =
      write_all actions value (set policy (pos_part action) (value action))

  unfoldable pub make_uniform_legal_policy : Board → List W
  make_uniform_legal_policy board =
      let legal_actions = get_legal_actions board in
      let uniform = f.div f.one (f.of_int (pos (length legal_actions))) in
      write_all legal_actions (λ action. uniform) no_policy

  abbrev pub prior_total : Forest W → W → W
  prior_total nil sum = sum
  prior_total (tree info kids rest) sum =
      prior_total rest (f.add sum (max_of f.nought info.prior_prob))

  abbrev pub count_children : Forest W → ℕ
  count_children nil = 0
  count_children (tree info kids rest) = suc (count_children rest)

  -- The loops that write one value for each child.
  unfoldable pub write_children : Forest W → (Info W → W) → List W → List W
  write_children nil value policy = policy
  write_children (tree info kids rest) value policy =
      write_children rest value (set policy (pos_part info.action_id) (value info))

  -- Of the children of a root.
  unfoldable pub make_prior_policy : Forest W → List W
  make_prior_policy children =
      let prior_sum = prior_total children f.nought in
      let uniform = f.div f.one (f.of_int (pos (count_children children))) in
      if f.lt f.nought prior_sum
      then write_children children
          (λ (info : Info W). f.div (max_of f.nought info.prior_prob) prior_sum) no_policy
      else write_children children (λ (info : Info W). uniform) no_policy

  abbrev pub safe_total : (ℤ → Bool) → List W → List ℤ → W → W
  safe_total safe move_pmf [] sum = sum
  safe_total safe move_pmf (action ∷ actions) sum = safe_total safe move_pmf actions (
      if safe action
      then f.add sum (max_of f.nought (get_or move_pmf (pos_part action) f.nought))
      else sum)

  -- The last loop, which reads and writes the same entries in turn.
  unfoldable pub mask_each : (ℤ → Bool) → W → ℕ → List ℤ → List W → List W
  mask_each safe safe_prior_sum safe_count [] move_pmf = move_pmf
  mask_each safe safe_prior_sum safe_count (action ∷ actions) move_pmf =
      let value =
        if not (safe action)
        then f.nought
        else if f.lt f.nought safe_prior_sum
        then f.div (max_of f.nought (get_or move_pmf (pos_part action) f.nought)) safe_prior_sum
        else f.div f.one (f.of_int (pos safe_count)) in
      mask_each safe safe_prior_sum safe_count actions (set move_pmf (pos_part action) value)

  unfoldable pub mask_policy_to_safe_actions : Board → Bool × List ℤ → List W → List W
  mask_policy_to_safe_actions board (threat_detected, safe_actions) move_pmf =
      let safe = is_safe board safe_actions in
      let legal_actions = get_legal_actions board in
      let safe_count = count_safe safe legal_actions in
      if not threat_detected || is_empty_list safe_actions || not (length move_pmf == num_actions)
      then move_pmf
      else if safe_count == 0
      then move_pmf
      else mask_each safe (safe_total safe move_pmf legal_actions f.nought) safe_count legal_actions
          move_pmf

  -- std::max_element: the first of the greatest, here of those from `index` on and the best before.
  abbrev best_from : List W → ℕ → ℕ → W → ℕ
  best_from [] index best greatest = best
  best_from (x ∷ xs) index best greatest =
      best_from xs (suc index) (if f.lt greatest x then index else best) (max_of greatest x)

  -- GetBestAction.
  unfoldable pub get_best_action : List W → ℤ
  get_best_action [] = negsuc 0
  get_best_action (x ∷ policy) = pos (best_from policy 1 0 x)

  abbrev pub is_valid_dirichlet_noise_config : DirichletNoiseConfig W → Bool
  is_valid_dirichlet_noise_config config =
      f.lt f.nought config.alpha && f.le f.nought config.epsilon && f.le config.epsilon f.one

module _ {ℓ} {W : Type ℓ} ⦃f : Float W⦄ where
  unfoldable pub mix_noise : W → W → List W → List ℤ → List W → List W → List W
  mix_noise epsilon noise_sum move_pmf [] noise noisy = noisy
  mix_noise epsilon noise_sum move_pmf (action ∷ actions) [] noisy = noisy
  mix_noise epsilon noise_sum move_pmf (action ∷ actions) (value ∷ noise) noisy =
      let prior = get_or move_pmf (pos_part action) f.nought in
      mix_noise epsilon noise_sum move_pmf actions noise (
        set noisy (pos_part action)
          (f.add (f.mul (f.sub f.one epsilon) prior) (f.div (f.mul epsilon value) noise_sum)))

-- The standard library's random numbers: an engine, a draw from 1 to a bound, a draw of the gamma
-- distribution with a shape, and the engines of a seed and of the machine's own source.
pub record Random {ℓ} (W : Type ℓ) (R : Type 0) : Type ℓ where
  pub draw : ℕ → R → ℕ × R
  pub gamma : W → R → W × R
  pub seeded : ℕ → R
  pub unseeded : R

module _ {ℓ} {W : Type ℓ} {R : Type 0} ⦃f : Float W⦄ ⦃random : Random W R⦄ where
  -- The noise for each of `left` actions, with its sum.
  abbrev pub draw_noise : W → ℕ → W → R → List W × W × R
  draw_noise alpha zero noise_sum engine = ([], noise_sum, engine)
  draw_noise alpha (suc left) noise_sum engine =
      let (value, engine) = random.gamma alpha engine in
      let (noise, total, engine) = draw_noise alpha left (f.add noise_sum value) engine in
      (value ∷ noise, total, engine)

  unfoldable pub add_dirichlet_noise : Board → List W → DirichletNoiseConfig W → R → List W × R
  add_dirichlet_noise board move_pmf config engine =
      let legal_actions = get_legal_actions board in
      let (noise, noise_sum, drawn) =
        draw_noise config.alpha (length legal_actions) f.nought engine in
      if not (is_valid_dirichlet_noise_config config) || f.eq config.epsilon f.nought
      then (move_pmf, engine)
      else if is_empty_list legal_actions
      then (move_pmf, engine)
      else if f.le noise_sum f.nought
      then (move_pmf, drawn)
      else (mix_noise config.epsilon noise_sum move_pmf legal_actions noise move_pmf, drawn)
