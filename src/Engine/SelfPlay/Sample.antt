-- ===== src/Engine/SelfPlay/Sample.antt =====
-- The choice of an action in engine/src/self_play.cpp: the best one, or a draw by the policy.
use gomoku.Prelude.{
  ℕ, zero, suc, ◌-◌, Bool, false, ◌&&◌, ◌||◌, not, List, [], ◌∷◌, ◌==◌, ltb, if◌then◌else◌, length,
  get_or, Option, none, some,
}
use gomoku.Prelude.Int.{ℤ, pos, negsuc, pos_part, ◌==ℤ◌}
use gomoku.Prelude.Float.{Float, max_of}
use gomoku.Engine.Board.{Board}
use gomoku.Engine.Board.Play.{get_legal_actions}
use gomoku.Engine.Mcts.{num_actions}
use gomoku.Engine.Mcts.Policy.{is_empty_list}
use gomoku.Engine.SelfPlay.{SelfPlayConfig}

-- Doubles, and the draws of an index and of a real number up to a bound.
pub record Sampling {ℓ} (W D : Type ℓ) (R : Type 0) : Type ℓ where
  pub double : Float D
  pub widen : W → D
  pub draw_index : ℕ → R → ℕ × R
  pub draw_real : D → R → D × R

unfoldable pub should_sample_action {ℓ} : {W : Type ℓ} → SelfPlayConfig W → ℤ → Option Bool
should_sample_action config (pos ply) = some (
    config.sample_actions
    && (config.stochastic_action_plies ==ℤ pos 0
        || ltb ply (pos_part config.stochastic_action_plies)))
should_sample_action config (negsuc n) = if config.sample_actions then none else some false

abbrev pub nth_action : List ℤ → ℕ → ℤ
nth_action [] i = negsuc 0
nth_action (action ∷ actions) zero = action
nth_action (action ∷ actions) (suc i) = nth_action actions i

module _ {ℓ} {W : Type ℓ} ⦃f : Float W⦄ where
  abbrev pub best_of : List W → List ℤ → ℤ → W → ℤ
  best_of policy [] best greatest = best
  best_of policy (action ∷ actions) best greatest =
      let probability = get_or policy (pos_part action) f.nought in
      best_of policy actions (if f.lt greatest probability then action else best)
        (if f.lt greatest probability then probability else greatest)

  unfoldable pub best_legal_action : List ℤ → List W → ℤ
  best_legal_action legal_actions policy =
      best_of policy legal_actions (negsuc 0) (f.of_int (negsuc 0))

  module _ {D : Type ℓ} {R : Type 0} (s : Sampling W D R) where
    abbrev pub weight_of : List W → ℤ → D
    weight_of policy action = s.widen (max_of f.nought (get_or policy (pos_part action) f.nought))

    abbrev pub weight_total : List W → List ℤ → D → D
    weight_total policy [] sum = sum
    weight_total policy (action ∷ actions) sum =
        weight_total policy actions (s.double.add sum (weight_of policy action))

    -- The first action at which the sum of the weights has come up to the sample, else the last one.
    abbrev pub reach_sample : List W → D → List ℤ → ℤ → D → ℤ
    reach_sample policy sample [] last cumulative = last
    reach_sample policy sample (action ∷ actions) last cumulative =
        let sum = s.double.add cumulative (weight_of policy action) in
        let later = reach_sample policy sample actions action sum in
        if s.double.le sample sum then action else later

    abbrev pub sample_legal : List ℤ → List W → R → ℤ × R
    sample_legal legal_actions policy engine =
        let total = weight_total policy legal_actions s.double.nought in
        let index = s.draw_index (length legal_actions - 1) engine in
        let sample = s.draw_real total engine in
        if s.double.le total s.double.nought
        then (nth_action legal_actions index.0, index.1)
        else (reach_sample policy sample.0 legal_actions (negsuc 0) s.double.nought, sample.1)

    unfoldable pub sample_action : Board → List W → Bool → R → Option (ℤ × R)
    sample_action board policy sample_actions engine =
        let legal_actions = get_legal_actions board in
        if is_empty_list legal_actions
        then some (negsuc 0, engine)
        else if not (length policy == num_actions)
        then none
        else if not sample_actions
        then some (best_legal_action legal_actions policy, engine)
        else some (sample_legal legal_actions policy engine)
