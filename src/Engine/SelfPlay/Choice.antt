-- ===== src/Engine/SelfPlay/Choice.antt =====
-- The actions that engine/src/self_play.cpp chooses are legal, or none.
use gomoku.Engine.SelfPlay.Sample.{Sampling}
use gomoku.Engine.SelfPlay.Sample.{
  best_legal_action, best_of, nth_action, reach_sample, sample_action, weight_of,
}
use gomoku.Prelude.{
  ℕ, zero, suc, ◌≡◌, refl, ◌⊎◌, inl, inr, Bool, true, not, List, [], ◌∷◌, length, arith, if_both,
  get_or, ◌==◌,
}
use gomoku.Prelude.Int.{ℤ, negsuc, contains, pos_part, ==ℤ_iff}
use gomoku.Prelude.Float.{Float}
use gomoku.Prelude.Results.{IfSome}
use gomoku.Engine.Board.{Board}
use gomoku.Engine.Board.Play.{get_legal_actions}
use gomoku.Engine.Mcts.{num_actions}
use gomoku.Engine.Mcts.Policy.{is_empty_list}

-- No action, or one of a list.
abbrev pub Among : List ℤ → ℤ → Type 0
Among ids a = (a ≡ negsuc 0) ⊎ (contains ids a ≡ true)

nth_action-Among : (ids : List ℤ) (i : ℕ) → Among ids (nth_action ids i)
nth_action-Among [] i = inl refl
nth_action-Among (a ∷ ids) zero = inr (ground (arith, (==ℤ_iff a a).1 refl))
nth_action-Among (a ∷ ids) (suc i) = elim (nth_action-Among ids i) [
  | inl e ↦ inl e
  | inr h ↦ inr (ground (arith, h))
]

module _ {ℓ} {W : Type ℓ} ⦃f : Float W⦄ where
  best_of-Among :
      (legal : List ℤ) (policy : List W) (ids : List ℤ) (best : ℤ) (greatest : W)
      → ((a : ℤ) → contains ids a ≡ true → contains legal a ≡ true)
      → Among legal best
      → Among legal (best_of policy ids best greatest)
  best_of-Among legal policy [] best greatest all h = h
  best_of-Among legal policy (a ∷ ids) best greatest all h =
      let probability = get_or policy (pos_part a) f.nought in
      best_of-Among legal policy ids _ _ (λ b k. all b (ground (arith, k)))
        (if_both (Among legal) (f.lt greatest probability)
          (inr (all a (ground (arith, (==ℤ_iff a a).1 refl)))) h)

  reach_sample-Among :
      {D : Type ℓ} {R : Type 0} (s : Sampling W D R) (legal : List ℤ) (policy : List W) (sample : D)
      (ids : List ℤ) (last : ℤ) (sum : D)
      → ((a : ℤ) → contains ids a ≡ true → contains legal a ≡ true)
      → Among legal last
      → Among legal (reach_sample s policy sample ids last sum)
  reach_sample-Among s legal policy sample [] last sum all h = h
  reach_sample-Among s legal policy sample (a ∷ ids) last sum all h =
      let here : Among legal a = inr (all a (ground (arith, (==ℤ_iff a a).1 refl))) in
      let next = s.double.add sum (weight_of s policy a) in
      if_both (Among legal) (s.double.le sample next) here (
        reach_sample-Among s legal policy sample ids a next (λ b k. all b (ground (arith, k))) here)

  pub sample_action-Among :
      {D : Type ℓ} {R : Type 0} (s : Sampling W D R) (board : Board) (policy : List W)
      (sampled : Bool) (engine : R)
      → IfSome
          (λ (r : ℤ × R). Among (get_legal_actions board) r.0)
          (sample_action s board policy sampled engine)
  unfolding sample_action best_legal_action
  sample_action-Among {R} s board policy sampled engine =
      let legal = get_legal_actions board in
      let P = IfSome (λ (r : ℤ × R). Among legal r.0) in
      if_both P (is_empty_list legal) (inl refl) (
        if_both P (not (length policy == num_actions)) tt (
          if_both P (not sampled)
            (best_of-Among legal policy legal (negsuc 0) _ (λ a h. h) (inl refl))
            (if_both (λ (r : ℤ × R). Among legal r.0) _ (nth_action-Among legal _)
              (reach_sample-Among s legal policy _ legal (negsuc 0) _ (λ a h. h) (inl refl)))))
