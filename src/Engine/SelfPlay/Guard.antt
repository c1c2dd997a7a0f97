-- ===== src/Engine/SelfPlay/Guard.antt =====
-- The bound on the actions of a game in engine/src/self_play.cpp never ends one.
use gomoku.Engine.SelfPlay.Sample.{Sampling}
use gomoku.Engine.SelfPlay.Run.{Play}
use gomoku.Engine.SelfPlay.Run.{
  Searches, choose, find_search, go_on, new_play, play_on, put_search, search_or_new, take_action,
  think, turn,
}
use gomoku.Engine.SelfPlay.Sample.{sample_action, should_sample_action}
use gomoku.Prelude.{
  ℕ, zero, suc, ◌+◌, ◌≤◌, ◌≡◌, refl, sym, ap, ◌∙◌, Bool, true, false, List, Option, none, some,
  arith, if◌then◌else◌,
}
use mathlib.Core.Option
use gomoku.Prelude.Int.{ℤ, pos, negsuc}
use gomoku.Prelude.Float.{Float}
use gomoku.Prelude.Results.{IfSome, bind-IfSome, map-IfSome, any_IfSome, both-IfSome}
use gomoku.Engine.Action.{num_cells}
use gomoku.Engine.Board.{Board}
use gomoku.Engine.Board.Play.{is_terminal}
use gomoku.Engine.Board.Rules.Game.{Game-length}
use gomoku.Engine.Mcts.Policy.{Random}
use gomoku.Engine.Mcts.Search.{Evaluator, Clock, Mcts}
use gomoku.Engine.Mcts.Run.{Solvers}
use gomoku.Engine.SelfPlay.{SelfPlayConfig}
use gomoku.Engine.SelfPlay.Sound.{IsPlayed, Record-Game, turn-IsPlayed, new_play-IsPlayed}

same_bind {ℓ ℓ' ℓ''} :
    {A : Type ℓ} {B : Type ℓ'} (P : A → Type ℓ'') (o : Option A) (k l : A → Option B)
    → IfSome P o
    → ((a : A) → P a → k a ≡ l a)
    → Option.bind o k ≡ Option.bind o l
unfolding Option.bind
same_bind P none k l h same = refl
same_bind P (some a) k l h same = same a h

module _ {ℓ} {W D : Type ℓ} {R E : Type 0} ⦃f : Float W⦄ ⦃random : Random W R⦄ ⦃timer : Clock E⦄
    (rng : ℕ → ℕ) (s : Sampling W D R) (config : SelfPlayConfig W) (evaluators : ℕ → Evaluator W E)
    (solvers : Solvers) where
  -- A round that goes on has made one action more.
  abbrev Counts : Play W R E → Bool × Play W R E → Type 0
  Counts p r = r.0 ≡ true → r.1.action_count ≡ p.action_count + 1

  take_action-Counts :
      (p : Play W R E) (policy : List W) (searches : Searches W R) (world : E) (r : ℤ × R)
      → Counts p (take_action rng config p policy searches world r)
  unfolding take_action
  take_action-Counts p policy searches world (negsuc n, engine) e = absurd (ground arith)
  take_action-Counts p policy searches world (pos a, engine) e = refl

  choose-Counts :
      (p : Play W R E) (key : ℕ) (found : List W × Mcts W R × E)
      → IfSome (Counts p) (choose rng s config p key found)
  choose-Counts p key (policy, m, world) =
      bind-IfSome (λ b. Unit) (Counts p) (should_sample_action config (pos p.action_count)) _
        (any_IfSome (should_sample_action config (pos p.action_count)))
        (λ sampled u.
          map-IfSome (λ r. Unit) (Counts p) (sample_action s p.board policy sampled p.random_engine)
            _ (any_IfSome (sample_action s p.board policy sampled p.random_engine))
            (λ r u. take_action-Counts p policy (put_search key m p.searches) world r))

  turn-Counts :
      (p : Play W R E) (key : ℕ) → IfSome (Counts p) (turn rng s config evaluators solvers p key)
  unfolding turn
  turn-Counts p key =
      let one = search_or_new config p.action_count (find_search key p.searches) in
      bind-IfSome (λ m. Unit) (Counts p) one _ (any_IfSome one)
        (λ m u.
          bind-IfSome (λ r. Unit) (Counts p) (think rng s config evaluators solvers p key m)
            (choose rng s config p key) (any_IfSome (think rng s config evaluators solvers p key m))
            (λ found u. choose-Counts p key found))

  same_go :
      (p : Play W R E) (k l : Play W R E → Option (Play W R E)) (r : Bool × Play W R E)
      → Counts p r
      → IsPlayed rng r.1
      → ((q : Play W R E) → q.action_count ≡ p.action_count + 1 → IsPlayed rng q → k q ≡ l q)
      → go_on r k ≡ go_on r l
  same_go p k l (false, q) counts h same = refl
  same_go p k l (true, q) counts h same = same q (counts refl) h

  play_on_enough :
      (left more : ℕ) (selector : Board → Option ℕ) (p : Play W R E)
      → IsPlayed rng p
      → num_cells + 3 ≤ p.action_count + left
      → left ≤ more
      → play_on rng s config evaluators solvers left selector p
        ≡ play_on rng s config evaluators solvers more selector p
  unfolding play_on
  play_on_enough zero more selector p h enough le =
      absurd (omega (arith, Game-length rng (Record-Game rng h.recorded), h.counted, enough))
  play_on_enough (suc left) zero selector p h enough le = absurd (omega arith)
  play_on_enough (suc left) (suc more) selector p h enough le =
      ap (λ o. if is_terminal p.board then some p else o)
        (same_bind (λ (key : ℕ). Unit) (selector p.board) _ _ (any_IfSome (selector p.board))
          (λ key u.
            same_bind (λ r. Counts p r × IsPlayed rng r.1)
              (turn rng s config evaluators solvers p key) _ _
              (both-IfSome (Counts p) (λ r. IsPlayed rng r.1)
                (turn rng s config evaluators solvers p key) (turn-Counts p key)
                (turn-IsPlayed rng s config evaluators solvers p key h))
              (λ r k.
                same_go p _ _ r k.0 k.1 (λ q e v.
                  play_on_enough left more selector q v (omega (arith, e)) (omega arith)))))

  -- The bound of 230 actions is as good as any other from 228 on: no game comes to it.
  pub play_on_bound :
      (selector : Board → Option ℕ) (world : E) (bound : ℕ)
      → num_cells + 3 ≤ bound
      → play_on rng s config evaluators solvers bound selector (new_play rng config world)
        ≡ play_on rng s config evaluators solvers
            (num_cells + 5)
            selector
            (new_play rng config world)
  play_on_bound selector world bound enough =
      let first = new_play-IsPlayed rng config world in
      sym (
        play_on_enough (num_cells + 3) bound selector (new_play rng config world) first
          (omega arith) enough)
      ∙ play_on_enough (num_cells + 3) (num_cells + 5) selector (new_play rng config world) first
          (omega arith) (omega arith)
