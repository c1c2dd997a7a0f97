-- ===== src/Engine/SelfPlay/Run.antt =====
-- RunGame and PlayGame of engine/src/self_play.cpp: the loop of a game and the searches that it keeps.
use gomoku.Engine.SelfPlay.Sample.{Sampling, sample_action, should_sample_action}
use gomoku.Prelude.{
  ℕ, zero, suc, ◌+◌, Bool, true, false, ◌&&◌, not, List, [], ◌∷◌, ◌++◌, ◌==◌, ltb, leb,
  if◌then◌else◌, Option, none, some,
}
use mathlib.Core.Option
use gomoku.Prelude.Int.{ℤ, pos, negsuc, pos_part}
use gomoku.Prelude.Float.{Float}
use gomoku.Engine.Board.{Board}
use gomoku.Engine.Board.Play.{get_legal_actions, is_terminal}
use gomoku.Engine.Board.Rules.{apply, new_board}
use gomoku.Engine.Action.{num_cells}
use gomoku.Engine.Mcts.Policy.{DirichletNoiseConfig, Random, is_empty_list}
use gomoku.Engine.Mcts.Search.{
  simulations, has_value, Evaluator, Clock, Mcts, new_mcts, select_action, set_dirichlet_noise,
}
use gomoku.Engine.Mcts.Run.{Solvers, search_board}
use gomoku.Engine.SelfPlay.{SelfPlayConfig, PositionRecord, PlayedGame, GameResult}

abbrev is_positive : ℤ → Bool
is_positive (pos (suc n)) = true
is_positive _ = false

abbrev is_natural : ℤ → Bool
is_natural (pos n) = true
is_natural (negsuc n) = false

-- ValidateConfig.
abbrev pub is_valid_config {ℓ} : {W : Type ℓ} → SelfPlayConfig W → Bool
is_valid_config config =
    is_positive config.simulations
    && is_positive config.batch_size
    && is_natural config.keep_last_moves
    && is_natural config.dirichlet_noise_plies
    && is_natural config.stochastic_action_plies

-- Whether the noise ends at a count of actions.
abbrev pub noise_is_over {ℓ} : {W : Type ℓ} → SelfPlayConfig W → ℕ → Bool
noise_is_over config count =
    ltb 0 (pos_part config.dirichlet_noise_plies)
    && leb (pos_part config.dirichlet_noise_plies) count

-- The searches, each under the evaluator that it is for.
abbrev pub Searches {ℓ} : Type ℓ → Type 0 → Type ℓ
Searches W R = List (ℕ × Mcts W R)

module _ {ℓ} {W : Type ℓ} {R : Type 0} where
  abbrev pub find_search : ℕ → Searches W R → Option (Mcts W R)
  find_search evaluator [] = none
  find_search evaluator ((key, m) ∷ searches) =
      let later = find_search evaluator searches in if key == evaluator then some m else later

  abbrev pub put_search : ℕ → Mcts W R → Searches W R → Searches W R
  put_search evaluator m [] = (evaluator, m) ∷ []
  put_search evaluator m ((key, other) ∷ searches) =
      let later = put_search evaluator m searches in
      if key == evaluator then (key, m) ∷ searches else (key, other) ∷ later

  abbrev pub change_searches : (Mcts W R → Mcts W R) → Searches W R → Searches W R
  change_searches change [] = []
  change_searches change ((key, m) ∷ searches) = (key, change m) ∷ change_searches change searches

-- The state of a game: the local variables of RunGame.
pub record Play {ℓ} (W : Type ℓ) (R E : Type 0) : Type ℓ where
  pub board : Board
  pub searches : Searches W R
  pub history : List (PositionRecord W)
  pub action_count : ℕ
  pub random_engine : R
  pub world : E

-- The noise of a new search.
abbrev pub first_noise {ℓ} : {W : Type ℓ} → SelfPlayConfig W → ℕ → Option (DirichletNoiseConfig W)
first_noise config count = if noise_is_over config count then none else config.dirichlet_noise

module _ {ℓ} {W : Type ℓ} {R : Type 0} ⦃f : Float W⦄ ⦃random : Random W R⦄ where
  abbrev pub search_or_new : SelfPlayConfig W → ℕ → Option (Mcts W R) → Option (Mcts W R)
  search_or_new config count (some m) = some m
  search_or_new config count none =
      new_mcts config.batch_size config.c_puct (first_noise config count) (pos 3)

  -- The noise of the searches after so many actions.
  abbrev pub quieten : SelfPlayConfig W → ℕ → Searches W R → Searches W R
  quieten config count searches =
      if has_value config.dirichlet_noise && noise_is_over config count
      then change_searches (λ (m : Mcts W R). set_dirichlet_noise m none) searches
      else searches

module _ {ℓ} {W : Type ℓ} {R E : Type 0} where
  abbrev pub go_on : Bool × Play W R E → (Play W R E → Option (Play W R E)) → Option (Play W R E)
  go_on (false, p) rest = some p
  go_on (true, p) rest = rest p

  -- What the loop leaves: `none` if the game has not ended.
  unfoldable pub finish : Play W R E → Option (PlayedGame W)
  finish p =
      if not (is_terminal p.board) && not (is_empty_list (get_legal_actions p.board))
      then none
      else some
          (record { final_board = p.board; history = p.history; action_count = p.action_count })

module _ {ℓ} {W : Type ℓ} {R E : Type 0} ⦃f : Float W⦄ ⦃random : Random W R⦄ where
  -- An action that was chosen; without one the game stops. The flag is whether it goes on.
  unfoldable pub take_action :
      (ℕ → ℕ)
      → SelfPlayConfig W
      → Play W R E
      → List W
      → Searches W R
      → E
      → ℤ × R
      → Bool × Play W R E
  take_action rng config p policy searches world (negsuc n, engine) =
      (false, record p { searches = searches; random_engine = engine; world = world })
  take_action rng config p policy searches world (pos action, engine) = (
    true,
    record {
      board = apply rng p.board (pos action);
      searches =
          quieten config (p.action_count + 1)
            (change_searches (λ (m : Mcts W R). select_action m (pos action)) searches);
      history = p.history ++ record { board = p.board; policy = policy } ∷ [];
      action_count = p.action_count + 1;
      random_engine = engine;
      world = world;
    },
  )

  -- From the search's answer on.
  abbrev pub choose :
      {D : Type ℓ}
      → (ℕ → ℕ)
      → Sampling W D R
      → SelfPlayConfig W
      → Play W R E
      → ℕ
      → List W × Mcts W R × E
      → Option (Bool × Play W R E)
  choose rng s config p key (policy, m, world) =
      Option.bind (should_sample_action config (pos p.action_count)) (λ (sample : Bool).
        Option.map (take_action rng config p policy (put_search key m p.searches) world)
          (sample_action s p.board policy sample p.random_engine))

  abbrev pub new_play : (ℕ → ℕ) → SelfPlayConfig W → E → Play W R E
  new_play rng config world = record {
    board = new_board rng;
    searches = [];
    history = [];
    action_count = 0;
    random_engine = if config.seed == 0 then random.unseeded else random.seeded config.seed;
    world = world;
  }

module _ {ℓ} {W D : Type ℓ} {R E : Type 0} ⦃f : Float W⦄ ⦃random : Random W R⦄ ⦃timer : Clock E⦄
    (rng : ℕ → ℕ) (s : Sampling W D R) (config : SelfPlayConfig W) (evaluators : ℕ → Evaluator W E)
    (solvers : Solvers) where
  -- The search for a move by an evaluator: its fuel is one more than the limit of simulations.
  abbrev pub think : Play W R E → ℕ → Mcts W R → Option (List W × Mcts W R × E)
  think p key m =
      let chosen = evaluators key in
      search_board ⦃evaluator = chosen⦄ (pos_part config.simulations + 1) rng solvers
        (simulations config.simulations) p.board m p.world

  -- One round of the loop, for the evaluator that the selector gives.
  unfoldable pub turn : Play W R E → ℕ → Option (Bool × Play W R E)
  turn p key =
      Option.bind (search_or_new config p.action_count (find_search key p.searches))
        (λ (m : Mcts W R). Option.bind (think p key m) (choose rng s config p key))

  unfoldable pub play_on : ℕ → (Board → Option ℕ) → Play W R E → Option (Play W R E)
  play_on zero selector p = some p
  play_on (suc left) selector p =
      let rest = Option.bind (selector p.board) (λ (key : ℕ).
        Option.bind (turn p key) (λ (r : Bool × Play W R E). go_on r (play_on left selector))) in
      if is_terminal p.board then some p else rest

  -- RunGame; no selector is an exception.
  unfoldable pub run_game : Option (Board → Option ℕ) → E → Option (PlayedGame W × E)
  run_game none world = none
  run_game (some selector) world =
      let played =
        Option.bind (play_on (num_cells + 5) selector (new_play rng config world))
          (λ (p : Play W R E). Option.map (λ (game : PlayedGame W). (game, p.world)) (finish p)) in
      if not (is_valid_config config) then none else played

  unfoldable pub play_game : Option (Board → Option ℕ) → E → Option (GameResult × E)
  play_game selector world =
      Option.map
        (λ (r : PlayedGame W × E).
          (record { result = r.0.final_board.result; action_count = r.0.action_count }, r.1))
        (run_game selector world)
