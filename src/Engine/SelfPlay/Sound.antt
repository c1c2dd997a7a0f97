-- ===== src/Engine/SelfPlay/Sound.antt =====
-- The games of engine/src/self_play.cpp follow the rules, and every search fits the game.
use gomoku.Engine.SelfPlay.Sample.{Sampling}
use gomoku.Engine.SelfPlay.Run.{Play}
use gomoku.Engine.SelfPlay.Run.{
  Searches, choose, find_search, finish, go_on, is_valid_config, new_play, play_on, put_search,
  run_game, search_or_new, take_action, think, turn,
}
use gomoku.Engine.SelfPlay.Sample.{should_sample_action}
use gomoku.Prelude.{
  ℕ, zero, suc, ◌+◌, ◌≤◌, ◌≡◌, refl, sym, ap, subst, inl, inr, Bool, true, false, ◌&&◌, not, List,
  [], ◌∷◌, ◌++◌, length, Option, none, some, arith, if_cases, if_both, Bool-cases,
}
use gomoku.Prelude.Int.{ℤ, pos, negsuc, contains, pos_part}
use gomoku.Prelude.Float.{Float}
use gomoku.Prelude.Results.{IfSome, bind-IfSome, map-IfSome, any_IfSome}
use gomoku.Engine.Action.{num_cells}
use gomoku.Engine.Board.{Board, Result, is_determined}
use gomoku.Engine.Board.Play.{get_legal_actions, is_terminal}
use gomoku.Engine.Board.Play.Legal.{get_legal_actions_iff, get_legal_actions_progress}
use gomoku.Engine.Board.Rules.{apply, new_board}
use gomoku.Engine.Board.Rules.Valid.{IsValid, IsLegal}
use gomoku.Engine.Board.Rules.Game.{Game, start, move, Game-Sound, Game-length}
use gomoku.Engine.Mcts.Policy.{Random, is_empty_list}
use gomoku.Engine.Mcts.Search.{simulations, Evaluator, Clock, Mcts, select_action}
use gomoku.Engine.Mcts.Run.{Solvers}
use gomoku.Engine.Mcts.Fits.{FitsRoot}
use gomoku.Engine.Mcts.Fits.Support.{LegalOnly}
use gomoku.Engine.Mcts.Fits.Whole.{Searched, search_board-Searched, select_action-FitsRoot}
use gomoku.Engine.SelfPlay.{SelfPlayConfig, PositionRecord, PlayedGame}
use gomoku.Engine.SelfPlay.Choice.{Among, sample_action-Among}
use gomoku.Engine.SelfPlay.Searches.{
  AllFit, found_fits, put_fits, changed_fits, search_or_new_fits, quiet_fits,
}

-- The positions that a game has been through from its start, each with a policy of legal actions and
-- followed by a legal action.
pub data Record {ℓ} {W : Type ℓ} ⦃f : Float W⦄ (rng : ℕ → ℕ)
    : List (PositionRecord W) → Board → Type ℓ where
  opening : Record rng [] (new_board rng)
  after :
      {history : List (PositionRecord W)} {board : Board} (policy : List W) (a : ℤ)
      → Record rng history board
      → LegalOnly board policy
      → IsLegal board a
      → Record rng (history ++ record { board = board; policy = policy } ∷ []) (apply rng board a)

module _ {ℓ} {W : Type ℓ} ⦃f : Float W⦄ (rng : ℕ → ℕ) where
  length_more :
      (xs : List (PositionRecord W)) (x : PositionRecord W)
      → length (xs ++ x ∷ []) ≡ suc (length xs)
  length_more [] x = refl
  length_more (y ∷ xs) x = ap suc (length_more xs x)

  pub Record-Game :
      {history : List (PositionRecord W)} {board : Board}
      → Record rng history board
      → Game rng (length history) board
  Record-Game opening = start
  Record-Game (after {history = history} {board = board} policy a g only legal) =
      subst (λ n. Game rng n (apply rng board a))
        (sym (length_more history (record { board = board; policy = policy })))
        (move a (Record-Game g) legal)

  module _ {R : Type 0} where
    -- A game in play.
    pub record IsPlayed {E : Type 0} (p : Play W R E) : Type ℓ where
      pub recorded : Record rng p.history p.board
      pub counted : length p.history ≡ p.action_count
      pub fits : AllFit rng p.board p.searches

    module _ {E : Type 0} ⦃random : Random W R⦄ where
      take_action-IsPlayed :
          (config : SelfPlayConfig W) (p : Play W R E) (policy : List W) (searches : Searches W R)
          (world : E) (r : ℤ × R)
          → IsPlayed p
          → LegalOnly p.board policy
          → AllFit rng p.board searches
          → Among (get_legal_actions p.board) r.0
          → IsPlayed (take_action rng config p policy searches world r).1
      unfolding take_action
      take_action-IsPlayed config p policy searches world (negsuc n, engine) h only all among =
          record { recorded = h.recorded; counted = h.counted; fits = all }
      take_action-IsPlayed config p policy searches world (pos a, engine) h only all (inl e) =
          absurd (ground arith)
      take_action-IsPlayed config p policy searches world (pos a, engine) h only all (inr legal) =
          let next = apply rng p.board (pos a) in
          record {
            recorded =
                after policy (pos a) h.recorded only
                  ((get_legal_actions_iff p.board (pos a)).0 legal);
            counted = omega (
              arith,
              h.counted,
              length_more p.history (record { board = p.board; policy = policy }),
            );
            fits = quiet_fits rng config (p.action_count + 1) next _ (
                changed_fits rng p.board next (λ (m : Mcts W R). select_action m (pos a)) searches
                  (λ m k. select_action-FitsRoot rng p.board m (pos a) k) all);
          }

      choose-IsPlayed :
          {D : Type ℓ} (s : Sampling W D R) (config : SelfPlayConfig W) (p : Play W R E) (key : ℕ)
          (found : List W × Mcts W R × E)
          → IsPlayed p
          → Searched rng p.board found
          → IfSome (λ (r : Bool × Play W R E). IsPlayed r.1) (choose rng s config p key found)
      choose-IsPlayed s config p key (policy, m, world) h (fit, only) =
          bind-IfSome (λ b. Unit) (λ (r : Bool × Play W R E). IsPlayed r.1)
            (should_sample_action config (pos p.action_count)) _
            (any_IfSome (should_sample_action config (pos p.action_count)))
            (λ sampled u.
              map-IfSome (λ (r : ℤ × R). Among (get_legal_actions p.board) r.0)
                (λ (r : Bool × Play W R E). IsPlayed r.1) _ _
                (sample_action-Among s p.board policy sampled p.random_engine)
                (λ r among.
                  take_action-IsPlayed config p policy (put_search key m p.searches) world r h only
                    (put_fits rng p.board key m p.searches fit h.fits) among))

module _ {ℓ} {W D : Type ℓ} {R E : Type 0} ⦃f : Float W⦄ ⦃random : Random W R⦄ ⦃timer : Clock E⦄
    (rng : ℕ → ℕ) (s : Sampling W D R) (config : SelfPlayConfig W) (evaluators : ℕ → Evaluator W E)
    (solvers : Solvers) where
  -- The result of a round, if there is one.
  abbrev Goes : Option (Bool × Play W R E) → Type ℓ
  Goes o = IfSome (λ (r : Bool × Play W R E). IsPlayed rng r.1) o

  pub turn-IsPlayed :
      (p : Play W R E) (key : ℕ)
      → IsPlayed rng p
      → Goes (turn rng s config evaluators solvers p key)
  unfolding turn
  turn-IsPlayed p key h =
      let chosen = evaluators key in
      let valid = (Game-Sound rng (Record-Game rng h.recorded)).0 in
      bind-IfSome (λ (m : Mcts W R). FitsRoot rng p.board m.root)
        (λ (r : Bool × Play W R E). IsPlayed rng r.1)
        (search_or_new config p.action_count (find_search key p.searches)) _
        (search_or_new_fits rng config p.action_count p.board (find_search key p.searches)
          (found_fits rng p.board key p.searches h.fits))
        (λ m fit.
          bind-IfSome (Searched rng p.board) (λ (r : Bool × Play W R E). IsPlayed rng r.1)
            (think rng s config evaluators solvers p key m) (choose rng s config p key)
            (search_board-Searched rng ⦃evaluator = chosen⦄ (pos_part config.simulations + 1)
              solvers (simulations config.simulations) p.board m p.world valid fit)
            (λ found k. choose-IsPlayed rng s config p key found h k))

  go_on-IsPlayed :
      (r : Bool × Play W R E) (rest : Play W R E → Option (Play W R E))
      → IsPlayed rng r.1
      → ((p : Play W R E) → IsPlayed rng p → IfSome (IsPlayed rng) (rest p))
      → IfSome (IsPlayed rng) (go_on r rest)
  go_on-IsPlayed (false, p) rest h step = h
  go_on-IsPlayed (true, p) rest h step = step p h

  play_on-IsPlayed :
      (left : ℕ) (selector : Board → Option ℕ) (p : Play W R E)
      → IsPlayed rng p
      → IfSome (IsPlayed rng) (play_on rng s config evaluators solvers left selector p)
  unfolding play_on
  play_on-IsPlayed zero selector p h = h
  play_on-IsPlayed (suc left) selector p h =
      if_both (IfSome (IsPlayed rng)) (is_terminal p.board) h (
        bind-IfSome (λ (key : ℕ). Unit) (IsPlayed rng) (selector p.board) _
          (any_IfSome (selector p.board))
          (λ key u.
            bind-IfSome (λ (r : Bool × Play W R E). IsPlayed rng r.1) (IsPlayed rng)
              (turn rng s config evaluators solvers p key) _ (turn-IsPlayed p key h)
              (λ r k. go_on-IsPlayed r _ k (play_on-IsPlayed left selector))))

not_empty : (ids : List ℤ) (a : ℤ) → contains ids a ≡ true → is_empty_list ids ≡ false
not_empty [] a h = ground arith
not_empty (b ∷ ids) a h = refl

goes_on : (r : Result) → is_determined r ≡ false → r ≡ Result.undetermined
goes_on r h = ground arith

-- A valid board whose game is not over has a legal action.
ended :
    (board : Board)
    → IsValid board
    → not (is_terminal board) && not (is_empty_list (get_legal_actions board)) ≡ false
    → is_terminal board ≡ true
ended board v e = elim (Bool-cases (is_terminal board)) [
  | inl over ↦ over
  | inr going ↦
      let (id, listed, legal) = get_legal_actions_progress board v (goes_on board.result going) in
      absurd (ground (arith, not_empty (get_legal_actions board) id listed))
]

module _ {ℓ} {W : Type ℓ} ⦃f : Float W⦄ (rng : ℕ → ℕ) where
  -- A game that was played to its end by the rules.
  pub record IsWhole (g : PlayedGame W) : Type ℓ where
    pub recorded : Record rng g.history g.final_board
    pub counted : length g.history ≡ g.action_count
    pub over : is_terminal g.final_board ≡ true
    pub bounded : g.action_count ≤ num_cells + 2

  finish-IsWhole : {R E : Type 0} (p : Play W R E) → IsPlayed rng p → IfSome IsWhole (finish p)
  unfolding finish
  finish-IsWhole p h =
      let game = Record-Game rng h.recorded in
      if_cases (IfSome IsWhole)
        (not (is_terminal p.board) && not (is_empty_list (get_legal_actions p.board))) {x = none}
        (λ e. tt)
        (λ e. record {
          recorded = h.recorded;
          counted = h.counted;
          over = ended p.board (Game-Sound rng game).0 e;
          bounded = omega (arith, Game-length rng game, h.counted);
        })

pub new_play-IsPlayed {ℓ} :
    {W : Type ℓ} {R E : Type 0} ⦃f : Float W⦄ ⦃random : Random W R⦄ (rng : ℕ → ℕ)
    (config : SelfPlayConfig W) (world : E)
    → IsPlayed rng {R = R} (new_play rng config world)
new_play-IsPlayed rng config world = record { recorded = opening; counted = refl; fits = tt }

module _ {ℓ} {W D : Type ℓ} {R E : Type 0} ⦃f : Float W⦄ ⦃random : Random W R⦄
    ⦃timer : Clock E⦄ where
  -- A game of self play, where it throws no exception, went by the rules from the start to its end:
  -- each recorded policy gives weight to legal actions only, each position follows from the one before
  -- by a legal action, the last board is terminal, and there are as many positions as actions, at most
  -- 227.
  pub run_game-IsWhole :
      (rng : ℕ → ℕ) (s : Sampling W D R) (config : SelfPlayConfig W)
      (evaluators : ℕ → Evaluator W E) (solvers : Solvers) (selector : Option (Board → Option ℕ))
      (world : E)
      → IfSome
          (λ (r : PlayedGame W × E). IsWhole rng r.0)
          (run_game rng s config evaluators solvers selector world)
  unfolding run_game
  run_game-IsWhole rng s config evaluators solvers none world = tt
  run_game-IsWhole rng s config evaluators solvers (some selector) world =
      let P = IfSome (λ (r : PlayedGame W × E). IsWhole rng r.0) in
      if_both P (not (is_valid_config config)) {x = none} tt (
        bind-IfSome (IsPlayed rng) (λ (r : PlayedGame W × E). IsWhole rng r.0)
          (play_on rng s config evaluators solvers (num_cells + 5) selector
            (new_play rng config world))
          _
          (play_on-IsPlayed rng s config evaluators solvers (num_cells + 5) selector
            (new_play rng config world) (new_play-IsPlayed rng config world))
          (λ p h.
            map-IfSome (IsWhole rng) (λ (r : PlayedGame W × E). IsWhole rng r.0) (finish p) _
              (finish-IsWhole rng p h) (λ g k. k)))
