-- ===== src/Plugin/MatchCoordinator/Sync.antt =====
-- Both players hear every action: one that keeps a board of its own has the coordinator's board.
use gomoku.Prelude.{
  ℕ, zero, suc, ◌≡◌, refl, sym, ap, ◌∙◌, inl, inr, Bool, Option, none, some, Bool-cases, if_both,
}
use mathlib.Core.Option
use gomoku.Prelude.Int.{ℤ}
use gomoku.Plugin.Difficulty.{Difficulty}
use gomoku.Plugin.State.{BoardState, Seat, new_state, is_legal_action, is_terminal}
use gomoku.Plugin.State.Apply.{apply_action}
use gomoku.Plugin.Player.{Player, MatchSettings, MatchResultInfo}
use gomoku.Plugin.MatchCoordinator.{
  MatchCoordinator, inquire, answer, step_with, step, rounds, start_match, play_match,
}

-- A player that keeps the board it has heard of, as `view` reads it.
pub record IsFollower (P : Player) (view : Player.State P → BoardState) : Type 0 where
  pub starts :
      (settings : MatchSettings) (p : Player.State P)
      → view (Player.on_match_start P settings p) ≡ new_state
  pub inquired :
      (board : BoardState) (p : Player.State P) → view (Player.inquire_action P board p).1 ≡ view p
  pub applies :
      (id : ℤ) (p : Player.State P) → view (Player.apply_action P id p) ≡ apply_action (view p) id
  pub ends :
      (info : MatchResultInfo) (p : Player.State P) → view (Player.on_match_end P info p) ≡ view p

module _ (A B : Player) (view_a : Player.State A → BoardState)
    (view_b : Player.State B → BoardState) where
  -- Both players have the coordinator's board.
  pub record IsInSync (c : MatchCoordinator A B) : Type 0 where
    pub sees_a : Option.map view_a c.player_a ≡ some c.board
    pub sees_b : Option.map view_b c.player_b ≡ some c.board

  inquire_views :
      (board : BoardState) (seat : Seat) (a : Player.State A) (b : Player.State B)
      → IsFollower A view_a
      → IsFollower B view_b
      → (view_a (inquire A B board seat a b).1 ≡ view_a a)
        × (view_b (inquire A B board seat a b).2 ≡ view_b b)
  inquire_views board Seat.a a b fa fb = (fa.inquired board a, refl)
  inquire_views board Seat.b a b fa fb = (refl, fb.inquired board b)

  module _ {World : Type 0} (step_callback : BoardState → ℤ → Seat → World → World)
      (fa : IsFollower A view_a) (fb : IsFollower B view_b) where
    answer-IsInSync :
        (c : MatchCoordinator A B) (w : World) (id : ℤ) (a : Player.State A) (b : Player.State B)
        → view_a a ≡ c.board
        → view_b b ≡ c.board
        → IsInSync (answer A B World step_callback c w id a b).0
    unfolding answer
    answer-IsInSync c w id a b ea eb =
        let heard_a = fa.applies id a ∙ ap (λ (s : BoardState). apply_action s id) ea in
        let heard_b = fb.applies id b ∙ ap (λ (s : BoardState). apply_action s id) eb in
        elim (Bool-cases (is_legal_action c.board id)) [
          | inr e ↦
              rw e (record {
                sees_a = ap some (fa.ends _ a ∙ ea);
                sees_b = ap some (fb.ends _ b ∙ eb);
              })
          | inl e ↦ elim (Bool-cases (is_terminal (apply_action c.board id))) [
            | inl t ↦
                rw (e, t)
                  (record {
                    sees_a = ap some (fa.ends _ _ ∙ heard_a);
                    sees_b = ap some (fb.ends _ _ ∙ heard_b);
                  })
            | inr t ↦ rw (e, t) (record { sees_a = ap some heard_a; sees_b = ap some heard_b })
          ]
        ]

    step_with-IsInSync :
        (c : MatchCoordinator A B) (w : World) (a : Option (Player.State A))
        (b : Option (Player.State B))
        → c.player_a ≡ a
        → c.player_b ≡ b
        → IsInSync c
        → IsInSync (step_with A B World step_callback c w a b).0
    unfolding step_with
    step_with-IsInSync c w none b ha hb v = v
    step_with-IsInSync c w (some a) none ha hb v = v
    step_with-IsInSync c w (some a) (some b) ha hb v =
        let own_a = ap (λ (o : Option (Player.State A)). Option.map view_a o) (sym ha) ∙ v.sees_a in
        let own_b = ap (λ (o : Option (Player.State B)). Option.map view_b o) (sym hb) ∙ v.sees_b in
        let asked = inquire A B c.board c.board.current_seat a b in
        let same = inquire_views c.board c.board.current_seat a b fa fb in
        if_both (λ (n : MatchCoordinator A B × World × Bool). IsInSync n.0) c.finished v
          (answer-IsInSync c w asked.0 asked.1 asked.2 (same.0 ∙ cc own_a) (same.1 ∙ cc own_b))

    step-IsInSync :
        (c : MatchCoordinator A B) (w : World)
        → IsInSync c
        → IsInSync (step A B World step_callback c w).0
    unfolding step
    step-IsInSync c w v = step_with-IsInSync c w c.player_a c.player_b refl refl v

    rounds-IsInSync :
        (fuel : ℕ) (c : MatchCoordinator A B) (w : World)
        → IsInSync c
        → IsInSync (rounds A B World step_callback fuel c w).0
    unfolding rounds
    rounds-IsInSync zero c w v = v
    rounds-IsInSync (suc fuel) c w v =
        let next = step A B World step_callback c w in
        let after = step-IsInSync c w v in
        if_both (λ (n : MatchCoordinator A B × World). IsInSync n.0) c.finished v
          (if_both (λ (n : MatchCoordinator A B × World). IsInSync n.0) next.2
            (rounds-IsInSync fuel next.0 next.1 after) after)

    abbrev pub Synced : Option (MatchCoordinator A B × World) → Type 0
    Synced none = ⊥
    Synced (some (c, w)) = IsInSync c

    -- If both players keep the board they hear of (a new one at OnMatchStart, ApplyAction on each
    -- action they are told), then when PlayMatch ends both have the coordinator's board, however
    -- the match ended.
    pub play_match-Synced :
        (a : Player.State A) (b : Player.State B) (diff_a diff_b : Difficulty) (w : World)
        → Synced (play_match A B World step_callback (some a) (some b) diff_a diff_b w)
    unfolding play_match start_match
    play_match-Synced a b diff_a diff_b w =
        rounds-IsInSync 228 _ w
          (record { sees_a = ap some (fa.starts _ a); sees_b = ap some (fb.starts _ b) })
