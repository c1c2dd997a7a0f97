-- ===== src/Engine/Vcf/Search/Force.antt =====
-- The wins by continuous fours, and why a four, a double four and a reply to one lead to them.
use gomoku.Prelude.{
  ℕ, ◌≡◌, ◌≢◌, sym, ap, subst, ◌∙◌, true, false, Option, none, some, List, [], ◌∷◌, length, ◌==◌,
  ==_iff, if◌then◌else◌, arith, Bool-cases, inl, inr,
}
use mathlib.Core.Option
use gomoku.Prelude.Int.{pos}
use gomoku.Engine.Vcf.{Position, Stone, is_empty, vcf_num_cells}
use gomoku.Engine.Vcf.Threats.{makes_exact_five, winning_moves, has}
use gomoku.Engine.Vcf.Threats.Stones.{put, put_taken, five_stays, five_was, five-is_empty}
use gomoku.Engine.Vcf.Threats.Winning.{winning_moves_complete}
use gomoku.Engine.Vcf.Search.{defender_wins_first}

taken_free : false ≢ true
taken_free e = ground arith

first_win : (ws : List ℕ) (a r : ℕ) → defender_wins_first ws a ≡ false → has ws r ≡ true → r ≡ a
first_win [] a r h k = ground arith
first_win (b ∷ []) a r h k = ground arith
first_win (b ∷ c ∷ ws) a r h k = ground arith

module _ (attacker defender : Stone) where
  -- The attacker, to move, wins by force with continuous fours, whatever the defender answers, and
  -- begins with the given cell.
  pub data Forces : Position → ℕ → Type 0 where
    -- It makes a five at once.
    fives : (p : Position) (a : ℕ) → makes_exact_five p attacker a ≡ true → Forces p a
    -- It makes a four: a five on offer. The defender has no five to make, and loses by every reply.
    fours :
        (p : Position) (a w : ℕ) (answer : ℕ → ℕ)
        → is_empty p (pos a) ≡ true
        → makes_exact_five (put p a attacker) attacker w ≡ true
        → ((r : ℕ) → makes_exact_five (put p a attacker) defender r ≡ false)
        → ((r : ℕ)
            → is_empty (put p a attacker) (pos r) ≡ true
            → Forces (put (put p a attacker) r defender) (answer r))
        → Forces p a

  -- What an answer of the search claims of a position.
  abbrev pub Claims : Position → Option (List ℕ) → Type 0
  Claims p none = Unit
  Claims p (some []) = ⊥
  Claims p (some (a ∷ line)) = Forces p a

  module _ (attacker_some : attacker ≢ Stone.empty) (defender_some : defender ≢ Stone.empty)
      (rivals : attacker ≢ defender) where
    module _ (p : Position) (a : ℕ) (free : is_empty p (pos a) ≡ true)
        (sized : length p.cells ≡ vcf_num_cells) where
      -- If the defender's wins do not come first, the move leaves it none.
      pub quiet :
          defender_wins_first (winning_moves p defender) a ≡ false
          → (r : ℕ) → makes_exact_five (put p a attacker) defender r ≡ false
      quiet h r = elim (Bool-cases (makes_exact_five (put p a attacker) defender r)) [
        | inr e ↦ e
        | inl e ↦
            let ne : r ≢ a = λ q. taken_free (
              sym (put_taken p a attacker attacker_some sized)
              ∙ ap (λ (c : ℕ). is_empty (put p a attacker) (pos c)) (sym q)
              ∙ five-is_empty (put p a attacker) defender r e) in
            let was = five_was p a r attacker defender free rivals defender_some ne e in
            let listed = winning_moves_complete p defender r was in
            absurd (ne (first_win (winning_moves p defender) a r h listed))
      ]

      -- With a five on offer, every reply but that cell loses at once.
      other_reply :
          (w r : ℕ)
          → makes_exact_five (put p a attacker) attacker w ≡ true
          → is_empty (put p a attacker) (pos r) ≡ true
          → w ≢ r
          → Forces (put (put p a attacker) r defender) w
      other_reply w r five e ne = fives _ w (
          five_stays (put p a attacker) r w defender attacker e (λ q. rivals (sym q)) attacker_some
            ne five)

      -- A single four, with the move that follows its only answer.
      abbrev next_move : ℕ → ℕ → ℕ → ℕ
      next_move w b r = if r == w then b else w

      pub single :
          (w : ℕ) (next : Option (List ℕ))
          → ((r : ℕ) → makes_exact_five (put p a attacker) defender r ≡ false)
          → makes_exact_five (put p a attacker) attacker w ≡ true
          → Claims (put (put p a attacker) w defender) next
          → Claims p (Option.map (λ (line : List ℕ). a ∷ w ∷ line) next)
      single w none calm five c = tt
      single w (some []) calm five c = elim c [ ]
      single w (some (b ∷ line)) calm five c = fours p a w (next_move w b) free five calm (λ r e.
          elim (Bool-cases (r == w)) [
            | inl q ↦ rw q (
                subst (λ (v : ℕ). Forces (put (put p a attacker) v defender) b)
                  (sym ((==_iff r w).0 q)) c)
            | inr q ↦ rw q (other_reply w r five e (λ same. ground (arith, same, q)))
          ])

      -- A double four.
      pub double :
          (w u : ℕ)
          → ((r : ℕ) → makes_exact_five (put p a attacker) defender r ≡ false)
          → makes_exact_five (put p a attacker) attacker w ≡ true
          → makes_exact_five (put p a attacker) attacker u ≡ true
          → w ≢ u
          → Forces p a
      double w u calm five five' ne = fours p a w (next_move w u) free five calm (λ r e.
          elim (Bool-cases (r == w)) [
            | inl q ↦
                let same = (==_iff r w).0 q in
                rw q (other_reply u r five' e (λ k. ne (sym same ∙ sym k)))
            | inr q ↦ rw q (other_reply w r five e (λ same. ground (arith, same, q)))
          ])
