-- ===== src/Engine/Vcf/Search/Sound.antt =====
-- A line that the search finds begins with a move that wins by force, and the search leaves the
-- position and its hash as it found them.
use gomoku.Prelude.{
  ℕ, zero, suc, ◌≡◌, ◌≢◌, sym, ap, subst, ◌∙◌, true, false, not, none, some, List, [], ◌∷◌, length,
  arith, if_cases,
}
use gomoku.Prelude.Int.{pos}
use gomoku.Engine.Vcf.{Position, Stone, is_empty, vcf_num_cells, action_x, action_y}
use gomoku.Engine.Vcf.Threats.{
  makes_exact_five, winning_moves, find_created_winning_moves, has, has_stone_within_line_distance4,
}
use gomoku.Engine.Vcf.Threats.Stones.{put, put-sized, five-is_empty}
use gomoku.Engine.Vcf.Threats.Winning.{
  AllWin, nothing, one_more, winning_moves-AllWin, find_created_winning_moves-AllWin,
}
use gomoku.Engine.Vcf.Search.{
  Scratch, Found, SearchContext, make_move, unmake_move, pursue, attempt, attempts, expand, exceeds,
  search, visit, defender_wins_first,
}
use gomoku.Engine.Vcf.Search.Restore.{
  IsRestored, unchanged, chained, make_move-position, make_move-context, remembered, visited_node,
  unmake_move-IsRestored,
}
use gomoku.Engine.Vcf.Search.Force.{fives, Claims, quiet, single, double}

module _ (attacker defender : Stone) where
  -- The two colours of the search, on a board of 225 cells.
  pub record IsReady (s : Scratch) : Type 0 where
    pub attacks : s.1.attacker ≡ attacker
    pub defends : s.1.defender ≡ defender
    pub sized : length s.0.cells ≡ vcf_num_cells

  pub record IsGood (s : Scratch) (f : Found) : Type 0 where
    pub restored : IsRestored s f.1
    pub claims : Claims attacker defender s.0 f.0

  module _ (attacker_some : attacker ≢ Stone.empty) (defender_some : defender ≢ Stone.empty)
      (rivals : attacker ≢ defender) where
    -- A search whose answers are good.
    abbrev Good : (Scratch → Found) → Type 0
    Good solve = (s : Scratch) → IsReady s → IsGood s (solve s)

    readied : (s : Scratch) (a : ℕ) (k : Stone) → IsReady s → IsReady (make_move s a k)
    readied s a k v = record {
      attacks = (make_move-context s a k).0 ∙ v.attacks;
      defends = (make_move-context s a k).1 ∙ v.defends;
      sized =
          ap (λ (q : Position). length q.cells) (make_move-position s a k)
          ∙ put-sized s.0 a k v.sized;
    }

    carried : {s t : Scratch} → IsReady s → IsRestored s t → IsReady t
    carried v w = record {
      attacks = w.same_attacker ∙ v.attacks;
      defends = w.same_defender ∙ v.defends;
      sized = ap (λ (q : Position). length q.cells) w.position ∙ v.sized;
    }

    idle : (s : Scratch) → IsGood s (none, s)
    idle s = record { restored = unchanged s; claims = tt }

    taken_back :
        (s : Scratch) (a : ℕ)
        → is_empty s.0 (pos a) ≡ true
        → IsReady s
        → IsRestored s (unmake_move (make_move s a attacker) a (make_move s a attacker).1.attacker)
    taken_back s a free v =
        unmake_move-IsRestored s (make_move s a attacker) a attacker _ free
          ((make_move-context s a attacker).0 ∙ v.attacks) (unchanged _)

    pursue-IsGood :
        (solve : Scratch → Found) (s : Scratch) (a : ℕ) (wins : List ℕ)
        → Good solve
        → IsReady s
        → is_empty s.0 (pos a) ≡ true
        → ((r : ℕ) → makes_exact_five (put s.0 a attacker) defender r ≡ false)
        → AllWin (put s.0 a attacker) attacker wins
        → IsGood s (pursue solve (make_move s a attacker) a wins)
    unfolding pursue
    pursue-IsGood solve s a [] good v free calm nothing = record {
      restored = taken_back s a free v;
      claims = tt;
    }
    pursue-IsGood solve s a (w ∷ []) good v free calm (one_more _ _ five new rest) =
        let made = make_move s a attacker in
        let at_made = make_move-position s a attacker in
        let met = make_move made w made.1.defender in
        let at_met : met.0 ≡ put (put s.0 a attacker) w defender =
          make_move-position made w made.1.defender
          ∙ ap (λ (q : Position). put q w made.1.defender) at_made
          ∙ ap (λ (k : Stone). put (put s.0 a attacker) w k)
              ((make_move-context s a attacker).1 ∙ v.defends) in
        let after = good met (readied made w made.1.defender (readied s a attacker v)) in
        let free_w : is_empty made.0 (pos w) ≡ true =
          ap (λ (q : Position). is_empty q (pos w)) at_made
          ∙ five-is_empty (put s.0 a attacker) attacker w five in
        let back =
          unmake_move-IsRestored made (solve met).1 w made.1.defender _ free_w
            (after.restored.same_defender ∙ (make_move-context made w made.1.defender).1)
            after.restored in
        record {
          restored =
              unmake_move-IsRestored s _ a attacker _ free
                (after.restored.same_attacker
                  ∙ (make_move-context made w made.1.defender).0
                  ∙ (make_move-context s a attacker).0
                  ∙ v.attacks)
                back;
          claims =
              single attacker defender attacker_some defender_some rivals s.0 a free v.sized w
                (solve met).0 calm five
                (subst (λ (q : Position). Claims attacker defender q (solve met).0) at_met
                  after.claims);
        }
    pursue-IsGood solve s a (w ∷ u ∷ wins) good v free calm
          (one_more _ _ five new (one_more _ _ five' new' rest)) =
        record {
          restored = taken_back s a free v;
          claims =
              double attacker defender attacker_some defender_some rivals s.0 a free v.sized w u
                calm five five' (λ same. ground (arith, same, new));
        }

    -- The four that a move makes is listed.
    listed :
        (s : Scratch) (a : ℕ)
        → IsReady s
        → AllWin (put s.0 a attacker) attacker (
            find_created_winning_moves
              (make_move s a attacker).0
              a
              (make_move s a attacker).1.attacker)
    listed s a v =
        let made = make_move s a attacker in
        let wins = find_created_winning_moves made.0 a made.1.attacker in
        let all = find_created_winning_moves-AllWin made.0 made.1.attacker a in
        subst (λ (q : Position). AllWin q attacker wins) (make_move-position s a attacker)
          (subst (λ (m : Stone). AllWin made.0 m wins)
            ((make_move-context s a attacker).0 ∙ v.attacks) all)

    attempt-IsGood :
        (solve : Scratch → Found) (s : Scratch) (a : ℕ)
        → Good solve
        → IsReady s
        → IsGood s (attempt solve (winning_moves s.0 defender) s a)
    unfolding attempt
    attempt-IsGood solve s a good v =
        if_cases (IsGood s) (not (is_empty s.0 (pos a))) (λ taken. idle s)
          (λ free.
            if_cases (IsGood s) (defender_wins_first (winning_moves s.0 defender) a)
              (λ first. idle s)
              (λ h.
                if_cases (IsGood s)
                  (not (has_stone_within_line_distance4 s.0 (action_x a) (action_y a) s.1.attacker))
                  (λ far. idle s)
                  (λ close.
                    let free : is_empty s.0 (pos a) ≡ true = ground (arith, free) in
                    subst
                      (λ (k : Stone). IsGood s (
                        pursue solve (make_move s a k) a (
                          find_created_winning_moves (make_move s a k).0 a
                            (make_move s a k).1.attacker)))
                      (sym v.attacks)
                      (pursue-IsGood solve s a _ good v free
                        (quiet attacker defender attacker_some defender_some rivals s.0 a free
                          v.sized h)
                        (listed s a v)))))

    -- The loop goes on where a round found nothing.
    onward :
        (s : Scratch) (f rest : Found)
        → IsGood s f
        → IsGood f.1 rest
        → IsGood s (elim f.0 [ none ↦ rest | some line ↦ (some line, f.1) ])
    onward s (some line, t) rest v w = v
    onward s (none, t) rest v w = record {
      restored = chained v.restored w.restored;
      claims =
          subst (λ (q : Position). Claims attacker defender q rest.0) v.restored.position w.claims;
    }

    attempts-IsGood :
        (solve : Scratch → Found) (left a : ℕ) (s : Scratch)
        → Good solve
        → IsReady s
        → IsGood s (attempts solve (winning_moves s.0 defender) left a s)
    unfolding attempts
    attempts-IsGood solve zero a (p, c) good v = record { restored = remembered p c _; claims = tt }
    attempts-IsGood solve (suc left) a s good v =
        let f = attempt solve (winning_moves s.0 defender) s a in
        let round = attempt-IsGood solve s a good v in
        let rest = attempts-IsGood solve left (suc a) f.1 good (carried v round.restored) in
        onward s f _ round (
          subst
            (λ (q : Position).
              IsGood f.1 (attempts solve (winning_moves q defender) left (suc a) f.1))
            round.restored.position rest)

    -- The search past its early returns, for the attacker's wins and the defender's.
    expanded :
        (solve : Scratch → Found) (s : Scratch) (wins : List ℕ)
        → Good solve
        → IsReady s
        → AllWin s.0 attacker wins
        → IsGood s (elim wins [
          | action ∷ rest ↦ (some (action ∷ []), s)
          | [] ↦ attempts solve (winning_moves s.0 s.1.defender) vcf_num_cells 0 s
        ])
    expanded solve s [] good v w =
        subst (λ (k : Stone). IsGood s (attempts solve (winning_moves s.0 k) vcf_num_cells 0 s))
          (sym v.defends) (attempts-IsGood solve vcf_num_cells 0 s good v)
    expanded solve s (action ∷ rest) good v (one_more _ _ five new more) = record {
      restored = unchanged s;
      claims = fives s.0 action five;
    }

    expand-IsGood :
        (solve : Scratch → Found) (s : Scratch) → Good solve → IsReady s → IsGood s (expand solve s)
    unfolding expand
    expand-IsGood solve s good v = expanded solve s (winning_moves s.0 s.1.attacker) good v (
        subst (λ (k : Stone). AllWin s.0 attacker (winning_moves s.0 k)) (sym v.attacks)
          (winning_moves-AllWin s.0 attacker))

    after_visit :
        (p : Position) (c : SearchContext) (f : Found) → IsGood (p, visit c) f → IsGood (p, c) f
    after_visit p c f v = record {
      restored = chained (visited_node p c) v.restored;
      claims = v.claims;
    }

    -- Search leaves the position, its hash and the colours as they were, on each of its returns; and
    -- the line it answers, if it answers one, is not empty and begins with a move by which the
    -- attacker, to move, wins by force. The board has 225 cells and the colours differ.
    pub search-IsGood : (fuel : ℕ) (s : Scratch) → IsReady s → IsGood s (search fuel s)
    unfolding search
    search-IsGood zero s v = idle s
    search-IsGood (suc fuel) (p, c) v =
        let visited : Scratch = (p, visit c) in
        let ready : IsReady visited = record {
          attacks = v.attacks;
          defends = v.defends;
          sized = v.sized;
        } in
        after_visit p c _ (
          if_cases (IsGood visited) (exceeds (suc c.visited_nodes) c.max_nodes) (λ e. idle visited)
            (λ e.
              if_cases (IsGood visited) (has c.failed_positions c.hash) (λ e. idle visited)
                (λ e. expand-IsGood (search fuel) visited (search-IsGood fuel) ready)))
