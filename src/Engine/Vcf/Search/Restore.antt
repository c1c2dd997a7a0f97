-- ===== src/Engine/Vcf/Search/Restore.antt =====
-- Making a move and taking it back leave the position and its hash as they were.
use gomoku.Prelude.{ℕ, ◌≤◌, ◌≡◌, refl, ap, ◌∙◌, true, List, arith, set-set_back}
use gomoku.Prelude.Xor.{◌xor◌, xor_assoc, xor_self, xor-zero}
use gomoku.Prelude.Int.{pos, in_range}
use gomoku.Engine.Vcf.{Position, Stone, is_empty, vcf_num_cells}
use gomoku.Engine.Vcf.Threats.Stones.{put, is_empty_cell}
use gomoku.Engine.Vcf.Search.{Scratch, SearchContext, key, visit, make_move, unmake_move}

-- What a search may change: the nodes that it has visited, which grow, and the failed positions.
pub record IsRestored (s t : Scratch) : Type 0 where
  pub position : t.0 ≡ s.0
  pub same_hash : t.1.hash ≡ s.1.hash
  pub same_attacker : t.1.attacker ≡ s.1.attacker
  pub same_defender : t.1.defender ≡ s.1.defender
  pub same_budget : t.1.max_nodes ≡ s.1.max_nodes
  pub spent : s.1.visited_nodes ≤ t.1.visited_nodes

pub unchanged : (s : Scratch) → IsRestored s s
unchanged s = record {
  position = refl;
  same_hash = refl;
  same_attacker = refl;
  same_defender = refl;
  same_budget = refl;
  spent = omega arith;
}

pub remembered :
    (p : Position) (c : SearchContext) (failed : List ℕ)
    → IsRestored (p, c) (p, record c { failed_positions = failed })
remembered p c failed = record {
  position = refl;
  same_hash = refl;
  same_attacker = refl;
  same_defender = refl;
  same_budget = refl;
  spent = omega arith;
}

pub visited_node : (p : Position) (c : SearchContext) → IsRestored (p, c) (p, visit c)
visited_node p c = record {
  position = refl;
  same_hash = refl;
  same_attacker = refl;
  same_defender = refl;
  same_budget = refl;
  spent = omega arith;
}

pub chained : {s t u : Scratch} → IsRestored s t → IsRestored t u → IsRestored s u
chained v w = record {
  position = w.position ∙ v.position;
  same_hash = w.same_hash ∙ v.same_hash;
  same_attacker = w.same_attacker ∙ v.same_attacker;
  same_defender = w.same_defender ∙ v.same_defender;
  same_budget = w.same_budget ∙ v.same_budget;
  spent = omega (arith, v.spent, w.spent);
}

put-back :
    (p : Position) (a : ℕ) (k : Stone)
    → is_empty p (pos a) ≡ true
    → put (put p a k) a Stone.empty ≡ p
unfolding is_empty
put-back p a k free =
    let inside : in_range (pos a) vcf_num_cells ≡ true = ground (arith, free) in
    let back = set-set_back p.cells a k Stone.empty Stone.empty (is_empty_cell p a free) in
    rw (put, inside) (ap (λ (cells : List Stone). record p { cells = cells }) back)

pub make_move-position : (s : Scratch) (a : ℕ) (k : Stone) → (make_move s a k).0 ≡ put s.0 a k
unfolding make_move
make_move-position (p, c) a k = refl

pub make_move-context :
    (s : Scratch) (a : ℕ) (k : Stone)
    → ((make_move s a k).1.attacker ≡ s.1.attacker) × ((make_move s a k).1.defender ≡ s.1.defender)
unfolding make_move
make_move-context (p, c) a k = (refl, refl)

pub unmake_move-IsRestored :
    (s t : Scratch) (a : ℕ) (k l : Stone)
    → is_empty s.0 (pos a) ≡ true
    → l ≡ k
    → IsRestored (make_move s a k) t
    → IsRestored s (unmake_move t a l)
unfolding make_move unmake_move
unmake_move-IsRestored (p, c) (q, d) a k l free e v = record {
  position = ap (λ (r : Position). put r a Stone.empty) v.position ∙ put-back p a k free;
  same_hash =
      ap (λ (h : ℕ). h xor key a l) v.same_hash
      ∙ ap (λ (m : Stone). (c.hash xor key a k) xor key a m) e
      ∙ xor_assoc c.hash (key a k) (key a k)
      ∙ ap (λ (h : ℕ). c.hash xor h) (xor_self (key a k))
      ∙ xor-zero c.hash;
  same_attacker = v.same_attacker;
  same_defender = v.same_defender;
  same_budget = v.same_budget;
  spent = v.spent;
}
