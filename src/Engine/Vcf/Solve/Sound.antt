-- ===== src/Engine/Vcf/Solve/Sound.antt =====
-- What a line of SolveVCF promises.
use gomoku.Prelude.{
  ℕ, suc, ◌≡◌, ◌≢◌, refl, true, ◌||◌, not, Option, none, some, List, [], ◌∷◌, length, arith,
  if_cases,
}
use gomoku.Prelude.Int.{ℤ, pos_part}
use gomoku.Engine.Vcf.{Position, Stone, ◌==V◌, other_stone, vcf_num_cells}
use gomoku.Engine.Vcf.Threats.{has_exact_five}
use gomoku.Engine.Vcf.Search.Force.{Forces, Claims}
use gomoku.Engine.Vcf.Search.Sound.{IsReady, search-IsGood}
use gomoku.Engine.Vcf.Solve.{may_move, line_of, root_context, solve_vcf}

-- A line, if there is one, begins with a move that wins by force for the colour to move.
abbrev pub Promises : Position → List ℕ → Type 0
Promises p [] = Unit
Promises p (a ∷ line) = Forces p.current_player (other_stone p.current_player) p a

line_of-Promises :
    (p : Position) (answer : Option (List ℕ))
    → Claims p.current_player (other_stone p.current_player) p answer
    → Promises p (line_of answer)
line_of-Promises p none c = tt
line_of-Promises p (some []) c = tt
line_of-Promises p (some (a ∷ line)) c = c

may_move_lem :
    (k : Stone)
    → (k ==V Stone.black || k ==V Stone.white) ≡ true
    → (k ≢ Stone.empty) × (other_stone k ≢ Stone.empty) × (k ≢ other_stone k)
may_move_lem Stone.black h = (λ e. ground arith, λ e. ground arith, λ e. ground arith)
may_move_lem Stone.white h = (λ e. ground arith, λ e. ground arith, λ e. ground arith)
may_move_lem Stone.empty h = ground arith

-- On a position of 225 cells, with any budget of nodes: a line that SolveVCF answers begins with a
-- move that wins by force, against every reply, for the colour to move.
pub solve_vcf-Promises :
    (p : Position) (max_nodes : ℤ)
    → length p.cells ≡ vcf_num_cells
    → Promises p (solve_vcf p max_nodes)
unfolding solve_vcf
solve_vcf-Promises p max_nodes sized =
    if_cases (Promises p) (not (may_move p)) (λ e. tt)
      (λ e.
        if_cases (Promises p) (has_exact_five p Stone.black || has_exact_five p Stone.white)
          (λ f. tt)
          (λ f.
            let colours = may_move_lem p.current_player (ground (arith, e)) in
            let ready : IsReady p.current_player (other_stone p.current_player)
                (p, root_context p max_nodes) =
              record { attacks = refl; defends = refl; sized = sized } in
            line_of-Promises p _
              (search-IsGood p.current_player (other_stone p.current_player) colours.0 colours.1
                colours.2 (suc (pos_part max_nodes)) (p, root_context p max_nodes) ready).claims))
