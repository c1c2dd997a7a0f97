-- ===== src/Engine/Vcf/Tests.antt =====
-- Positions on which the theorems about the solver are applied: four black stones in the first row.
use gomoku.Prelude.{◌≡◌, refl, ◌∷◌, ◌++◌, replicate, arith}
use gomoku.Prelude.Int.{pos}
use gomoku.Engine.Board.{Board, Player, Phase, Seat, Result}
use gomoku.Engine.Vcf.{Position, Stone}
use gomoku.Engine.Vcf.Search.{search}
use gomoku.Engine.Vcf.Search.Sound.{IsGood, search-IsGood}
use gomoku.Engine.Vcf.Search.Fuel.{search_fuel}
use gomoku.Engine.Vcf.Solve.{solve_vcf, solve_vcf_board, root_context}
use gomoku.Engine.Vcf.Solve.OfBoard.{BoardPromises, solve_vcf_board-Promises}
use gomoku.Engine.Vcf.Solve.Sound.{Promises, solve_vcf-Promises}

abbrev four : Position
four = record {
  cells =
      Stone.white
      ∷ Stone.black
      ∷ Stone.black
      ∷ Stone.black
      ∷ Stone.black
      ∷ replicate 220 Stone.empty;
  current_player = Stone.black;
}

search-IsGood_example :
    IsGood Stone.black Stone.white
      (four, root_context four (pos 9))
      (search 10 (four, root_context four (pos 9)))
search-IsGood_example =
    search-IsGood Stone.black Stone.white (λ e. ground arith) (λ e. ground arith)
      (λ e. ground arith) 10 (four, root_context four (pos 9))
      (record { attacks = refl; defends = refl; sized = refl })

solve_vcf-Promises_example : Promises four (solve_vcf four (pos 9))
solve_vcf-Promises_example = solve_vcf-Promises four (pos 9) refl

abbrev board_of_four : Board
board_of_four = record {
  cells = Player.white ∷ replicate 4 Player.black ++ replicate 220 Player.none;
  phase = Phase.standard;
  current_player = Seat.a;
  stone_to_place = Player.black;
  move_count = pos 5;
  seat_a_stone = Player.black;
  seat_b_stone = Player.white;
  result = Result.undetermined;
  zobrists = (5, 6);
}

solve_vcf_board-Promises_example :
    BoardPromises board_of_four (solve_vcf_board board_of_four (pos 9))
solve_vcf_board-Promises_example = solve_vcf_board-Promises board_of_four (pos 9)

search_fuel_example :
    search 10 (four, root_context four (pos 9)) ≡ search 20 (four, root_context four (pos 9))
search_fuel_example =
    search_fuel 10 20 (four, root_context four (pos 9)) (omega arith) (omega arith) (omega arith)
      (omega arith)
