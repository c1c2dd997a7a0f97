-- ===== src/Engine/Board/Rules/Invariant.antt =====
-- Every legal action keeps the board valid.
use gomoku.Prelude.{
  ℕ, zero, suc, ◌+◌, ◌<◌, ◌≡◌, refl, ap, subst, sym, ◌∙◌, ◌≢◌, inl, inr, arith, length, length-set,
  set, get_or, Bool, true, false, List,
}
use gomoku.Prelude.Int.{ℤ, pos, ◌+ℤ◌, pos-+ℤ}
use gomoku.Engine.Action.{num_cells, is_placement}
use gomoku.Engine.Board.{Board, BoardSignature, Player, Phase, Result, black, white}
use gomoku.Engine.Board.Rules.{transition_phase, place, control, perform, score, apply}
use gomoku.Engine.Board.Rules.Valid.{
  IsValid, IsLegal, LegalIn, Stage, count_stones, count_stones-set,
}
use gomoku.Engine.Board.Rules.Hash.{sealed, apply-sealed}
use gomoku.Engine.Board.Rules.Shape.{
  turn-stone, Shape, initial, deciding, placing_two, choosing, playing_on, shaped, playing, Fits,
  IsValid-Shaped,
}

module _ (cells : List Player) (sig : BoardSignature) (sized : length cells ≡ num_cells) where
  -- The stone counts, whatever the phase.
  module _ (i : ℕ) (inside : i < num_cells) (free : get_or cells i Player.none ≡ Player.none) where
    more : (p : Player) → p ≢ Player.none → count_stones (set cells i p) ≡ count_stones cells + 1
    more p = count_stones-set cells i p (omega arith) free

    more_black : count_stones (set cells i black) ≡ count_stones cells + 1
    more_black = more black (λ e. ground arith)

    more_white : count_stones (set cells i white) ≡ count_stones cells + 1
    more_white = more white (λ e. ground arith)

    place-IsValid-playing :
        (a_black to_white : Bool) (n : ℕ)
        → Fits (count_stones cells) (playing_on a_black to_white n Result.undetermined)
        → IsValid (place (playing cells sig a_black to_white n Result.undetermined) i)
    unfolding place transition_phase score
    place-IsValid-playing a_black true n f = record {
      sized = length-set cells i white ∙ sized;
      counted = ground (arith, pos-+ℤ n 1, more_white);
      stage = ground (arith, pos-+ℤ n 1, more_white);
    }
    place-IsValid-playing a_black false n f = record {
      sized = length-set cells i black ∙ sized;
      counted = ground (arith, pos-+ℤ n 1, more_black);
      stage = ground (arith, pos-+ℤ n 1, more_black);
    }

    place-IsValid :
        (s : Shape)
        → Fits (count_stones cells) s
        → (shaped cells sig s).result ≡ Result.undetermined
        → (shaped cells sig s).stone_to_place ≢ Player.none
        → IsValid (place (shaped cells sig s) i)
    unfolding place transition_phase score ◌+ℤ◌
    place-IsValid (initial zero) f o p = record {
      sized = length-set cells i black ∙ sized;
      counted = ground (arith, more_black);
      stage = ground (arith, more_black);
    }
    place-IsValid (initial (suc zero)) f o p = record {
      sized = length-set cells i white ∙ sized;
      counted = ground (arith, more_white);
      stage = ground (arith, more_white);
    }
    place-IsValid (initial (suc (suc zero))) f o p = record {
      sized = length-set cells i black ∙ sized;
      counted = ground (arith, more_black);
      stage = ground (arith, more_black);
    }
    place-IsValid (initial (suc (suc (suc n)))) f o p = absurd (omega arith)
    place-IsValid deciding f o p = absurd (p refl)
    place-IsValid (placing_two (suc (suc (suc zero)))) f o p = record {
      sized = length-set cells i white ∙ sized;
      counted = ground (arith, more_white);
      stage = ground (arith, more_white);
    }
    place-IsValid (placing_two (suc (suc (suc (suc zero))))) f o p = record {
      sized = length-set cells i black ∙ sized;
      counted = ground (arith, more_black);
      stage = ground (arith, more_black);
    }
    place-IsValid (placing_two (suc (suc (suc (suc (suc n)))))) f o p = absurd (omega arith)
    place-IsValid (placing_two n) f o p = absurd (omega arith)
    place-IsValid choosing f o p = absurd (p refl)
    place-IsValid (playing_on a_black w n r) f o p =
        subst (λ q. IsValid (place (playing cells sig a_black w n q) i)) (sym o)
          (place-IsValid-playing a_black w n (f.0, f.1, f.2, λ _. f.3 o))

  perform-IsValid_placing :
      (s : Shape) (id : ℤ)
      → Fits (count_stones cells) s
      → (shaped cells sig s).result ≡ Result.undetermined
      → (shaped cells sig s).stone_to_place ≢ Player.none
      → LegalIn Phase.standard cells id
      → IsValid (perform (shaped cells sig s) id)
  unfolding perform
  perform-IsValid_placing s id f o p (i, e, inside, free) =
      let within : is_placement (pos i) ≡ true = ground arith in
      rw (e, within) (place-IsValid i inside free s f o p)

  perform-IsValid_deciding :
      (id : ℤ)
      → 3 ≡ count_stones cells
      → LegalIn Phase.swap2_decision cells id
      → IsValid (perform (shaped cells sig deciding) id)
  unfolding perform control
  perform-IsValid_deciding id f (inl e) =
      rw e (record { sized = sized; counted = ground arith; stage = ground arith })
  perform-IsValid_deciding id f (inr (inl e)) =
      rw e (record { sized = sized; counted = ground arith; stage = ground arith })
  perform-IsValid_deciding id f (inr (inr e)) =
      rw e (record { sized = sized; counted = ground arith; stage = ground arith })

  perform-IsValid_choosing :
      (id : ℤ)
      → 5 ≡ count_stones cells
      → LegalIn Phase.choose_color cells id
      → IsValid (perform (shaped cells sig choosing) id)
  unfolding perform control
  perform-IsValid_choosing id f (inl e) =
      rw e (record { sized = sized; counted = ground arith; stage = ground arith })
  perform-IsValid_choosing id f (inr e) =
      rw e (record { sized = sized; counted = ground arith; stage = ground arith })

  perform-IsValid-shaped :
      (s : Shape) (id : ℤ)
      → Fits (count_stones cells) s
      → (shaped cells sig s).result ≡ Result.undetermined
      → LegalIn (shaped cells sig s).phase cells id
      → IsValid (perform (shaped cells sig s) id)
  perform-IsValid-shaped (initial n) id f o l =
      perform-IsValid_placing (initial n) id f o (turn-stone n) l
  perform-IsValid-shaped deciding id f o l = perform-IsValid_deciding id f l
  perform-IsValid-shaped (placing_two n) id f o l =
      perform-IsValid_placing (placing_two n) id f o (turn-stone n) l
  perform-IsValid-shaped choosing id f o l = perform-IsValid_choosing id f l
  perform-IsValid-shaped (playing_on a_black w n r) id f o l =
      perform-IsValid_placing (playing_on a_black w n r) id f o (λ e. ground arith) l

pub perform-IsValid :
    (board : Board) (id : ℤ) → IsValid board → IsLegal board id → IsValid (perform board id)
perform-IsValid board id v l =
    let (s, e, f) = IsValid-Shaped board v in
    subst (λ (b : Board). IsValid (perform b id)) (sym e)
      (perform-IsValid-shaped board.cells board.zobrists v.sized s id f
        (ap (λ (b : Board). b.result) (sym e) ∙ l.open_game)
        (subst (λ (b : Board). LegalIn b.phase board.cells id) e l.allowed))

pub Stage-sealed :
    (ph : Phase) (n : ℕ) (board : Board) (z : BoardSignature)
    → Stage ph n board
    → Stage ph n (sealed board z)
Stage-sealed Phase.place_initial_three n board z s = s
Stage-sealed _ n board z s = s

-- A legal action takes a valid board to a valid board: the number of cells, the count of stones
-- and what each phase fixes (the seat and the stone to come, the colours, the result).
pub apply-IsValid :
    (rng : ℕ → ℕ) (board : Board) (id : ℤ)
    → IsValid board
    → IsLegal board id
    → IsValid (apply rng board id)
apply-IsValid rng board id v l =
    let w = perform-IsValid board id v l in
    subst IsValid (sym (apply-sealed rng board id l.open_game)) (record {
      sized = w.sized;
      counted = w.counted;
      stage = Stage-sealed _ _ (perform board id) _ w.stage;
    })
