-- ===== src/Engine/Board/Rules/RoundTrip.antt =====
-- Retract undoes Apply.
use gomoku.Prelude.{
  ℕ, zero, suc, ◌%◌, ◌≤◌, ◌≡◌, refl, sym, ap, ◌∙◌, ◌≢◌, Bool, true, List, ◌==◌, arith, subst,
  get_or, set, set-set_back,
}
use gomoku.Prelude.Int.{ℤ, pos, ◌+ℤ◌, ◌-ℤ◌, pos-+ℤ, pos--ℤ}
use gomoku.Prelude.Xor.{◌xor◌, xor_assoc, xor_self, xor-zero}
use gomoku.Engine.Action.{is_placement}
use gomoku.Engine.Board.{toggle_hash, Board, BoardSignature, Player, Phase, Result, black, white}
use gomoku.Engine.Board.Rules.{apply, retract, place, perform, unplace, unperform}
use gomoku.Engine.Board.Rules.Valid.{IsValid, IsLegal, LegalIn, count_stones}
use gomoku.Engine.Board.Rules.Hash.{
  after, toggle_hash-sealed, apply-sealed, sealed, mask, perform-sealed,
}
use gomoku.Engine.Board.Rules.Shape.{
  turn-stone, Shape, initial, deciding, placing_two, choosing, playing_on, shaped, playing, Fits,
  IsValid-Shaped,
}

module _ (cells : List Player) (sig : BoardSignature) (i : ℕ)
    (free : get_or cells i Player.none ≡ Player.none) where
  restored : (p : Player) → set (set cells i p) i Player.none ≡ cells
  restored p = set-set_back cells i p Player.none Player.none free

  unplace-place-playing :
      (a_black to_white : Bool) (n : ℕ)
      → 3 ≤ n
      → (n % 2 == 1) ≡ to_white
      → unplace (place (playing cells sig a_black to_white n Result.undetermined) i) i
        ≡ playing cells sig a_black to_white n Result.undetermined
  unfolding unplace place
  unplace-place-playing a_black to_white n few odd =
      ground (arith, pos-+ℤ n 1, pos--ℤ n 1, restored black, restored white)

  unplace-place :
      (s : Shape) (k : ℕ)
      → Fits k s
      → (shaped cells sig s).result ≡ Result.undetermined
      → (shaped cells sig s).stone_to_place ≢ Player.none
      → unplace (place (shaped cells sig s) i) i ≡ shaped cells sig s
  unfolding unplace place ◌+ℤ◌ ◌-ℤ◌
  unplace-place (initial zero) k f o p = ground (arith, restored black)
  unplace-place (initial (suc zero)) k f o p = ground (arith, restored white)
  unplace-place (initial (suc (suc zero))) k f o p = ground (arith, restored black)
  unplace-place (initial (suc (suc (suc n)))) k f o p = absurd (omega arith)
  unplace-place deciding k f o p = absurd (p refl)
  unplace-place (placing_two (suc (suc (suc zero)))) k f o p = ground (arith, restored white)
  unplace-place (placing_two (suc (suc (suc (suc zero))))) k f o p = ground (arith, restored black)
  unplace-place (placing_two (suc (suc (suc (suc (suc n)))))) k f o p = absurd (omega arith)
  unplace-place (placing_two n) k f o p = absurd (omega arith)
  unplace-place choosing k f o p = absurd (p refl)
  unplace-place (playing_on a_black w n r) k f o p =
      let e = unplace-place-playing a_black w n f.1 f.2 in
      subst
        (λ r.
          unplace (place (playing cells sig a_black w n r) i) i ≡ playing cells sig a_black w n r)
        (sym o) e

-- A control action on a board whose phase offers it.
uncontrol-control_deciding :
    (cells : List Player) (sig : BoardSignature) (id : ℤ)
    → LegalIn Phase.swap2_decision cells id
    → unperform (perform (shaped cells sig deciding) id) id ≡ shaped cells sig deciding
unfolding unperform perform
uncontrol-control_deciding cells sig id l = ground arith

uncontrol-control_choosing :
    (cells : List Player) (sig : BoardSignature) (id : ℤ)
    → LegalIn Phase.choose_color cells id
    → unperform (perform (shaped cells sig choosing) id) id ≡ shaped cells sig choosing
unfolding unperform perform
uncontrol-control_choosing cells sig id l = ground arith

-- A placement on a board whose phase allows it.
unperform-perform_placing :
    (cells : List Player) (sig : BoardSignature) (s : Shape) (k : ℕ) (id : ℤ)
    → Fits k s
    → (shaped cells sig s).result ≡ Result.undetermined
    → (shaped cells sig s).stone_to_place ≢ Player.none
    → LegalIn Phase.standard cells id
    → unperform (perform (shaped cells sig s) id) id ≡ shaped cells sig s
unfolding unperform perform
unperform-perform_placing cells sig s k id f o p (i, e, inside, free) =
    let within : is_placement (pos i) ≡ true = ground arith in
    rw (e, within) (unplace-place cells sig i free s k f o p)

unperform-perform :
    (cells : List Player) (sig : BoardSignature) (s : Shape) (k : ℕ) (id : ℤ)
    → Fits k s
    → (shaped cells sig s).result ≡ Result.undetermined
    → LegalIn (shaped cells sig s).phase cells id
    → unperform (perform (shaped cells sig s) id) id ≡ shaped cells sig s
unperform-perform cells sig (initial n) k id f o l =
    unperform-perform_placing cells sig (initial n) k id f o (turn-stone n) l
unperform-perform cells sig deciding k id f o l = uncontrol-control_deciding cells sig id l
unperform-perform cells sig (placing_two n) k id f o l =
    unperform-perform_placing cells sig (placing_two n) k id f o (turn-stone n) l
unperform-perform cells sig choosing k id f o l = uncontrol-control_choosing cells sig id l
unperform-perform cells sig (playing_on a_black w n r) k id f o l =
    unperform-perform_placing cells sig (playing_on a_black w n r) k id f o (λ e. ground arith) l

-- Shapes do not depend on the signature.
unperform-perform-sealed :
    (cells : List Player) (sig : BoardSignature) (s : Shape) (k : ℕ) (id : ℤ) (z : BoardSignature)
    → Fits k s
    → (shaped cells sig s).result ≡ Result.undetermined
    → LegalIn (shaped cells sig s).phase cells id
    → unperform (perform (sealed (shaped cells sig s) z) id) id ≡ sealed (shaped cells sig s) z
unperform-perform-sealed cells sig (initial n) k id z f o l =
    unperform-perform cells z (initial n) k id f o l
unperform-perform-sealed cells sig s k id z f o l = unperform-perform cells z s k id f o l

xor_twice : (z m p : ℕ) → (((z xor m) xor p) xor p) xor m ≡ z
xor_twice z m p = simp (xor_assoc, xor_self, xor-zero)

module _ (rng : ℕ → ℕ) where
  -- Both calls of ToggleHash in Retract, taken out of it.
  retract-sealed :
      (board c : Board) (id : ℤ) (z : BoardSignature)
      → ((z : BoardSignature) → unperform (sealed c z) id ≡ sealed board z)
      → retract rng (sealed c z) id ≡ sealed board (after rng board id (after rng c id z))
  unfolding retract
  retract-sealed board c id z undo =
      ap (λ (b : Board). toggle_hash rng (unperform b id) id) (toggle_hash-sealed rng c id z)
      ∙ ap (λ (b : Board). toggle_hash rng b id) (undo (after rng c id z))
      ∙ toggle_hash-sealed rng board id (after rng c id z)

  retract-apply-sealed :
      (board : Board) (id : ℤ)
      → board.result ≡ Result.undetermined
      → ((z : BoardSignature) → unperform (sealed (perform board id) z) id ≡ sealed board z)
      → retract rng (apply rng board id) id ≡ board
  retract-apply-sealed board id o undo =
      let c = perform board id in
      let z = board.zobrists in
      ap (λ (b : Board). retract rng b id) (apply-sealed rng board id o)
      ∙ retract-sealed board c id (after rng c id (after rng board id z)) undo
      ∙ ap (sealed board) (λ i. (
        xor_twice z.0 (mask rng board id 0) (mask rng c id 0) i,
        xor_twice z.1 (mask rng board id 1) (mask rng c id 1) i,
      ))

-- Retracting the action that was just applied restores the whole board, signature included: on
-- every valid board, for every action that is legal on it, and whatever keys were drawn.
pub retract-apply :
    (rng : ℕ → ℕ) (board : Board) (id : ℤ)
    → IsValid board
    → IsLegal board id
    → retract rng (apply rng board id) id ≡ board
retract-apply rng board id v l =
    let (s, e, f) = IsValid-Shaped board v in
    retract-apply-sealed rng board id l.open_game λ z.
      ap (λ (b : Board). unperform b id) (sym (perform-sealed board z id))
      ∙ subst (λ (b : Board). unperform (perform (sealed b z) id) id ≡ sealed b z) (sym e)
          (unperform-perform-sealed board.cells board.zobrists s (count_stones board.cells) id z f
            (ap (λ (b : Board). b.result) (sym e) ∙ l.open_game)
            (subst (λ (b : Board). LegalIn b.phase board.cells id) e l.allowed))
