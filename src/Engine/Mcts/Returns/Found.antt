-- ===== src/Engine/Mcts/Returns/Found.antt =====
-- The evaluations in MCTS::Search of engine/src/mcts.cpp: after a batch was evaluated, the cache has
-- the board of each leaf that is not terminal, so that `at` throws no exception.
use gomoku.Engine.Mcts.Batch.{evaluate_leaves, expand_leaf, finish_leaf, finish_leaves}
use gomoku.Prelude.Results.{Any, Returns, bind-Returns, some-Any}
use gomoku.Prelude.{
  ℕ, ◌≡◌, refl, ap, subst, ◌∙◌, inl, inr, true, false, ◌&&◌, not, ◌==◌, List, [], ◌∷◌, ◌++◌, length,
  Option, none, some, arith, if_cases, if_both, Bool-cases, ◌⊎◌,
}
use gomoku.Prelude.Int.{ℤ}
use gomoku.Prelude.Float.{Float}
use gomoku.Engine.Board.{Board, BoardSignature}
use gomoku.Engine.Board.Play.{is_terminal}
use gomoku.Engine.Mcts.{Node}
use gomoku.Engine.Mcts.Policy.{EvaluationResult}
use gomoku.Engine.Mcts.Walk.{Leaf}
use gomoku.Engine.Mcts.Search.{
  Evaluator, Cache, same_signature, has_value, missing_from, find_cached, put_cached, missed_boards,
  leaf_boards, fill_cache,
}

missing_from-++ :
    (bs : List Board) (b : Board) (sig : BoardSignature)
    → missing_from (bs ++ b ∷ []) sig ≡ missing_from bs sig && not (same_signature b.zobrists sig)
missing_from-++ [] b sig = ground arith
missing_from-++ (c ∷ bs) b sig = ground (arith, missing_from-++ bs b sig)

same_refl : (sig : BoardSignature) → same_signature sig sig ≡ true
same_refl (a, b) = ground arith

-- The evaluator answers each board.
abbrev pub Answers {ℓ} : {W : Type ℓ} {E : Type 0} → Evaluator W E → Type 0
Answers {E} evaluator =
    (bs : List Board) (world : E) → length (evaluator.evaluate bs world).0 ≡ length bs

module _ {ℓ} {W : Type ℓ} where
  -- In the cache or among the boards.
  abbrev IsIn : Cache W → List Board → BoardSignature → Type 0
  IsIn cache bs sig = (has_value (find_cached cache sig) ≡ true) ⊎ (missing_from bs sig ≡ false)

  kept_found :
      (cache : Cache W) (bs found : List Board) (sig : BoardSignature)
      → missing_from found sig ≡ false
      → missing_from (missed_boards cache bs found) sig ≡ false
  unfolding missed_boards
  kept_found cache [] found sig h = h
  kept_found cache (b ∷ bs) found sig h = kept_found cache bs _ sig (
      if_both (λ l. missing_from l sig ≡ false)
        (not (has_value (find_cached cache b.zobrists)) && missing_from found b.zobrists)
        (missing_from-++ found b sig ∙ ap (λ x. x && not (same_signature b.zobrists sig)) h) h)

  found_here :
      (cache : Cache W) (b : Board) (bs found : List Board)
      → same_signature b.zobrists b.zobrists ≡ true
      → IsIn cache (missed_boards cache (b ∷ bs) found) b.zobrists
  unfolding missed_boards
  found_here cache b bs found same = elim (Bool-cases (has_value (find_cached cache b.zobrists))) [
    | inl cached ↦ inl cached
    | inr fresh ↦ inr (
        kept_found cache bs _ b.zobrists (
          if_cases (λ l. missing_from l b.zobrists ≡ false)
            (not (has_value (find_cached cache b.zobrists)) && missing_from found b.zobrists)
            (λ e. missing_from-++ found b b.zobrists ∙ ground arith) (λ e. ground arith)))
  ]

  -- Each of the boards is in the cache or among those that are to be evaluated.
  abbrev AllIn : Cache W → List Board → List Board → Type 0
  AllIn cache missed [] = Unit
  AllIn cache missed (b ∷ bs) = IsIn cache missed b.zobrists × AllIn cache missed bs

  missed_boards-AllIn :
      (cache : Cache W) (bs found : List Board) → AllIn cache (missed_boards cache bs found) bs
  unfolding missed_boards
  missed_boards-AllIn cache [] found = tt
  missed_boards-AllIn cache (b ∷ bs) found =
      (found_here cache b bs found (same_refl b.zobrists), missed_boards-AllIn cache bs _)

module _ {ℓ} {W : Type ℓ} ⦃f : Float W⦄ where
  has_put :
      (s sig : BoardSignature) (r : EvaluationResult W) (cache : Cache W)
      → has_value (find_cached cache sig) ≡ true
      → has_value (find_cached (put_cached s r cache) sig) ≡ true
  has_put s sig r cache h =
      if_both (λ o. has_value o ≡ true) (same_signature s sig) {x = some r}
        {y = find_cached cache sig} refl h

  still_cached :
      (solver : Option (Board → List ℤ)) (bs : List Board) (results : List (EvaluationResult W))
      (cache : Cache W) (sig : BoardSignature)
      → has_value (find_cached cache sig) ≡ true
      → has_value (find_cached (fill_cache solver bs results cache) sig) ≡ true
  unfolding fill_cache
  still_cached solver [] results cache sig h = h
  still_cached solver (b ∷ bs) [] cache sig h = h
  still_cached solver (b ∷ bs) (r ∷ results) cache sig h =
      still_cached solver bs results _ sig (has_put b.zobrists sig _ cache h)

  now_cached :
      (solver : Option (Board → List ℤ)) (bs : List Board) (results : List (EvaluationResult W))
      (cache : Cache W) (sig : BoardSignature)
      → length results ≡ length bs
      → missing_from bs sig ≡ false
      → has_value (find_cached (fill_cache solver bs results cache) sig) ≡ true
  unfolding fill_cache
  now_cached solver [] results cache sig e h = ground arith
  now_cached solver (b ∷ bs) [] cache sig e h = absurd (omega arith)
  now_cached solver (b ∷ bs) (r ∷ results) cache sig e h =
      elim (Bool-cases (same_signature b.zobrists sig)) [
        | inl here ↦ still_cached solver bs results _ sig (
            if_cases (λ o. has_value o ≡ true) (same_signature b.zobrists sig)
              {y = find_cached cache sig} (λ e. refl) (λ e. ground arith))
        | inr other ↦ now_cached solver bs results _ sig (omega arith) (ground arith)
      ]

  -- The cache has each leaf that is not terminal.
  abbrev pub HasLeaves : Cache W → List Leaf → Type 0
  HasLeaves cache [] = Unit
  HasLeaves cache (leaf ∷ leaves) =
      (is_terminal leaf.board ≡ false → has_value (find_cached cache leaf.board.zobrists) ≡ true)
      × HasLeaves cache leaves

  filled :
      (solver : Option (Board → List ℤ)) (missed : List Board) (results : List (EvaluationResult W))
      (cache : Cache W)
      → length results ≡ length missed
      → (leaves : List Leaf) → AllIn cache missed (leaf_boards leaves)
      → HasLeaves (fill_cache solver missed results cache) leaves
  filled solver missed results cache e [] all = tt
  filled solver missed results cache e (leaf ∷ leaves) all =
      elim (Bool-cases (is_terminal leaf.board)) [
        | inl over ↦ (
          λ h. absurd (ground arith),
          filled solver missed results cache e leaves
              (subst (λ (l : List Board). AllIn cache missed l) (ground arith) all),
        )
        | inr going ↦
            let both =
              subst (λ (l : List Board). AllIn cache missed l) (skipped leaf leaves going) all in
            (
              λ h. cached leaf.board.zobrists both.0,
              filled solver missed results cache e leaves both.1,
            )
      ]
    where
      skipped :
          (leaf : Leaf) (leaves : List Leaf)
          → is_terminal leaf.board ≡ false
          → leaf_boards (leaf ∷ leaves) ≡ leaf.board ∷ leaf_boards leaves
      skipped leaf leaves h = ground arith

      cached :
          (sig : BoardSignature)
          → IsIn cache missed sig
          → has_value (find_cached (fill_cache solver missed results cache) sig) ≡ true
      cached sig (inl h) = still_cached solver missed results cache sig h
      cached sig (inr h) = now_cached solver missed results cache sig e h

  module _ {E : Type 0} ⦃evaluator : Evaluator W E⦄ where
    -- With an evaluator that answers each board, the evaluation of a batch returns a cache that has the
    -- board of every leaf that is not terminal.
    pub evaluate_leaves-HasLeaves :
        (solver : Option (Board → List ℤ)) (leaves : List Leaf) (cache : Cache W) (world : E)
        → Answers evaluator
        → Returns
            (λ (r : Cache W × E). HasLeaves r.0 leaves)
            (evaluate_leaves solver leaves cache world)
    unfolding evaluate_leaves fill_cache
    evaluate_leaves-HasLeaves solver leaves cache world answers =
        let missed = missed_boards cache (leaf_boards leaves) [] in
        let answered = evaluator.evaluate missed world in
        let all = missed_boards-AllIn cache (leaf_boards leaves) [] in
        let P = Returns (λ (r : Cache W × E). HasLeaves r.0 leaves) in
        if_cases P (length missed == 0)
          (λ e. ((cache, world), refl, none_missed missed (ground arith) all))
          (λ e.
            if_cases P (length answered.0 == length missed)
              (λ h. (
                (fill_cache solver missed answered.0 cache, answered.1),
                refl,
                filled solver missed answered.0 cache (answers missed world) leaves all,
              ))
              (λ h. absurd (ground (arith, answers missed world))))
      where
        none_missed :
            (missed : List Board)
            → length missed ≡ 0
            → AllIn cache missed (leaf_boards leaves)
            → HasLeaves cache leaves
        none_missed [] e all = filled solver [] [] cache refl leaves all
        none_missed (b ∷ bs) e all = absurd (omega arith)

  answered_leaf-Any :
      (n : ℕ) (leaf : Leaf) (root : Node W) (o : Option (EvaluationResult W))
      → has_value o ≡ true
      → Any (expand_leaf n leaf root o)
  answered_leaf-Any n leaf root none h = absurd (ground arith)
  answered_leaf-Any n leaf root (some r) h = some-Any _

  finish_leaf-Any :
      (n : ℕ) (cache : Cache W) (leaf : Leaf) (root : Node W)
      → (is_terminal leaf.board ≡ false → has_value (find_cached cache leaf.board.zobrists) ≡ true)
      → Any (finish_leaf n cache leaf root)
  unfolding finish_leaf
  finish_leaf-Any n cache leaf root h =
      if_cases (λ (o : Option (Node W)). Any o) (is_terminal leaf.board) (λ e. some-Any _)
        (λ e. answered_leaf-Any n leaf root (find_cached cache leaf.board.zobrists) (h e))

  pub finish_leaves-Any :
      (n : ℕ) (cache : Cache W) (leaves : List Leaf) (root : Node W)
      → HasLeaves cache leaves
      → Any (finish_leaves n cache leaves root)
  unfolding finish_leaves
  finish_leaves-Any n cache [] root h = some-Any root
  finish_leaves-Any n cache (leaf ∷ leaves) root (here, later) =
      bind-Returns _ _ (finish_leaf n cache leaf root) _ (finish_leaf-Any n cache leaf root here)
        (λ next u. finish_leaves-Any n cache leaves next later)
