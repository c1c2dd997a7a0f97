-- ===== src/Engine/BatchQueue/Tests.antt =====
-- A run of the queue on which its theorems are applied: three items, batches of two, a shutdown.
use gomoku.Prelude.{ℕ, ◌≡◌, refl, true, false, List, [], ◌∷◌, arith}
use gomoku.Prelude.Int.{pos}
use gomoku.Engine.BatchQueue.{
  Queue, Consumer, pushes, shuts, calls, ends, gathers, returns, drain, new,
}
use gomoku.Engine.BatchQueue.Fifo.{
  History, fresh, quiet, gives, IsFifo, History-IsFifo, History-end, concat,
}

abbrev at_rest : List ℕ → Queue ℕ
at_rest queue = record {
  max_batch_size = pos 2;
  queue = queue;
  shutdown = false;
  consumer = Consumer.outside;
}

abbrev gathering : List ℕ → Queue ℕ
gathering queue = record (at_rest queue) { consumer = Consumer.coalescing }

abbrev closed : Consumer → List ℕ → Queue ℕ
closed consumer queue = record (at_rest queue) { consumer = consumer; shutdown = true }

one_in : History (pos 2) [] (7 ∷ []) (at_rest (7 ∷ []))
unfolding new
one_in = quiet (7 ∷ []) (fresh (pos 100) (at_rest []) refl) (pushes 7)

three_in : History (pos 2) [] (7 ∷ 8 ∷ 9 ∷ []) (gathering (7 ∷ 8 ∷ 9 ∷ []))
three_in =
    quiet (9 ∷ [])
      (quiet (8 ∷ []) (quiet [] (quiet [] one_in (calls refl)) (gathers refl (λ e. ground arith)))
        (pushes 8))
      (pushes 9)

two_out : History (pos 2) ((7 ∷ 8 ∷ []) ∷ []) (7 ∷ 8 ∷ 9 ∷ []) (at_rest (9 ∷ []))
unfolding drain
two_out = gives (7 ∷ 8 ∷ []) three_in (returns refl)

all_out :
    History (pos 2) ((7 ∷ 8 ∷ []) ∷ (9 ∷ []) ∷ []) (7 ∷ 8 ∷ 9 ∷ []) (closed Consumer.outside [])
unfolding drain
all_out =
    gives (9 ∷ [])
      (quiet [] (quiet [] (quiet [] two_out shuts) (calls refl)) (gathers refl (λ e. ground arith)))
      (returns refl)

History-IsFifo_example :
    IsFifo (pos 2) ((7 ∷ 8 ∷ []) ∷ (9 ∷ []) ∷ []) (7 ∷ 8 ∷ 9 ∷ []) (closed Consumer.outside [])
History-IsFifo_example = History-IsFifo all_out

History-end_example :
    (true ≡ true) × (concat {T = ℕ} ((7 ∷ 8 ∷ []) ∷ (9 ∷ []) ∷ []) ≡ 7 ∷ 8 ∷ 9 ∷ [])
History-end_example =
    History-end (pos 2) _ _ (closed Consumer.waiting []) (closed Consumer.outside []) []
      (quiet [] all_out (calls refl)) (omega arith) (ends refl refl refl) refl
