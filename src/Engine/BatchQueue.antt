-- ===== src/Engine/BatchQueue.antt =====
-- engine/src/batched_blocking_queue.h. Push, Shutdown and the parts of PopBatch between its waits
-- hold the mutex, and are the steps of a relation; a wait_for may time out at any moment, so the
-- coalescing wait may end whenever the scheduler likes. There is one consumer.
pub mod Fifo
pub mod Tests
use gomoku.Prelude.{
  ℕ, zero, suc, ◌+◌, ◌≡◌, ◌≢◌, Bool, true, false, List, [], ◌∷◌, ◌++◌, Option, none, some, ltb,
  if◌then◌else◌, length,
}
use gomoku.Prelude.Int.{ℤ, pos, negsuc, pos_part}

-- Where the consumer stands: outside PopBatch, in its first wait, in the coalescing wait.
pub data Consumer : Type 0 where
  outside waiting coalescing : Consumer

pub record Queue {ℓ} (T : Type ℓ) : Type ℓ where
  pub max_batch_size : ℤ
  pub queue : List T
  pub shutdown : Bool
  pub consumer : Consumer

module _ {ℓ} {T : Type ℓ} where
  -- The constructor: `none` is its exception.
  unfoldable pub new : ℤ → ℤ → Option (Queue T)
  new max_batch_size (pos (suc us)) = some (record {
    max_batch_size = max_batch_size;
    queue = [];
    shutdown = false;
    consumer = Consumer.outside;
  })
  new max_batch_size max_wait_us = none

  -- The loop that moves items into the batch.
  pub drain : ℤ → List T → List T → List T × List T
  drain max batch [] = (batch, [])
  drain max batch (x ∷ xs) =
      let more = drain max (batch ++ x ∷ []) xs in
      if ltb (length batch) (pos_part max) then more else (batch, x ∷ xs)

  abbrev pub push : Queue T → T → Queue T
  push q item = record q { queue = q.queue ++ item ∷ [] }

  abbrev pub shut : Queue T → Queue T
  shut q = record q { shutdown = true }

  abbrev pub taken : Queue T → List T × List T
  taken q = drain q.max_batch_size [] q.queue

  -- What a step delivers: no batch, or the batch that PopBatch returns.
  pub data Step (q : Queue T) : Option (List T) → List T → Queue T → Type ℓ where
    pushes : (item : T) → Step q none (item ∷ []) (push q item)
    shuts : Step q none [] (shut q)
    calls :
        q.consumer ≡ Consumer.outside → Step q none [] (record q { consumer = Consumer.waiting })
    ends :
        q.consumer ≡ Consumer.waiting
        → q.shutdown ≡ true
        → q.queue ≡ []
        → Step q (some []) [] (record q { consumer = Consumer.outside })
    gathers :
        q.consumer ≡ Consumer.waiting
        → q.queue ≢ []
        → Step q none [] (record q { consumer = Consumer.coalescing })
    returns :
        q.consumer ≡ Consumer.coalescing
        → Step q
            (some (taken q).0)
            []
            (record q { queue = (taken q).1; consumer = Consumer.outside })
