-- ===== src/Engine/BatchQueue/Fifo.antt =====
-- No item is lost, doubled or overtaken; batches are bounded; the empty batch is the end.
use gomoku.Prelude.{
  zero, suc, ◌≤◌, ◌<◌, ◌≡◌, ◌≢◌, refl, sym, ap, ◌∙◌, inl, inr, true, List, [], ◌∷◌, ◌++◌, Option,
  none, some, ltb, length, length-append, arith, Bool-cases,
}
use mathlib.Core.List.{append-nil, append_assoc}
use gomoku.Prelude.Int.{ℤ, pos, negsuc, pos_part}
use gomoku.Engine.BatchQueue.{
  Queue, Consumer, Step, pushes, shuts, calls, ends, gathers, returns, drain, taken, new,
}

module _ {ℓ} {T : Type ℓ} where
  drain_parts :
      (max : ℤ) (batch xs : List T) → (drain max batch xs).0 ++ (drain max batch xs).1 ≡ batch ++ xs
  unfolding drain
  drain_parts max batch [] = refl
  drain_parts max batch (x ∷ xs) = elim (Bool-cases (ltb (length batch) (pos_part max))) [
    | inl e ↦ rw e (drain_parts max (batch ++ x ∷ []) xs ∙ append_assoc batch (x ∷ []) xs)
    | inr e ↦ rw e
  ]

  drain_bound :
      (max : ℤ) (batch xs : List T)
      → length batch ≤ pos_part max
      → length (drain max batch xs).0 ≤ pos_part max
  unfolding drain
  drain_bound max batch [] h = h
  drain_bound max batch (x ∷ xs) h =
      ground (arith, drain_bound max (batch ++ x ∷ []) xs, length-append batch (x ∷ []))

  drain_grows : (max : ℤ) (batch xs : List T) → length batch ≤ length (drain max batch xs).0
  unfolding drain
  drain_grows max batch [] = omega arith
  drain_grows max batch (x ∷ xs) =
      ground (arith, drain_grows max (batch ++ x ∷ []) xs, length-append batch (x ∷ []))

  drain_some : (max : ℤ) (xs : List T) → 0 < pos_part max → xs ≢ [] → 0 < length (drain max [] xs).0
  unfolding drain
  drain_some max [] h ne = absurd (ne refl)
  drain_some max (x ∷ xs) h ne = ground (arith, drain_grows max (x ∷ []) xs)

  -- What a step delivers and takes in.
  abbrev batch_of : Option (List T) → List T
  batch_of none = []
  batch_of (some b) = b

  -- A history: the batches that were returned, oldest first, and the items that were pushed.
  pub data History (max : ℤ) : List (List T) → List T → Queue T → Type ℓ where
    fresh : (us : ℤ) (q : Queue T) → new max us ≡ some q → History max [] [] q
    quiet :
        {bs : List (List T)} {ps : List T} {q r : Queue T} (items : List T)
        → History max bs ps q
        → Step q none items r
        → History max bs (ps ++ items) r
    gives :
        {bs : List (List T)} {ps : List T} {q r : Queue T} (b : List T)
        → History max bs ps q
        → Step q (some b) [] r
        → History max (bs ++ b ∷ []) ps r

  abbrev pub concat : List (List T) → List T
  concat [] = []
  concat (b ∷ bs) = b ++ concat bs

  concat-snoc : (bs : List (List T)) (b : List T) → concat (bs ++ b ∷ []) ≡ concat bs ++ b
  concat-snoc [] b = append-nil b
  concat-snoc (c ∷ bs) b = ap (◌++◌ c) (concat-snoc bs b) ∙ sym (append_assoc c (concat bs) b)

  abbrev pub AllBounded : ℤ → List (List T) → Type 0
  AllBounded max [] = Unit
  AllBounded max (b ∷ bs) = (length b ≤ pos_part max) × AllBounded max bs

  AllBounded-snoc :
      (max : ℤ) (bs : List (List T)) (b : List T)
      → AllBounded max bs
      → length b ≤ pos_part max
      → AllBounded max (bs ++ b ∷ [])
  AllBounded-snoc max [] b h k = (k, tt)
  AllBounded-snoc max (c ∷ bs) b h k = (h.0, AllBounded-snoc max bs b h.1 k)

  -- What holds after every history: the items come out in the order they went in, no batch is too
  -- long, and the consumer gathers only when there is something to gather.
  pub record IsFifo (max : ℤ) (bs : List (List T)) (ps : List T) (q : Queue T) : Type ℓ where
    pub conserved : concat bs ++ q.queue ≡ ps
    pub bounded : AllBounded max bs
    pub settings : q.max_batch_size ≡ max
    pub busy : q.consumer ≡ Consumer.coalescing → q.queue ≢ []

  append-not_nil : (xs : List T) (x : T) → xs ++ x ∷ [] ≢ []
  append-not_nil xs x e = omega (arith, length-append xs (x ∷ []), ap length e)

  new-IsFifo : (max us : ℤ) (q : Queue T) → new max us ≡ some q → IsFifo max [] [] q
  unfolding new
  new-IsFifo max (pos (suc us)) q e = record {
    conserved = ground arith;
    bounded = tt;
    settings = ground arith;
    busy = λ c. ground arith;
  }
  new-IsFifo max (pos zero) q e = ground arith
  new-IsFifo max (negsuc us) q e = ground arith

  -- A step that delivers nothing.
  quiet-IsFifo :
      (max : ℤ) (bs : List (List T)) (ps items : List T) (q r : Queue T)
      → IsFifo max bs ps q
      → Step q none items r
      → IsFifo max bs (ps ++ items) r
  quiet-IsFifo max bs ps items q r v (pushes item) = record {
    conserved =
        sym (append_assoc (concat bs) q.queue (item ∷ []))
        ∙ ap (λ (l : List T). l ++ item ∷ []) v.conserved;
    bounded = v.bounded;
    settings = v.settings;
    busy = λ c n. absurd (append-not_nil q.queue item n);
  }
  quiet-IsFifo max bs ps items q r v shuts = record {
    conserved = v.conserved ∙ sym (append-nil ps);
    bounded = v.bounded;
    settings = v.settings;
    busy = v.busy;
  }
  quiet-IsFifo max bs ps items q r v (calls e) = record {
    conserved = v.conserved ∙ sym (append-nil ps);
    bounded = v.bounded;
    settings = v.settings;
    busy = λ c. ground arith;
  }
  quiet-IsFifo max bs ps items q r v (gathers e ne) = record {
    conserved = v.conserved ∙ sym (append-nil ps);
    bounded = v.bounded;
    settings = v.settings;
    busy = λ c. ne;
  }

  -- A step that delivers a batch.
  gives-IsFifo :
      (max : ℤ) (bs : List (List T)) (ps : List T) (q r : Queue T) (b : List T)
      → IsFifo max bs ps q
      → Step q (some b) [] r
      → IsFifo max (bs ++ b ∷ []) ps r
  gives-IsFifo max bs ps q r b v (ends e s n) = record {
    conserved =
        ap (λ (l : List T). l ++ q.queue) (concat-snoc bs [] ∙ append-nil (concat bs))
        ∙ v.conserved;
    bounded = AllBounded-snoc max bs [] v.bounded (omega arith);
    settings = v.settings;
    busy = λ c. ground arith;
  }
  gives-IsFifo max bs ps q r b v (returns e) = record {
    conserved =
        ap (λ (l : List T). l ++ (taken q).1) (concat-snoc bs (taken q).0)
        ∙ append_assoc (concat bs) (taken q).0 (taken q).1
        ∙ ap (λ (l : List T). concat bs ++ l) (drain_parts q.max_batch_size [] q.queue)
        ∙ v.conserved;
    bounded = AllBounded-snoc max bs (taken q).0 v.bounded (
        omega
          (arith, drain_bound q.max_batch_size [] q.queue (omega arith), ap pos_part v.settings));
    settings = v.settings;
    busy = λ c. ground arith;
  }

  -- After every history of pushes, shutdowns and calls of PopBatch, whatever the waits do: the
  -- batches returned, one after the other, followed by what is still queued, are the items pushed,
  -- in their order; and no batch is longer than max_batch_size.
  pub History-IsFifo :
      {max : ℤ} {bs : List (List T)} {ps : List T} {q : Queue T}
      → History max bs ps q
      → IsFifo max bs ps q
  History-IsFifo (fresh us q e) = new-IsFifo _ us q e
  History-IsFifo (quiet items h st) = quiet-IsFifo _ _ _ items _ _ (History-IsFifo h) st
  History-IsFifo (gives b h st) = gives-IsFifo _ _ _ _ _ b (History-IsFifo h) st

  -- With a positive max_batch_size, PopBatch returns the empty batch only when the queue was shut
  -- down and nothing is queued: the consumer may take it for the end.
  pub History-end :
      (max : ℤ) (bs : List (List T)) (ps : List T) (q r : Queue T) (b : List T)
      → History max bs ps q
      → 0 < pos_part max
      → Step q (some b) [] r
      → b ≡ []
      → (q.shutdown ≡ true) × (concat bs ≡ ps)
  History-end max bs ps q r b h m (ends e s n) nothing = (
    s,
    sym (append-nil (concat bs))
        ∙ ap (λ (l : List T). concat bs ++ l) (sym n)
        ∙ (History-IsFifo h).conserved,
  )
  History-end max bs ps q r b h m (returns e) nothing =
      let v = History-IsFifo h in
      let some_left =
        drain_some q.max_batch_size q.queue (omega (arith, m, ap pos_part v.settings)) (v.busy e) in
      absurd (omega (arith, some_left, ap length nothing))
