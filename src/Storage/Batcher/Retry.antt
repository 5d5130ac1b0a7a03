-- ===== src/Storage/Batcher/Retry.antt =====
-- internal/storage/batcher.go: what reaches the store, and how often it is tried.
use mathlib.Core.List.{append_assoc, append-nil}
use native.Mathlib.Nat.{add-zero}
use logdoc.Common.{
  ℕ, zero, suc, ◌+◌, ◌*◌, ◌%◌, ◌^◌, ◌≡◌, ◌≤◌, ◌<◌, refl, sym, ap, ◌∙◌, true, false, List, [], ◌∷◌,
  ◌++◌, arith, length, is_null, Bool-cases, inl, inr,
}
use logdoc.Model.{Entry}
use logdoc.Storage.Batcher.{
  Inserter, Outcome, written, dropped, Batcher, append, try_append, close, attempts, count_dropped,
  flush, on_receive, received, ticked, loop_step,
}
use logdoc.Storage.Batcher.Conservation.{Event, appended, tried, loops, closes, step, run}

-- An atomic store, as the interface asks: a batch is written whole or not at all.
pub record Atomic (db : Inserter) : Type 0 where
  pub contents : db.State → List Entry
  pub on_success :
      (st : db.State) (batch : List Entry)
      → (db.insert_batch st batch).1 ≡ true
      → contents (db.insert_batch st batch).0 ≡ contents st ++ batch
  pub on_failure :
      (st : db.State) (batch : List Entry)
      → (db.insert_batch st batch).1 ≡ false
      → contents (db.insert_batch st batch).0 ≡ contents st

abbrev written_by : Outcome → List Entry
written_by (written batch) = batch
written_by (dropped batch) = []

abbrev lost_by : Outcome → ℕ
lost_by (written batch) = 0
lost_by (dropped batch) = length batch

abbrev pub all_written : List Outcome → List Entry
all_written [] = []
all_written (o ∷ os) = written_by o ++ all_written os

abbrev pub all_lost : List Outcome → ℕ
all_lost [] = 0
all_lost (o ∷ os) = lost_by o + all_lost os

module _ (db : Inserter) (a : Atomic db) where
  -- The store and the counter after some batches.
  record Accounted (b b' : Batcher db.State) (outs : List Outcome) : Type 0 where
    stored : a.contents b'.store ≡ a.contents b.store ++ all_written outs
    counted : b'.dropped_count ≡ (b.dropped_count + all_lost outs) % 2 ^ 64

  -- The store holds a batch exactly if its outcome says so.
  attempts-contents :
      (left delay : ℕ) (st : db.State) (batch : List Entry)
      → a.contents (attempts db left delay st batch).store
        ≡ a.contents st ++ written_by (attempts db left delay st batch).outcome
  unfolding attempts
  attempts-contents zero delay st batch = sym (append-nil (a.contents st))
  attempts-contents (suc left) delay st batch = ground (
    arith,
    append-nil (a.contents st),
    a.on_success st batch,
    a.on_failure st batch,
    attempts-contents left (delay * 2 % 2 ^ 64) (db.insert_batch st batch).0 batch,
  )

  counted_outcome :
      (n : ℕ) (o : Outcome) → n < 2 ^ 64 → count_dropped db n o ≡ (n + lost_by o) % 2 ^ 64
  counted_outcome n (written batch) h = omega arith
  counted_outcome n (dropped batch) h = refl

  flush-Accounted :
      (b : Batcher db.State) → b.dropped_count < 2 ^ 64 → Accounted b (flush db b).0 (flush db b).1
  unfolding flush
  flush-Accounted b h = elim (Bool-cases (is_null b.batch)) [
    | inl e ↦
        rw e (record { stored = sym (append-nil (a.contents b.store)); counted = omega arith })
    | inr e ↦ rw e (record {
      stored =
          attempts-contents b.max_retries b.backoff b.store b.batch
          ∙ ap (λ l. a.contents b.store ++ l) (sym (append-nil _));
      counted =
          counted_outcome b.dropped_count
            (attempts db b.max_retries b.backoff b.store b.batch).outcome h
          ∙ ap (λ n. (b.dropped_count + n) % 2 ^ 64) (sym (add-zero _));
    })
  ]

  Accounted-refl : (b : Batcher db.State) → b.dropped_count < 2 ^ 64 → Accounted b b []
  Accounted-refl b h = record {
    stored = sym (append-nil (a.contents b.store));
    counted = omega arith;
  }

  -- An operation that leaves the store and the counter alone.
  abbrev SameStore : Batcher db.State → Batcher db.State → Type 0
  SameStore b b' = (b.store ≡ b'.store) × (b.dropped_count ≡ b'.dropped_count)

  Accounted-same :
      (b b' c c' : Batcher db.State) (outs : List Outcome)
      → SameStore b b'
      → SameStore c c'
      → Accounted b c outs
      → Accounted b' c' outs
  Accounted-same b b' c c' outs s t h = record {
    stored = cc (s.0, t.0, h.stored);
    counted = cc (s.1, t.1, h.counted);
  }

  on_receive-Accounted :
      (queue : List Entry) (b : Batcher db.State)
      → b.dropped_count < 2 ^ 64
      → Accounted b (on_receive db queue b).0 (on_receive db queue b).1
  unfolding on_receive
  on_receive-Accounted [] b h = ground (arith, flush-Accounted b, Accounted-refl b)
  on_receive-Accounted (e ∷ queue) b h = ground (
    arith,
    flush-Accounted (record b { queue = queue; batch = b.batch ++ e ∷ [] }),
    Accounted-refl b,
  )

  step-Accounted :
      (ev : Event) (b : Batcher db.State)
      → b.dropped_count < 2 ^ 64
      → Accounted b (step db ev b).0 (step db ev b).2
  unfolding step append try_append close loop_step
  step-Accounted (appended e) b h = ground (arith, Accounted-refl b)
  step-Accounted (tried e) b h = ground (arith, Accounted-refl b)
  step-Accounted (loops received) b h =
      ground (arith, Accounted-refl b, on_receive-Accounted b.queue b)
  step-Accounted (loops ticked) b h = ground (arith, Accounted-refl b, flush-Accounted b)
  step-Accounted closes b h = ground (arith, Accounted-refl b)

  all_written-append :
      (os ps : List Outcome) → all_written (os ++ ps) ≡ all_written os ++ all_written ps
  all_written-append [] ps = refl
  all_written-append (o ∷ os) ps =
      ap (λ l. written_by o ++ l) (all_written-append os ps)
      ∙ sym (append_assoc (written_by o) (all_written os) (all_written ps))

  all_lost-append : (os ps : List Outcome) → all_lost (os ++ ps) ≡ all_lost os + all_lost ps
  all_lost-append [] ps = omega arith
  all_lost-append (o ∷ os) ps = omega (arith, all_lost-append os ps)

  -- Over any history, an atomic store holds the written batches and nothing else, in order, and the
  -- counter has grown by the entries of the dropped batches, modulo its 64 bits.
  pub run-Accounted :
      (evs : List Event) (b : Batcher db.State)
      → b.dropped_count < 2 ^ 64
      → (a.contents (run db evs b).0.store ≡ a.contents b.store ++ all_written (run db evs b).2)
        × ((run db evs b).0.dropped_count ≡ (b.dropped_count + all_lost (run db evs b).2) % 2 ^ 64)
  unfolding run
  run-Accounted [] b h = (sym (append-nil (a.contents b.store)), omega arith)
  run-Accounted (ev ∷ evs) b h =
      let s = step-Accounted ev b h in
      let b' = (step db ev b).0 in
      let out = (step db ev b).2 in
      let outs = (run db evs b').2 in
      let rest = run-Accounted evs b' (omega (arith, s.counted)) in
      (
        rest.0
            ∙ ap (λ l. l ++ all_written outs) s.stored
            ∙ append_assoc (a.contents b.store) (all_written out) (all_written outs)
            ∙ ap (λ l. a.contents b.store ++ l) (sym (all_written-append out outs)),
        omega (arith, rest.1, s.counted, all_lost-append out outs),
      )

-- A batch is dropped only after every attempt has failed, one pause before each but the first; and
-- there is never a pause more.
pub attempts-pauses :
    (db : Inserter) (left delay : ℕ) (st : db.State) (batch : List Entry)
    → let f = attempts db (suc left) delay st batch in
      (length f.pauses ≤ left) × (f.outcome ≡ dropped batch → length f.pauses ≡ left)
unfolding attempts
attempts-pauses db zero delay st batch = ground arith
attempts-pauses db (suc left) delay st batch =
    ground (arith, attempts-pauses db left (delay * 2 % 2 ^ 64) (db.insert_batch st batch).0 batch)
