-- ===== src/Storage/Batcher/Conservation.antt =====
-- internal/storage/batcher.go: every accepted entry is accounted for, in order.
use mathlib.Core.List.{append_assoc, append-nil}
use logdoc.Common.{
  ℕ, zero, suc, ◌*◌, ◌%◌, ◌^◌, ◌≡◌, refl, sym, ap, ◌∙◌, Bool, true, false, List, [], ◌∷◌, ◌++◌,
  arith, is_null, Bool-cases, inl, inr,
}
use logdoc.Model.{Entry}
use logdoc.Storage.Batcher.{
  Inserter, Outcome, written, dropped, Batcher, Sent, sent, waits, panics, append, try_append,
  close, attempts, flush, on_receive, LoopEvent, received, ticked, loop_step,
}

-- The entries of a batch, whatever became of it.
abbrev pub entries_of : Outcome → List Entry
entries_of (written batch) = batch
entries_of (dropped batch) = batch

abbrev pub handled : List Outcome → List Entry
handled [] = []
handled (o ∷ os) = entries_of o ++ handled os

-- What happens to a batcher.
pub data Event : Type 0 where
  appended : Entry → Event
  tried : Entry → Event
  loops : LoopEvent → Event
  closes : Event

-- The batcher after a send, and the entry if it was taken.
abbrev after_append : {S : Type 0} → Entry → Batcher S → Sent S → Batcher S × List Entry
after_append e b (sent b') = (b', e ∷ [])
after_append e b waits = (b, [])
after_append e b panics = (b, [])

abbrev after_try : {S : Type 0} → Entry → Batcher S → Sent S × Bool → Batcher S × List Entry
after_try e b (sent b', true) = (b', e ∷ [])
after_try e b (sent b', false) = (b', [])
after_try e b (waits, took) = (b, [])
after_try e b (panics, took) = (b, [])

module _ (db : Inserter) where
  -- The batcher after an event, the entries taken by it, and what became of a batch.
  unfoldable pub step : Event → Batcher db.State → Batcher db.State × List Entry × List Outcome
  step (appended e) b = let (b', took) = after_append e b (append e b) in (b', took, [])
  step (tried e) b = let (b', took) = after_try e b (try_append e b) in (b', took, [])
  step (loops ev) b = let (b', out) = loop_step db ev b in (b', [], out)
  step closes b = (close b, [], [])

  unfoldable pub run : List Event → Batcher db.State → Batcher db.State × List Entry × List Outcome
  run [] b = (b, [], [])
  run (ev ∷ evs) b =
      let (b', took, out) = step ev b in
      let (b'', tooks, outs) = run evs b' in (b'', took ++ tooks, out ++ outs)

  -- What waits in a batcher, oldest first.
  abbrev pub pending : Batcher db.State → List Entry
  pending b = b.batch ++ b.queue

  pub attempts-entries :
      (left delay : ℕ) (st : db.State) (batch : List Entry)
      → entries_of (attempts db left delay st batch).outcome ≡ batch
  unfolding attempts
  attempts-entries zero delay st batch = refl
  attempts-entries (suc left) delay st batch =
      ground (arith, attempts-entries left (delay * 2 % 2 ^ 64) (db.insert_batch st batch).0 batch)

  flush-pending :
      (b : Batcher db.State) → handled (flush db b).1 ++ pending (flush db b).0 ≡ pending b
  unfolding flush
  flush-pending b = elim (Bool-cases (is_null b.batch)) [
    | inl e ↦ rw e refl
    | inr e ↦ rw e (
        ap (λ l. (l ++ []) ++ b.queue) (attempts-entries b.max_retries b.backoff b.store b.batch)
        ∙ ap (λ l. l ++ b.queue) (append-nil b.batch))
  ]

  on_receive-pending :
      (queue : List Entry) (b : Batcher db.State)
      → b.queue ≡ queue
      → handled (on_receive db queue b).1 ++ pending (on_receive db queue b).0 ≡ pending b
  unfolding on_receive
  on_receive-pending [] b q = ground (arith, flush-pending b)
  on_receive-pending (e ∷ queue) b q = ground (
    arith,
    flush-pending (record b { queue = queue; batch = b.batch ++ e ∷ [] }),
    append_assoc b.batch (e ∷ []) queue,
  )

  loop_step-pending :
      (ev : LoopEvent) (b : Batcher db.State)
      → handled (loop_step db ev b).1 ++ pending (loop_step db ev b).0 ≡ pending b
  unfolding loop_step
  loop_step-pending received b = ground (arith, on_receive-pending b.queue b)
  loop_step-pending ticked b = ground (arith, flush-pending b)

  append-pending :
      (e : Entry) (b : Batcher db.State)
      → pending (after_append e b (append e b)).0 ≡ pending b ++ (after_append e b (append e b)).1
  unfolding append
  append-pending e b = ground (arith, append-nil (pending b), append_assoc b.batch b.queue (e ∷ []))

  try_append-pending :
      (e : Entry) (b : Batcher db.State)
      → pending (after_try e b (try_append e b)).0 ≡ pending b ++ (after_try e b (try_append e b)).1
  unfolding try_append
  try_append-pending e b =
      ground (arith, append-nil (pending b), append_assoc b.batch b.queue (e ∷ []))

  step-pending :
      (ev : Event) (b : Batcher db.State)
      → handled (step ev b).2 ++ pending (step ev b).0 ≡ pending b ++ (step ev b).1
  unfolding step
  step-pending (appended e) b = append-pending e b
  step-pending (tried e) b = try_append-pending e b
  step-pending (loops ev) b = loop_step-pending ev b ∙ sym (append-nil (pending b))
  step-pending closes b = unfold close in sym (append-nil (pending b))

  handled-append : (os ps : List Outcome) → handled (os ++ ps) ≡ handled os ++ handled ps
  handled-append [] ps = refl
  handled-append (o ∷ os) ps =
      ap (λ l. entries_of o ++ l) (handled-append os ps)
      ∙ sym (append_assoc (entries_of o) (handled os) (handled ps))

  -- Whatever the callers, the timer and the store do, the entries that were taken leave in the
  -- order in which they came: the batches that were written or dropped, then what is in the batch
  -- and in the queue, are what waited at first and then all that was taken since.
  pub run-pending :
      (evs : List Event) (b : Batcher db.State)
      → handled (run evs b).2 ++ pending (run evs b).0 ≡ pending b ++ (run evs b).1
  unfolding run
  run-pending [] b = sym (append-nil (pending b))
  run-pending (ev ∷ evs) b =
      let b' = (step ev b).0 in
      let out = handled (step ev b).2 in
      ap (λ l. l ++ pending (run evs b').0) (handled-append (step ev b).2 (run evs b').2)
      ∙ append_assoc out (handled (run evs b').2) (pending (run evs b').0)
      ∙ ap (λ l. out ++ l) (run-pending evs b')
      ∙ sym (append_assoc out (pending b') (run evs b').1)
      ∙ ap (λ l. l ++ (run evs b').1) (step-pending ev b)
      ∙ append_assoc (pending b) (step ev b).1 (run evs b').1
