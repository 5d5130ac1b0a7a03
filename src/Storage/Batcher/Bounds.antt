-- ===== src/Storage/Batcher/Bounds.antt =====
-- internal/storage/batcher.go: how much waits, how large batches are, and what is left at the end.
use logdoc.Common.{
  ℕ, ◌*◌, ◌≡◌, ◌≤◌, ◌<◌, refl, true, false, List, [], ◌∷◌, ◌++◌, arith, length, length-append,
  subst, All, All-append,
}
use logdoc.Common.Int.{or_default_pos}
use logdoc.Model.{Entry}
use logdoc.Storage.Batcher.{
  Inserter, Outcome, Batcher, BatcherOptions, new_batcher, has_room, append, try_append, close,
  flush, on_receive, received, ticked, loop_step,
}
use logdoc.Storage.Batcher.Conservation.{
  Event, appended, tried, loops, closes, step, run, entries_of, attempts-entries,
}

pub record IsValid {S : Type 0} (b : Batcher S) : Type 0 where
  pub size_pos : 0 < b.size
  pub retries_pos : 0 < b.max_retries
  pub batch_small : length b.batch < b.size
  pub queue_small : length b.queue ≤ b.size * 4
  pub finished : b.done ≡ true → (b.closed ≡ true) × (b.batch ≡ []) × (b.queue ≡ [])

-- A batch that is flushed is not empty and not larger than the batch size.
abbrev pub FitsBatch : ℕ → Outcome → Type 0
FitsBatch size o = (0 < length (entries_of o)) × (length (entries_of o) ≤ size)

-- A new batcher is valid, whatever the options.
pub new_batcher-IsValid :
    {S : Type 0} (store : S) (opts : BatcherOptions) → IsValid (new_batcher store opts)
unfolding new_batcher
new_batcher-IsValid store opts = record {
  size_pos = or_default_pos 10000 opts.batch_size (omega arith);
  retries_pos = or_default_pos 3 opts.max_retries (omega arith);
  batch_small = or_default_pos 10000 opts.batch_size (omega arith);
  queue_small = omega arith;
  finished = λ h. cc;
}

module _ (db : Inserter) where
  -- What a flush does to the parts that the bounds are about.
  record Emptied (b b' : Batcher db.State) (outs : List Outcome) : Type 0 where
    batch_empty : b'.batch ≡ []
    rest_same :
        (b'.queue ≡ b.queue)
        × (b'.size ≡ b.size)
        × (b'.max_retries ≡ b.max_retries)
        × (b'.closed ≡ b.closed)
        × (b'.done ≡ b.done)
    outs_fit : (n : ℕ) → length b.batch ≤ n → All (FitsBatch n) outs

  flush-Emptied : (b : Batcher db.State) → Emptied b (flush db b).0 (flush db b).1
  unfolding flush
  flush-Emptied b = record {
    batch_empty = ground arith;
    rest_same = ground arith;
    outs_fit = λ n h. ground (arith, attempts-entries db b.max_retries b.backoff b.store b.batch);
  }

  -- A step keeps the batcher valid, and its batches fit.
  record Kept (b b' : Batcher db.State) (outs : List Outcome) : Type 0 where
    still_valid : IsValid b'
    same_size : b'.size ≡ b.size
    fit : All (FitsBatch b.size) outs

  Kept-refl : (b : Batcher db.State) → IsValid b → Kept b b []
  Kept-refl b v = record { still_valid = v; same_size = refl; fit = tt }

  flush-Kept :
      (b : Batcher db.State) → IsValid b → b.done ≡ false → Kept b (flush db b).0 (flush db b).1
  flush-Kept b v d =
      let f = flush-Emptied b in
      record {
        still_valid = ground (arith, f.batch_empty, f.rest_same);
        same_size = ground (arith, f.rest_same);
        fit = f.outs_fit b.size (omega arith);
      }

  final-Kept :
      (b : Batcher db.State)
      → IsValid b
      → b.queue ≡ []
      → b.closed ≡ true
      → Kept b (record (flush db b).0 { done = true }) (flush db b).1
  final-Kept b v q c =
      let f = flush-Emptied b in
      record {
        still_valid = ground (arith, f.batch_empty, f.rest_same);
        same_size = ground (arith, f.rest_same);
        fit = f.outs_fit b.size (omega arith);
      }

  full-Kept :
      (b : Batcher db.State) (e : Entry) (queue : List Entry)
      → IsValid b
      → b.done ≡ false
      → b.queue ≡ e ∷ queue
      → let b' = record b { queue = queue; batch = b.batch ++ e ∷ [] } in
        Kept b (flush db b').0 (flush db b').1
  full-Kept b e queue v d q =
      let b' = record b { queue = queue; batch = b.batch ++ e ∷ [] } in
      let f = flush-Emptied b' in
      record {
        still_valid = ground (arith, f.batch_empty, f.rest_same);
        same_size = ground (arith, f.rest_same);
        fit = f.outs_fit b.size (omega (arith, length-append b.batch (e ∷ [])));
      }

  on_receive-Kept :
      (queue : List Entry) (b : Batcher db.State)
      → IsValid b
      → b.done ≡ false
      → b.queue ≡ queue
      → Kept b (on_receive db queue b).0 (on_receive db queue b).1
  unfolding on_receive
  on_receive-Kept [] b v d q = ground (arith, final-Kept b, Kept-refl b)
  on_receive-Kept (e ∷ queue) b v d q =
      ground (arith, full-Kept b e queue, length-append b.batch (e ∷ []))

  append-Kept :
      (b : Batcher db.State) (e : Entry)
      → IsValid b
      → b.closed ≡ false
      → has_room b ≡ true
      → Kept b (record b { queue = b.queue ++ e ∷ [] }) []
  append-Kept b e v c r = record {
    still_valid = ground (arith, length-append b.queue (e ∷ []));
    same_size = refl;
    fit = tt;
  }

  step-Kept :
      (ev : Event) (b : Batcher db.State) → IsValid b → Kept b (step db ev b).0 (step db ev b).2
  unfolding step append try_append close loop_step
  step-Kept (appended e) b v = ground (arith, Kept-refl b, append-Kept b e)
  step-Kept (tried e) b v = ground (arith, Kept-refl b, append-Kept b e)
  step-Kept (loops received) b v = ground (arith, Kept-refl b, on_receive-Kept b.queue b)
  step-Kept (loops ticked) b v = ground (arith, Kept-refl b, flush-Kept b)
  step-Kept closes b v = ground arith

  -- From a valid batcher on, whatever happens, the queue holds at most four batches, the batch is
  -- smaller than the batch size between two rounds, a loop that has returned leaves nothing behind,
  -- and every batch that was flushed held between one entry and the batch size.
  pub run-IsValid :
      (evs : List Event) (b : Batcher db.State)
      → IsValid b
      → IsValid (run db evs b).0 × All (FitsBatch b.size) (run db evs b).2
  unfolding run
  run-IsValid [] b v = (v, tt)
  run-IsValid (ev ∷ evs) b v =
      let k = step-Kept ev b v in
      let rest = run-IsValid evs (step db ev b).0 k.still_valid in
      (
        rest.0,
        All-append (FitsBatch b.size) (step db ev b).2 (run db evs (step db ev b).0).2 k.fit
            (subst (λ n. All (FitsBatch n) (run db evs (step db ev b).0).2) k.same_size rest.1),
      )
