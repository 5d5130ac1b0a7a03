-- ===== src/Storage/Tests.antt =====
-- internal/storage/batcher.go: the theorems about the batcher on concrete values.
use logdoc.Common.{
  ℕ, zero, suc, ◌+◌, ◌%◌, ◌^◌, ◌≡◌, ◌<◌, Bool, true, false, List, [], ◌∷◌, ◌++◌, arith, All,
}
use logdoc.Common.Int.{pos}
use logdoc.Model.{Entry}
use logdoc.Samples.{failed, billed}
use logdoc.Storage.Batcher.{Inserter, Batcher, BatcherOptions, new_batcher, received, ticked}
use logdoc.Storage.Batcher.Conservation.{
  Event, appended, tried, loops, closes, run, handled, pending, run-pending,
}
use logdoc.Storage.Batcher.Retry.{Atomic, all_written, all_lost, run-Accounted}
use logdoc.Storage.Batcher.Bounds.{IsValid, FitsBatch, new_batcher-IsValid, run-IsValid}

-- A store that refuses its first `failures` batches, and then takes all.
record Disk : Type 0 where
  failures : ℕ
  stored : List Entry

abbrev write : Disk → List Entry → Disk × Bool
write d batch = elim d.failures [
  | zero ↦ (record d { stored = d.stored ++ batch }, true)
  | suc n ↦ (record d { failures = n }, false)
]

abbrev disk : Inserter
disk = record { State = Disk; insert_batch = write }

written-whole :
    (d : Disk) (batch : List Entry)
    → (write d batch).1 ≡ true
    → (write d batch).0.stored ≡ d.stored ++ batch
written-whole d batch h = ground arith

refused-whole :
    (d : Disk) (batch : List Entry)
    → (write d batch).1 ≡ false
    → (write d batch).0.stored ≡ d.stored
refused-whole d batch h = ground arith

abbrev disk_Atomic : Atomic disk
disk_Atomic = record {
  contents = λ d. d.stored;
  on_success = written-whole;
  on_failure = refused-whole;
}

abbrev options : BatcherOptions
options = record {
  batch_size = pos 2;
  flush_interval = pos 5;
  max_retries = pos 2;
  backoff = pos 1;
}

-- The first batch is lost after two attempts.
abbrev start : Batcher Disk
start = new_batcher (record { failures = 2; stored = [] }) options

abbrev events : List Event
events =
    appended failed
    ∷ tried billed
    ∷ appended failed
    ∷ loops received
    ∷ loops received
    ∷ loops received
    ∷ loops ticked
    ∷ closes
    ∷ loops received
    ∷ []

run-pending_example :
    handled (run disk events start).2 ++ pending disk (run disk events start).0
    ≡ pending disk start ++ (run disk events start).1
run-pending_example = run-pending disk events start

no_drops : start.dropped_count < 2 ^ 64
unfolding new_batcher
no_drops = omega arith

run-Accounted_example :
    ((run disk events start).0.store.stored
      ≡ start.store.stored ++ all_written (run disk events start).2)
    × ((run disk events start).0.dropped_count
        ≡ (start.dropped_count + all_lost (run disk events start).2) % 2 ^ 64)
run-Accounted_example = run-Accounted disk disk_Atomic events start no_drops

run-IsValid_example :
    IsValid (run disk events start).0 × All (FitsBatch start.size) (run disk events start).2
run-IsValid_example = run-IsValid disk events start (new_batcher-IsValid _ options)
