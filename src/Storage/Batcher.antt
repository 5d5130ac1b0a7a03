-- ===== src/Storage/Batcher.antt =====
-- internal/storage/batcher.go: batching, flushing with retries, and shutdown.
pub mod Conservation
pub mod Retry
pub mod Bounds
use logdoc.Common.{
  ℕ, zero, suc, ◌+◌, ◌*◌, ◌%◌, ◌^◌, Bool, true, false, not, ◌&&◌, List, [], ◌∷◌, ◌++◌, ltb, leb,
  ◌==◌, if◌then◌else◌, length, is_null,
}
use logdoc.Common.Int.{ℤ, or_default, second}
use logdoc.Model.{Entry}

-- `Inserter`: a store with state, whose `InsertBatch` may fail.
pub record Inserter : Type 1 where
  pub State : Type 0
  pub insert_batch : State → List Entry → State × Bool

pub record BatcherOptions : Type 0 where
  pub batch_size : ℤ
  pub flush_interval : ℤ
  pub max_retries : ℤ
  pub backoff : ℤ

-- What became of a batch: written, or dropped after the last attempt.
pub data Outcome : Type 0 where
  written dropped : List Entry → Outcome

-- `Batcher` with its loop's local batch. `queue` is the channel `in`, `closed` says that it is
-- closed, `done` that the loop has returned. `dropped_count` is a uint64.
pub record Batcher (S : Type 0) : Type 0 where
  pub store : S
  pub queue : List Entry
  pub batch : List Entry
  pub size : ℕ
  pub interval : ℕ
  pub max_retries : ℕ
  pub backoff : ℕ
  pub dropped_count : ℕ
  pub closed : Bool
  pub done : Bool

abbrev millisecond : ℕ
millisecond = 1000000

-- `NewBatcher`, with the defaults for what is not positive.
unfoldable pub new_batcher : {S : Type 0} → S → BatcherOptions → Batcher S
new_batcher store opts = record {
  store = store;
  queue = [];
  batch = [];
  size = or_default 10000 opts.batch_size;
  interval = or_default second opts.flush_interval;
  max_retries = or_default 3 opts.max_retries;
  backoff = or_default (250 * millisecond) opts.backoff;
  dropped_count = 0;
  closed = false;
  done = false;
}

-- The channel holds four batches.
abbrev pub has_room : {S : Type 0} → Batcher S → Bool
has_room b = ltb (length b.queue) (b.size * 4)

-- What a send comes to: it is done, its caller waits for room, or it panics on a closed channel.
pub data Sent (S : Type 0) : Type 0 where
  sent : Batcher S → Sent S
  waits panics : Sent S

-- `Append`
unfoldable pub append : {S : Type 0} → Entry → Batcher S → Sent S
append e b =
    if b.closed
    then panics
    else if has_room b
    then sent (record b { queue = b.queue ++ e ∷ [] })
    else waits

-- `TryAppend`: where `Append` would wait the entry is left out, and the result is false.
pub try_append : {S : Type 0} → Entry → Batcher S → Sent S × Bool
try_append e b =
    if b.closed
    then (panics, false)
    else if has_room b
    then (sent (record b { queue = b.queue ++ e ∷ [] }), true)
    else (sent b, false)

-- `Close`
unfoldable pub close : {S : Type 0} → Batcher S → Batcher S
close b = record b { closed = true }

-- The result of an attempted flush: the store, what became of the batch, and the pauses between the
-- attempts.
pub record Flushed (S : Type 0) : Type 0 where
  pub store : S
  pub outcome : Outcome
  pub pauses : List ℕ

-- What the `select` of `loop` chooses.
pub data LoopEvent : Type 0 where
  received ticked : LoopEvent

module _ (db : Inserter) where
  -- The loop of `flushWithRetry` with `left` attempts to go, the next pause being `delay`. A
  -- duration that doubles wraps at 64 bits.
  pub attempts : ℕ → ℕ → db.State → List Entry → Flushed db.State
  attempts zero delay st batch = record { store = st; outcome = dropped batch; pauses = [] }
  attempts (suc left) delay st batch =
      let (st', ok) = db.insert_batch st batch in
      let again = attempts left (delay * 2 % 2 ^ 64) st' batch in
      if ok
      then record { store = st'; outcome = written batch; pauses = [] }
      else if left == 0
      then record { store = st'; outcome = dropped batch; pauses = [] }
      else record again { pauses = delay ∷ again.pauses }

  -- `flushWithRetry`: `max_retries` attempts in all.
  flush_with_retry : Batcher db.State → Flushed db.State
  flush_with_retry b = attempts b.max_retries b.backoff b.store b.batch

  -- The counter after a batch.
  abbrev pub count_dropped : ℕ → Outcome → ℕ
  count_dropped n (written batch) = n
  count_dropped n (dropped batch) = (n + length batch) % 2 ^ 64

  after_flush : Batcher db.State → Flushed db.State → Batcher db.State × List Outcome
  after_flush b f = (
    record b {
      store = f.store;
      batch = [];
      dropped_count = count_dropped b.dropped_count f.outcome;
    },
    f.outcome ∷ [],
  )

  -- `flush` of `loop`: nothing for an empty batch.
  unfoldable pub flush : Batcher db.State → Batcher db.State × List Outcome
  unfolding flush_with_retry after_flush
  flush b = if is_null b.batch then (b, []) else after_flush b (flush_with_retry b)

  -- One receive of `loop`: an entry joins the batch, which is flushed when it is full. With the
  -- channel closed and empty the rest is flushed and the loop ends; with it open and empty the loop
  -- waits.
  pub on_receive : List Entry → Batcher db.State → Batcher db.State × List Outcome
  on_receive [] b =
      if b.closed then (let (b', out) = flush b in (record b' { done = true }, out)) else (b, [])
  on_receive (e ∷ queue) b =
      let b' = record b { queue = queue; batch = b.batch ++ e ∷ [] } in
      if leb b.size (length b'.batch) then flush b' else (b', [])

  -- One round of `loop`, on what its `select` chose.
  pub loop_step : LoopEvent → Batcher db.State → Batcher db.State × List Outcome
  unfolding on_receive
  loop_step received b = if b.done then (b, []) else on_receive b.queue b
  loop_step ticked b = if b.done then (b, []) else flush b
