-- ===== src/Graph/Tests.antt =====
-- internal/graph/extractor.go: the theorems about the extractor on concrete values.
use logdoc.Common.{◌+◌, ◌%◌, ◌^◌, ◌≡◌, List, [], ◌∷◌, arith}
use logdoc.Common.Int.{pos}
use logdoc.Common.Text.{bytes}
use logdoc.Model.{Entry, Time}
use logdoc.Samples.{failed, billed}
use logdoc.Graph.Edges.{NodeKey}
use logdoc.Graph.Extractor.{Extractor, new_extractor}
use logdoc.Graph.Extractor.Counts.{
  node_counters, append_all, entries, entries_of, errors_of, append_all-node_counters,
}
use logdoc.Graph.Extractor.Shape.{
  IsValid, Event, appended, flushed, evicted, run_extractor, run_extractor-IsValid,
}

abbrev empty : Extractor
empty = new_extractor (pos 100) (pos 1)

abbrev shop : NodeKey
shop = record { tenant_id = bytes "default"; app = bytes "shop" }

abbrev traffic : List (Entry × Time)
traffic = (failed, 10) ∷ (billed, 11) ∷ (failed, 12) ∷ []

append_all-node_counters_example :
    ((node_counters shop (append_all traffic empty)).0 % 2 ^ 64
      ≡ ((node_counters shop empty).0 + entries_of shop (entries traffic)) % 2 ^ 64)
    × ((node_counters shop (append_all traffic empty)).1 % 2 ^ 64
        ≡ ((node_counters shop empty).1 + errors_of shop (entries traffic)) % 2 ^ 64)
append_all-node_counters_example = append_all-node_counters shop traffic empty

empty-IsValid : IsValid empty
unfolding new_extractor
empty-IsValid = record { edges = tt; groups = tt; capped = omega arith }

abbrev events : List Event
events = appended failed 10 ∷ appended billed 11 ∷ flushed ∷ evicted 200 ∷ []

run_extractor-IsValid_example : IsValid (run_extractor events empty)
run_extractor-IsValid_example = run_extractor-IsValid events empty empty-IsValid
