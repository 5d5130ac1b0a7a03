-- ===== src/Ingest/Python/Memory.antt =====
-- internal/ingest/python.go: the values of a pickle. A Go map is shared by all that hold it, so a dict
-- is a reference to the heap. A slice is its items: what Go's `append` returns is a list of its own, as
-- it is unless a list that came out of the memo with room to spare is appended to more than once.
use logdoc.Common.{ℕ, zero, suc, Bool, List, [], ◌∷◌, ◌==◌, if◌then◌else◌}
use logdoc.Common.Text.{Text}
use logdoc.Common.Int.{ℤ}

-- A float is given by its 64 bits; `mark` is the sentinel of the stack.
mutual
  pub data Value : Type 0 where
    null mark : Value
    boolean : Bool → Value
    integer : ℤ → Value
    float : ℕ → Value
    string : Text → Value
    list : Values → Value
    dict : ℕ → Value

  pub data Values : Type 0 where
    no_value : Values
    value : Value → Values → Values

unfoldable pub to_values : List Value → Values
to_values [] = no_value
to_values (v ∷ vs) = value v (to_values vs)

unfoldable pub of_values : Values → List Value
of_values no_value = []
of_values (value v vs) = v ∷ of_values vs

-- append(list, items...)
unfoldable pub append_values : Values → List Value → Values
append_values no_value items = to_values items
append_values (value v vs) items = value v (append_values vs items)

abbrev pub Dict : Type 0
Dict = List (Text × Value)

-- The dicts in the order in which they were made.
abbrev pub Heap : Type 0
Heap = List Dict

unfoldable pub get_dict : ℕ → Heap → Dict
get_dict r [] = []
get_dict zero (d ∷ heap) = d
get_dict (suc r) (d ∷ heap) = get_dict r heap

unfoldable pub set_dict : ℕ → Dict → Heap → Heap
set_dict r d [] = []
set_dict zero d (e ∷ heap) = d ∷ heap
set_dict (suc r) d (e ∷ heap) = e ∷ set_dict r d heap

-- memo[i], which is nil where nothing is kept.
unfoldable pub recall : ℕ → List (ℕ × Value) → Value
recall i [] = null
recall i ((j, v) ∷ memo) = if j == i then v else recall i memo

unfoldable pub memorize : ℕ → Value → List (ℕ × Value) → List (ℕ × Value)
memorize i v [] = (i, v) ∷ []
memorize i v ((j, w) ∷ memo) = if j == i then (i, v) ∷ memo else (j, w) ∷ memorize i v memo
