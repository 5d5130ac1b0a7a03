-- ===== src/Ingest/Python.antt =====
-- internal/ingest/python.go: the machine that reads a pickled log record.
pub mod Tests
pub mod Memory
pub mod Record
pub mod Pickled
pub mod Cycle
pub mod Rendered
pub mod Progress
pub mod Opcodes
use logdoc.Common.{
  ℕ, zero, suc, ◌+◌, ◌-◌, ◌*◌, ◌^◌, Bool, true, false, ◌&&◌, ◌||◌, Option, none, some, List, [],
  ◌∷◌, ◌++◌, ltb, leb, ◌==◌, if◌then◌else◌, length,
}
use logdoc.Common.Text.{Text, bytes, text_eq, text_Eq}
use logdoc.Common.Map.{insert}
use logdoc.Common.Int.{ℤ, pos, negsuc}
use logdoc.Common.Decimal.{atoi}
use logdoc.Ingest.Bytes.{cut_at, read_full, little_endian, big_endian}
use logdoc.Ingest.Python.Memory.{
  Value, null, boolean, integer, float, string, list, dict, mark, to_values, append_values, Dict,
  Heap, get_dict, set_dict, recall, memorize,
}

abbrev pub max_python_frame : ℕ
max_python_frame = 2 ^ 20

-- The stack with its top first, the memo, and the dicts that were made.
pub record Machine : Type 0 where
  pub stack : List Value
  pub memo : List (ℕ × Value)
  pub heap : Heap

-- After an opcode: on with the bytes that are left, the end of the pickle, or an error.
pub data Step : Type 0 where
  next : Text → Machine → Step
  stop : Value → Heap → Step
  fail : Step

unfoldable pub push : Value → Machine → Machine
push v m = record m { stack = v ∷ m.stack }

-- A value that may be missing goes onto the stack.
unfoldable pub push_or_fail : Option Value → Text → Machine → Step
unfolding push
push_or_fail none s m = fail
push_or_fail (some v) s m = next s (push v m)

-- What is above the topmost mark, in the order in which it was pushed, and what is below; `items` are
-- those found so far.
unfoldable pub pop_mark : List Value → List Value → Option (List Value × List Value)
pop_mark items [] = none
pop_mark items (mark ∷ stack) = some (items, stack)
pop_mark items (null ∷ stack) = pop_mark (null ∷ items) stack
pop_mark items (boolean b ∷ stack) = pop_mark (boolean b ∷ items) stack
pop_mark items (integer n ∷ stack) = pop_mark (integer n ∷ items) stack
pop_mark items (float f ∷ stack) = pop_mark (float f ∷ items) stack
pop_mark items (string t ∷ stack) = pop_mark (string t ∷ items) stack
pop_mark items (list vs ∷ stack) = pop_mark (list vs ∷ items) stack
pop_mark items (dict r ∷ stack) = pop_mark (dict r ∷ items) stack

-- `dictSet`: the dict on top of the stack gets an item.
unfoldable pub dict_set : List Value → Value → Value → Heap → Option Heap
dict_set (dict r ∷ stack) (string key) v heap =
    some (set_dict r (insert key v (get_dict r heap)) heap)
dict_set _ _ _ _ = none

-- The opcodes that end with a line.
unfoldable pub line_op : (Text → Option Value) → Text → Machine → Step
unfolding push_or_fail
line_op read s m = elim (cut_at b'\n' s) [ none ↦ fail | some p ↦ push_or_fail (read p.0) p.1 m ]

unfoldable pub decimal : Text → Option Value
decimal s = elim (atoi s) [ none ↦ none | some n ↦ some (integer n) ]

unfoldable pub int_line : Text → Option Value
unfolding decimal
int_line s =
    if text_eq s (bytes "01")
    then some (boolean true)
    else if text_eq s (bytes "00")
    then some (boolean false)
    else decimal s

-- strings.TrimSuffix(_, "L")
unfoldable pub trim_long : Text → Text
trim_long [] = []
trim_long (c ∷ []) = if c == b'L' then [] else c ∷ []
trim_long (c ∷ d ∷ s) = c ∷ trim_long (d ∷ s)

-- A number of `n` bytes in two's complement.
unfoldable pub signed : ℕ → ℕ → ℤ
signed n v = if leb (256 ^ n) (2 * v) then negsuc (256 ^ n - 1 - v) else pos v

-- The next `n` bytes as a value.
unfoldable pub bytes_op : ℕ → (Text → Value) → Text → Machine → Step
unfolding push
bytes_op n read s m = elim (read_full n s) [ none ↦ fail | some p ↦ next p.1 (push (read p.0) m) ]

-- A size of `n` bytes, and a value of that size, which must not exceed the limit.
unfoldable pub sized_op : ℕ → ℕ → (ℕ → Text → Value) → Text → Machine → Step
unfolding bytes_op
sized_op n limit read s m = elim (read_full n s) [
  | none ↦ fail
  | some p ↦
      let size = little_endian p.0 in
      if ltb limit size then fail else bytes_op size (read size) p.1 m
]

-- TUPLE
unfoldable pub tuple_op : Text → Machine → Step
tuple_op s m = elim (pop_mark [] m.stack) [
  | none ↦ fail
  | some p ↦ next s (record m { stack = list (to_values p.0) ∷ p.1 })
]

-- TUPLE1 to TUPLE3
unfoldable pub tuple_n_op : ℕ → List Value → List Value → Option (List Value)
tuple_n_op zero items stack = some (list (to_values items) ∷ stack)
tuple_n_op (suc n) items [] = none
tuple_n_op (suc n) items (v ∷ stack) = tuple_n_op n (v ∷ items) stack

unfoldable pub stack_or_fail : Option (List Value) → Text → Machine → Step
stack_or_fail none s m = fail
stack_or_fail (some stack) s m = next s (record m { stack = stack })

-- The list below gets the items.
unfoldable pub extend : List Value → List Value → Option (List Value)
extend items (list vs ∷ stack) = some (list (append_values vs items) ∷ stack)
extend items _ = none

-- APPEND
unfoldable pub append_op : List Value → Option (List Value)
unfolding extend
append_op [] = none
append_op (v ∷ stack) = extend (v ∷ []) stack

-- APPENDS
unfoldable pub appends_op : List Value → Option (List Value)
unfolding extend
appends_op stack = elim (pop_mark [] stack) [ none ↦ none | some p ↦ extend p.0 p.1 ]

unfoldable pub items_set : List Value → List Value → Heap → Option Heap
items_set stack [] heap = some heap
items_set stack (k ∷ []) heap = none
items_set stack (k ∷ v ∷ items) heap = elim (dict_set stack k v heap) [
  | none ↦ none
  | some heap₁ ↦ items_set stack items heap₁
]

unfoldable pub heap_or_fail : Option Heap → List Value → Text → Machine → Step
heap_or_fail none stack s m = fail
heap_or_fail (some heap) stack s m = next s (record m { stack = stack; heap = heap })

-- SETITEM
unfoldable pub set_item_op : Text → Machine → List Value → Step
set_item_op s m (v ∷ k ∷ stack) = heap_or_fail (dict_set stack k v m.heap) stack s m
set_item_op s m _ = fail

-- SETITEMS; an odd number of items fails, and with it the whole record.
unfoldable pub set_items_op : Text → Machine → Step
unfolding items_set heap_or_fail
set_items_op s m = elim (pop_mark [] m.stack) [
  | none ↦ fail
  | some p ↦ heap_or_fail (items_set p.1 p.0 m.heap) p.1 s m
]

-- The top of the stack goes into the memo, if there is one.
unfoldable pub keep_top : ℕ → Machine → Machine
keep_top i m = elim (m.stack) [ [] ↦ m | v ∷ stack ↦ record m { memo = memorize i v m.memo } ]

-- BINPUT, LONG_BINPUT
unfoldable pub put_op : ℕ → Text → Machine → Step
unfolding keep_top
put_op n s m = elim (read_full n s) [
  | none ↦ fail
  | some p ↦ next p.1 (keep_top (little_endian p.0) m)
]

-- BINGET, LONG_BINGET
unfoldable pub get_op : ℕ → Text → Machine → Step
unfolding push
get_op n s m = elim (read_full n s) [
  | none ↦ fail
  | some p ↦ next p.1 (push (recall (little_endian p.0) m.memo) m)
]

-- PROTO
unfoldable pub proto_op : Text → Machine → Step
proto_op [] m = fail
proto_op (c ∷ s) m = next s m

-- STOP
unfoldable pub stop_op : List Value → Heap → Step
stop_op (dict r ∷ stack) heap = stop (dict r) heap
stop_op _ heap = fail

unfoldable pub new_dict : Machine → Machine
new_dict m = record m { stack = dict (length m.heap) ∷ m.stack; heap = m.heap ++ ([] ∷ []) }
