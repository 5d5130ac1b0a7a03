-- ===== src/Ingest/Python/Opcodes.antt =====
-- internal/ingest/python.go: the opcodes, and the loop of `unpickle`.
use logdoc.Common.{
  ℕ, zero, suc, ◌-◌, true, false, ◌&&◌, ◌||◌, Option, none, some, [], ◌∷◌, leb, ◌==◌, if◌then◌else◌,
  length,
}
use logdoc.Common.Text.{Text, text_Eq}
use logdoc.Common.Int.{pos}
use logdoc.Ingest.Bytes.{little_endian, big_endian}
use logdoc.Ingest.Python.Memory.{
  Value, null, boolean, integer, float, string, list, mark, to_values, Heap,
}
use logdoc.Ingest.Python.{
  max_python_frame, Machine, Step, next, stop, fail, push, line_op, decimal, int_line, trim_long,
  signed, bytes_op, sized_op, tuple_op, tuple_n_op, stack_or_fail, append_op, appends_op,
  set_item_op, set_items_op, keep_top, put_op, get_op, proto_op, stop_op, new_dict,
}

-- The opcodes on the memo; the default is an error.
unfoldable pub memo_op : ℕ → Text → Machine → Step
unfolding put_op get_op
memo_op op s m =
    if op == b'q'
    then put_op 1 s m
    else if op == b'r'
    then put_op 4 s m
    else if op == b'h'
    then get_op 1 s m
    else if op == b'j'
    then get_op 4 s m
    else if op == 148
    then next s (keep_top (length m.memo) m)
    else fail

-- The opcodes on tuples, lists and dicts.
unfoldable pub collection_op : ℕ → Text → Machine → Step
unfolding memo_op tuple_op set_item_op set_items_op
collection_op op s m =
    if op == b'}'
    then next s (new_dict m)
    else if op == b']' || op == b')'
    then next s (push (list (to_values [])) m)
    else if op == b't'
    then tuple_op s m
    else if leb 133 op && leb op 135
    then stack_or_fail (tuple_n_op (op - 132) [] m.stack) s m
    else if op == b'a'
    then stack_or_fail (append_op m.stack) s m
    else if op == b'e'
    then stack_or_fail (appends_op m.stack) s m
    else if op == b's'
    then set_item_op s m m.stack
    else if op == b'u'
    then set_items_op s m
    else memo_op op s m

-- What the machine takes from strconv.ParseFloat, as the bits of the number.
pub record Floats : Type 0 where
  pub parse_float : Text → Option ℕ
  -- strconv.FormatFloat(_, 'g', -1, 64)
  pub format_float : ℕ → Text

unfoldable pub float_line : Floats → Text → Option Value
float_line go s = elim (go.parse_float s) [ none ↦ none | some f ↦ some (float f) ]

-- The opcodes of numbers and texts.
unfoldable pub scalar_op : Floats → ℕ → Text → Machine → Step
unfolding line_op bytes_op sized_op collection_op
scalar_op go op s m =
    if op == b'I'
    then line_op int_line s m
    else if op == b'L'
    then line_op (λ t. decimal (trim_long t)) s m
    else if op == b'F'
    then line_op (float_line go) s m
    else if op == b'K'
    then bytes_op 1 (λ t. integer (pos (little_endian t))) s m
    else if op == b'M'
    then bytes_op 2 (λ t. integer (pos (little_endian t))) s m
    else if op == b'J'
    then bytes_op 4 (λ t. integer (signed 4 (little_endian t))) s m
    else if op == 138
    then sized_op 1 8 (λ n t. integer (signed n (little_endian t))) s m
    else if op == b'G'
    then bytes_op 8 (λ t. float (big_endian t)) s m
    else if op == b'X'
    then sized_op 4 max_python_frame (λ n t. string t) s m
    else if op == 140 || op == b'U'
    then sized_op 1 255 (λ n t. string t) s m
    else collection_op op s m

-- One round of the loop in `unpickle`.
unfoldable pub execute : Floats → ℕ → Text → Machine → Step
unfolding scalar_op proto_op stop_op push
execute go op s m =
    if op == 128
    then proto_op s m
    else if op == b'.'
    then stop_op m.stack m.heap
    else if op == b'('
    then next s (push mark m)
    else if op == b'N'
    then next s (push null m)
    else if op == 136
    then next s (push (boolean true) m)
    else if op == 137
    then next s (push (boolean false) m)
    else scalar_op go op s m

-- The loop, on fuel; the result is the dict, with the dicts that were made.
unfoldable pub run : Floats → ℕ → Text → Machine → Option (Value × Heap)
unfolding execute
run go zero s m = none
run go (suc fuel) [] m = none
run go (suc fuel) (op ∷ s) m = elim (execute go op s m) [
  | next t m₁ ↦ run go fuel t m₁
  | stop v heap ↦ some (v, heap)
  | fail ↦ none
]

abbrev pub new_machine : Machine
new_machine = record { stack = []; memo = []; heap = [] }

-- Each opcode is a byte, so the length of the frame is fuel enough.
unfoldable pub unpickle : Floats → Text → Option (Value × Heap)
unfolding run
unpickle go frame = run go (length frame) frame new_machine
