-- ===== src/Ingest/Python/Tests.antt =====
-- internal/ingest/python.go: the theorems on concrete pickles.
use logdoc.Common.{ℕ, true, zero, suc, ◌≡◌, ◌+◌, refl, none, some, [], ◌∷◌, ◌++◌, arith, err, ok}
use logdoc.Common.Text.{Text, bytes, text_eq}
use logdoc.Common.Map.{lookup, insert}
use logdoc.Ingest.Bytes.{read_full, little_endian}
use logdoc.Ingest.Python.{
  sized_op, bytes_op, put_op, get_op, keep_top, push, new_dict, set_item_op, heap_or_fail, dict_set,
  stop_op,
}
use logdoc.Ingest.Python.Opcodes.{
  Floats, run, new_machine, unpickle, execute, scalar_op, collection_op, memo_op,
}
use logdoc.Common.Int.{negsuc}
use logdoc.Common.Decimal.{itoa, digits}
use logdoc.Ingest.Python.Rendered.{IsRanked, IsOk, py_string-IsOk}
use logdoc.Ingest.Python.Memory.{
  dict, list, string, integer, Heap, get_dict, set_dict, recall, memorize, to_values, of_values,
}
use logdoc.Ingest.Python.Record.{py_string, no_end, item_texts, pair_texts, enclose, int_text, join}
use logdoc.Ingest.Python.Cycle.{py_string-cycle}
use logdoc.Ingest.Python.Progress.{run_enough}
use logdoc.Ingest.Python.Pickled.{Items, text, small, nothing, flag, pickle, put_items}
use logdoc.Ingest.Python.Pickled.Whole.{unpickle-pickle}

abbrev floats : Floats
floats = record { parse_float = λ s. none; format_float = λ f. [] }

abbrev items : Items
items =
    (bytes "msg", text (bytes "hi"))
    ∷ (bytes "process", small 7)
    ∷ (bytes "args", nothing)
    ∷ (bytes "x", flag true)
    ∷ []

-- What `pickle.dumps` of Python gives for these items, for one of them, and for none.
items_pickled :
    pickle items
    ≡ (128 ∷ 2 ∷ bytes "}q")
      ++ (0 ∷ bytes "(X")
      ++ (3 ∷ 0 ∷ 0 ∷ 0 ∷ bytes "msgq")
      ++ (1 ∷ b'X' ∷ 2 ∷ 0 ∷ 0 ∷ 0 ∷ bytes "hiq")
      ++ (2 ∷ b'X' ∷ 7 ∷ 0 ∷ 0 ∷ 0 ∷ bytes "processq")
      ++ (3 ∷ b'K' ∷ 7 ∷ b'X' ∷ 4 ∷ 0 ∷ 0 ∷ 0 ∷ bytes "argsq")
      ++ (4 ∷ b'N' ∷ b'X' ∷ 1 ∷ 0 ∷ 0 ∷ 0 ∷ bytes "xq")
      ++ (5 ∷ 136 ∷ bytes "u.")
items_pickled = refl

one_pickled :
    pickle ((bytes "msg", text (bytes "hi")) ∷ [])
    ≡ (128 ∷ 2 ∷ bytes "}q")
      ++ (0 ∷ b'X' ∷ 3 ∷ 0 ∷ 0 ∷ 0 ∷ bytes "msgq")
      ++ (1 ∷ b'X' ∷ 2 ∷ 0 ∷ 0 ∷ 0 ∷ bytes "hiq")
      ++ (2 ∷ bytes "s.")
one_pickled = refl

none_pickled : pickle [] ≡ (128 ∷ 2 ∷ bytes "}q") ++ (0 ∷ bytes ".")
none_pickled = refl

unpickle-pickle_example : unpickle floats (pickle items) ≡ some (dict 0, put_items items [] ∷ [])
unpickle-pickle_example = unpickle-pickle floats items (
  omega arith,
  (
    (omega arith, omega arith),
    ((omega arith, omega arith), ((omega arith, tt), ((omega arith, tt), tt))),
  ),
)

run_enough_example :
    run floats (4 + 3) (bytes "N}s.") new_machine ≡ run floats 4 (bytes "N}s.") new_machine
run_enough_example = run_enough floats 4 3 (bytes "N}s.") new_machine (omega arith)

-- A dict that is put into the memo, and into itself under "msg".
abbrev cycle : Text
cycle = bytes "}q" ++ (0 ∷ bytes "U" ++ (3 ∷ bytes "msgh" ++ (0 ∷ bytes "s.")))

abbrev cycle_heap : Heap
cycle_heap = ((bytes "msg", dict 0) ∷ []) ∷ []

cycle_unpickled : unpickle floats cycle ≡ some (dict 0, cycle_heap)
unfolding unpickle run execute scalar_op sized_op bytes_op collection_op memo_op put_op get_op
    keep_top push new_dict set_item_op heap_or_fail dict_set stop_op read_full little_endian
    get_dict set_dict recall memorize insert
cycle_unpickled = refl

py_string-cycle_example : py_string floats 1000 cycle_heap (dict 0) ≡ err no_end
unfolding lookup get_dict text_eq
py_string-cycle_example = py_string-cycle floats 1000 cycle_heap 0 (bytes "msg") refl

-- A dict that holds a list with another dict in it.
abbrev nested : Heap
nested =
    ((bytes "a", list (to_values (dict 1 ∷ integer (negsuc 6) ∷ []))) ∷ [])
    ∷ ((bytes "x", string (bytes "y")) ∷ [])
    ∷ []

abbrev rank : ℕ → ℕ
rank zero = 3
rank (suc r) = 1

nested-IsRanked : IsRanked rank nested
unfolding get_dict to_values
nested-IsRanked zero = (omega arith, tt)
nested-IsRanked (suc zero) = (omega arith, tt)
nested-IsRanked (suc (suc r)) = tt

py_string-IsOk_example : IsOk (py_string floats 4 nested (dict 0))
py_string-IsOk_example = py_string-IsOk floats rank nested 4 (dict 0) nested-IsRanked (omega arith)

nested_text : py_string floats 4 nested (dict 0) ≡ ok (bytes "{a=[{x=y},-7]}")
unfolding py_string item_texts pair_texts enclose int_text join itoa digits get_dict to_values
    of_values
nested_text = refl
