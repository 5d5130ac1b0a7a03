-- ===== src/Ingest/Python/Pickled.antt =====
-- internal/ingest/python.go: records as Python's pickle writes them.
pub mod Batch
pub mod Whole
use mathlib.Core.List.{append-nil}
use logdoc.Common.{
  ℕ, zero, suc, ◌≡◌, ◌≤◌, ◌<◌, ◌+◌, ◌*◌, ◌/◌, ◌%◌, ◌^◌, Bool, true, false, Option, none, some, List,
  [], ◌∷◌, ◌++◌, refl, ◌∙◌, ap, sym, arith, ◌-◌, length, length-append, All, ltb, leb,
  if◌then◌else◌, Bool-cases, inl, inr,
}
use logdoc.Common.Text.{Text, text_Eq}
use logdoc.Common.Map.{insert}
use logdoc.Common.Int.{pos}
use logdoc.Ingest.Bytes.{read_full, read_full-append, little_endian}
use logdoc.Ingest.Python.Memory.{
  Value, null, boolean, integer, float, string, list, dict, mark, Dict, Heap, get_dict, set_dict,
  memorize,
}
use logdoc.Ingest.Python.{
  Machine, Step, proto_op, stop_op, next, stop, fail, push, pop_mark, dict_set, items_set,
  heap_or_fail, set_items_op, bytes_op, sized_op, new_dict, put_op, keep_top, max_python_frame,
}
use logdoc.Ingest.Python.Opcodes.{
  Floats, collection_op, memo_op, scalar_op, execute, run, new_machine, unpickle,
}

-- A value of a flat record: a text, a number of one byte, a truth value, or None.
pub data Item : Type 0 where
  text : Text → Item
  small : ℕ → Item
  nothing : Item
  flag : Bool → Item

abbrev pub item_value : Item → Value
item_value (text t) = string t
item_value (small n) = integer (pos n)
item_value nothing = null
item_value (flag b) = boolean b

abbrev pub four_bytes : ℕ → Text
four_bytes n = n % 256 ∷ n / 2 ^ 8 % 256 ∷ n / 2 ^ 16 % 256 ∷ n / 2 ^ 24 ∷ []

-- BINPUT or LONG_BINPUT, in front of the bytes that follow.
abbrev pub write_put : ℕ → Text → Text
write_put n rest = if ltb n 256 then b'q' ∷ n ∷ rest else b'r' ∷ (four_bytes n ++ rest)

-- BINUNICODE, with the text put into the memo under the next number.
abbrev pub write_text : ℕ → Text → Text → Text
write_text n t rest = b'X' ∷ (four_bytes (length t) ++ (t ++ write_put n rest))

abbrev pub write_item : ℕ → Item → Text → Text
write_item n (text t) rest = write_text n t rest
write_item n (small k) rest = b'K' ∷ k ∷ rest
write_item n nothing rest = b'N' ∷ rest
write_item n (flag true) rest = 136 ∷ rest
write_item n (flag false) rest = 137 ∷ rest

-- The objects in the memo after the item; only texts go there.
abbrev pub memo_size : Item → ℕ → ℕ
memo_size (text t) n = suc n
memo_size _ n = n

abbrev pub Items : Type 0
Items = List (Text × Item)

-- The keys and values, where `n` objects are in the memo already.
abbrev pub write_items : ℕ → Items → Text → Text
write_items n [] rest = rest
write_items n ((k, i) ∷ kvs) rest =
    write_text n k (write_item (suc n) i (write_items (memo_size i (suc n)) kvs rest))

-- The items of a dict: none, one with SETITEM, or several with a mark and SETITEMS; and STOP.
abbrev pub write_batch : Items → Text
write_batch [] = b'.' ∷ []
write_batch (kv ∷ []) = write_items 1 (kv ∷ []) (b's' ∷ b'.' ∷ [])
write_batch (kv ∷ kv' ∷ kvs) = b'(' ∷ write_items 1 (kv ∷ kv' ∷ kvs) (b'u' ∷ b'.' ∷ [])

-- `pickle.dumps(d, 2)` of a dict with these items, fewer than 1000 (from there Python writes several
-- batches), whose texts are objects of their own (one that comes again is taken from the memo): PROTO
-- 2, an empty dict, which goes into the memo, the items and STOP.
abbrev pub pickle : Items → Text
pickle kvs = 128 ∷ 2 ∷ b'}' ∷ write_put 0 (write_batch kvs)

-- The dict with the items, where the last of several with one key counts.
abbrev pub put_items : Items → Dict → Dict
put_items [] d = d
put_items ((k, i) ∷ kvs) d = put_items kvs (insert k (item_value i) d)

abbrev pub IsItem : Item → Type 0
IsItem (text t) = length t ≤ max_python_frame
IsItem (small n) = n < 256
IsItem nothing = Unit
IsItem (flag b) = Unit

-- Keys and texts are not too long, and numbers are bytes.
abbrev pub IsPair : Text × Item → Type 0
IsPair (k, i) = (length k ≤ max_python_frame) × IsItem i

abbrev pub IsRecord : Items → Type 0
IsRecord kvs = (length kvs < 1000) × All IsPair kvs

little_endian-four_bytes : (n : ℕ) → n < 2 ^ 32 → little_endian (four_bytes n) ≡ n
unfolding little_endian
little_endian-four_bytes n h = omega arith

bytes_op-append :
    (a rest : Text) (read : Text → Value) (m : Machine)
    → bytes_op (length a) read (a ++ rest) m ≡ next rest (push (read a) m)
bytes_op-append a rest read m = unfold bytes_op in ground (arith, read_full-append a rest)

sized_text :
    (size : ℕ) (s : Text) (m : Machine)
    → size ≤ max_python_frame
    → size < 2 ^ 32
    → sized_op 4 max_python_frame (λ n t. string t) (four_bytes size ++ s) m
      ≡ bytes_op size (λ t. string t) s m
unfolding sized_op read_full
sized_text size s m h b =
    ap (λ (z : ℕ). if ltb max_python_frame z then fail else bytes_op z (λ t. string t) s m)
      (little_endian-four_bytes size b)
    ∙ ground arith

execute_text :
    (go : Floats) (t rest : Text) (m : Machine)
    → length t ≤ max_python_frame
    → execute go b'X' (four_bytes (length t) ++ (t ++ rest)) m ≡ next rest (push (string t) m)
unfolding execute scalar_op
execute_text go t rest m h =
    sized_text (length t) (t ++ rest) m h (omega (arith, h))
    ∙ bytes_op-append t rest (λ u. string u) m

pub run_next :
    (go : Floats) (n op : ℕ) (s : Text) (m : Machine) {t : Text} {m₁ : Machine}
    → execute go op s m ≡ next t m₁
    → run go (suc n) (op ∷ s) m ≡ run go n t m₁
unfolding run
run_next go n op s m {t} {m₁} e = rw (run, e) refl

little_endian_one : (k : ℕ) → little_endian (k ∷ []) ≡ k
unfolding little_endian
little_endian_one k = omega arith

execute_small :
    (go : Floats) (k : ℕ) (rest : Text) (m : Machine)
    → execute go b'K' (k ∷ rest) m ≡ next rest (push (integer (pos (little_endian (k ∷ [])))) m)
unfolding execute scalar_op bytes_op read_full
execute_small go k rest m = refl

-- The number under which the machine keeps what is put.
abbrev put_key : ℕ → ℕ
put_key n = if ltb n 256 then little_endian (n ∷ []) else little_endian (four_bytes n)

run_put :
    (go : Floats) (fuel n : ℕ) (rest : Text) (v : Value) (m : Machine)
    → run go (suc fuel) (write_put n rest) (push v m)
      ≡ run go fuel rest (record (push v m) { memo = memorize (put_key n) v m.memo })
unfolding run execute scalar_op collection_op memo_op put_op read_full keep_top push
run_put go fuel n rest v m = elim (Bool-cases (ltb n 256)) [ inl e ↦ rw e refl | inr e ↦ rw e refl ]

-- The machine after a text, and after an item.
abbrev pub keep : ℕ → Text → Machine → Machine
keep n t m = record (push (string t) m) { memo = memorize (put_key n) (string t) m.memo }

abbrev pub keep_item : ℕ → Item → Machine → Machine
keep_item n (text t) m = keep n t m
keep_item n (small k) m = push (integer (pos k)) m
keep_item n nothing m = push null m
keep_item n (flag b) m = push (boolean b) m

-- The rounds of an item, before `n` more.
abbrev pub item_rounds : Item → ℕ → ℕ
item_rounds (text t) n = suc (suc n)
item_rounds _ n = suc n

pub run_text :
    (go : Floats) (fuel n : ℕ) (t rest : Text) (m : Machine)
    → length t ≤ max_python_frame
    → run go (suc (suc fuel)) (write_text n t rest) m ≡ run go fuel rest (keep n t m)
run_text go fuel n t rest m h =
    run_next go (suc fuel) b'X' (four_bytes (length t) ++ (t ++ write_put n rest)) m
      (execute_text go t (write_put n rest) m h)
    ∙ run_put go fuel n rest (string t) m

pub run_item :
    (go : Floats) (fuel n : ℕ) (i : Item) (rest : Text) (m : Machine)
    → IsItem i
    → run go (item_rounds i fuel) (write_item n i rest) m ≡ run go fuel rest (keep_item n i m)
run_item go fuel n (text t) rest m h = run_text go fuel n t rest m h
run_item go fuel n (small k) rest m h =
    run_next go fuel b'K' (k ∷ rest) m {t = rest}
      {m₁ = push (integer (pos (little_endian (k ∷ [])))) m} (execute_small go k rest m)
    ∙ ap (λ z. run go fuel rest (push (integer (pos z)) m)) (little_endian_one k)
run_item go fuel n nothing rest m h =
    run_next go fuel b'N' rest m {t = rest} {m₁ = push null m} (unfold execute in refl)
run_item go fuel n (flag true) rest m h =
    run_next go fuel 136 rest m {t = rest} {m₁ = push (boolean true) m} (unfold execute in refl)
run_item go fuel n (flag false) rest m h =
    run_next go fuel 137 rest m {t = rest} {m₁ = push (boolean false) m} (unfold execute in refl)
