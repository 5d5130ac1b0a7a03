-- ===== src/Ingest/Python/Pickled/Batch.antt =====
-- internal/ingest/python.go: how the items of a written record are unpickled.
use mathlib.Core.List.{append-nil}
use logdoc.Common.{ℕ, zero, suc, ◌≡◌, some, List, [], ◌∷◌, ◌++◌, refl, ◌∙◌, ap, All}
use logdoc.Common.Text.{Text, text_Eq}
use logdoc.Common.Map.{insert}
use logdoc.Common.Int.{pos}
use logdoc.Ingest.Python.Memory.{
  Value, null, boolean, integer, string, dict, mark, Dict, get_dict, set_dict,
}
use logdoc.Ingest.Python.{
  Machine, stop_op, next, push, pop_mark, dict_set, items_set, heap_or_fail, set_items_op,
  set_item_op,
}
use logdoc.Ingest.Python.Opcodes.{Floats, collection_op, scalar_op, execute, run}
use logdoc.Ingest.Python.Pickled.{
  Item, text, small, nothing, flag, item_value, write_item, memo_size, Items, write_items,
  write_batch, put_items, IsPair, keep, keep_item, item_rounds, run_next, run_text, run_item,
}

-- The stack after the keys and values.
abbrev pushes : Items → List Value → List Value
pushes [] stack = stack
pushes ((k, i) ∷ kvs) stack = pushes kvs (item_value i ∷ string k ∷ stack)

abbrev flat : Items → List Value
flat [] = []
flat ((k, i) ∷ kvs) = string k ∷ item_value i ∷ flat kvs

-- The rounds that the keys and values take, before `n` more.
abbrev pub rounds : Items → ℕ → ℕ
rounds [] n = n
rounds ((k, i) ∷ kvs) n = suc (suc (item_rounds i (rounds kvs n)))

-- The machine after the keys and values.
after_items : ℕ → Items → Machine → Machine
after_items n [] m = m
after_items n ((k, i) ∷ kvs) m =
    after_items (memo_size i (suc n)) kvs (keep_item (suc n) i (keep n k m))

after_items-stack :
    (n : ℕ) (kvs : Items) (m : Machine) → (after_items n kvs m).stack ≡ pushes kvs m.stack
unfolding after_items push
after_items-stack n [] m = refl
after_items-stack n ((k, text t) ∷ kvs) m = after_items-stack (suc (suc n)) kvs _
after_items-stack n ((k, small j) ∷ kvs) m = after_items-stack (suc n) kvs _
after_items-stack n ((k, nothing) ∷ kvs) m = after_items-stack (suc n) kvs _
after_items-stack n ((k, flag b) ∷ kvs) m = after_items-stack (suc n) kvs _

after_items-heap : (n : ℕ) (kvs : Items) (m : Machine) → (after_items n kvs m).heap ≡ m.heap
unfolding after_items push
after_items-heap n [] m = refl
after_items-heap n ((k, text t) ∷ kvs) m = after_items-heap (suc (suc n)) kvs _
after_items-heap n ((k, small j) ∷ kvs) m = after_items-heap (suc n) kvs _
after_items-heap n ((k, nothing) ∷ kvs) m = after_items-heap (suc n) kvs _
after_items-heap n ((k, flag b) ∷ kvs) m = after_items-heap (suc n) kvs _

pop_mark-pushes :
    (kvs : Items) (acc stack : List Value)
    → pop_mark acc (pushes kvs stack) ≡ pop_mark (flat kvs ++ acc) stack
unfolding pop_mark
pop_mark-pushes [] acc stack = refl
pop_mark-pushes ((k, text t) ∷ kvs) acc stack =
    pop_mark-pushes kvs acc (string t ∷ string k ∷ stack)
pop_mark-pushes ((k, small n) ∷ kvs) acc stack =
    pop_mark-pushes kvs acc (integer (pos n) ∷ string k ∷ stack)
pop_mark-pushes ((k, nothing) ∷ kvs) acc stack = pop_mark-pushes kvs acc (null ∷ string k ∷ stack)
pop_mark-pushes ((k, flag b) ∷ kvs) acc stack =
    pop_mark-pushes kvs acc (boolean b ∷ string k ∷ stack)

items_set-flat :
    (kvs : Items) (d : Dict)
    → items_set (dict 0 ∷ []) (flat kvs) (d ∷ []) ≡ some (put_items kvs d ∷ [])
unfolding items_set dict_set set_dict get_dict
items_set-flat [] d = refl
items_set-flat ((k, i) ∷ kvs) d = items_set-flat kvs (insert k (item_value i) d)

run-write_items :
    (go : Floats) (kvs : Items) (fuel n : ℕ) (rest : Text) (m : Machine)
    → All IsPair kvs
    → run go (rounds kvs fuel) (write_items n kvs rest) m ≡ run go fuel rest (after_items n kvs m)
unfolding after_items
run-write_items go [] fuel n rest m h = refl
run-write_items go ((k, i) ∷ kvs) fuel n rest m h =
    let n' = memo_size i (suc n) in
    let m₁ = keep n k m in
    run_text go (item_rounds i (rounds kvs fuel)) n k
      (write_item (suc n) i (write_items n' kvs rest)) m h.0.0
    ∙ run_item go (rounds kvs fuel) (suc n) i (write_items n' kvs rest) m₁ h.0.1
    ∙ run-write_items go kvs fuel n' rest (keep_item (suc n) i m₁) h.1

-- The empty dict has been put into the memo.
abbrev pub opened : Machine
opened = record { stack = dict 0 ∷ []; memo = (0, dict 0) ∷ []; heap = [] ∷ [] }

abbrev marked : Machine
marked = record opened { stack = mark ∷ dict 0 ∷ [] }

set_items_op-pushes :
    (kvs : Items) (rest : Text) (m : Machine)
    → m.stack ≡ pushes kvs (mark ∷ dict 0 ∷ [])
    → m.heap ≡ [] ∷ []
    → set_items_op rest m
      ≡ next rest (record m { stack = dict 0 ∷ []; heap = put_items kvs [] ∷ [] })
unfolding set_items_op heap_or_fail
set_items_op-pushes kvs rest m e h =
    let p : pop_mark [] (pushes kvs (mark ∷ dict 0 ∷ [])) ≡ some (flat kvs, dict 0 ∷ []) =
      pop_mark-pushes kvs [] (mark ∷ dict 0 ∷ [])
      ∙ (unfold pop_mark in ap (λ l. some (l, dict 0 ∷ [])) (append-nil (flat kvs))) in
    rw (set_items_op, e, p) (rw (heap_or_fail, h, items_set-flat kvs []) refl)

-- SETITEM, behind one item.
run_one :
    (go : Floats) (fuel : ℕ) (kv : Text × Item)
    → run go (suc (suc fuel)) (b's' ∷ b'.' ∷ []) (after_items 1 (kv ∷ []) opened)
      ≡ some (dict 0, put_items (kv ∷ []) [] ∷ [])
unfolding run execute scalar_op collection_op set_item_op heap_or_fail dict_set set_dict get_dict
    stop_op after_items push
run_one go fuel (k, text t) = refl
run_one go fuel (k, small j) = refl
run_one go fuel (k, nothing) = refl
run_one go fuel (k, flag b) = refl

-- SETITEMS, behind several.
run_several :
    (go : Floats) (fuel : ℕ) (kvs : Items)
    → run go (suc (suc fuel)) (b'u' ∷ b'.' ∷ []) (after_items 1 kvs marked)
      ≡ some (dict 0, put_items kvs [] ∷ [])
unfolding execute scalar_op collection_op stop_op run
run_several go fuel kvs =
    run_next go (suc fuel) b'u' (b'.' ∷ []) (after_items 1 kvs marked) {t = b'.' ∷ []}
      {m₁ = record (after_items 1 kvs marked) { stack = dict 0 ∷ []; heap = put_items kvs [] ∷ [] }}
      (set_items_op-pushes kvs (b'.' ∷ []) (after_items 1 kvs marked)
        (after_items-stack 1 kvs marked) (after_items-heap 1 kvs marked))

-- The rounds of the items of a dict with all that follows.
abbrev pub batch_rounds : Items → ℕ
batch_rounds [] = suc zero
batch_rounds (kv ∷ []) = rounds (kv ∷ []) (suc (suc zero))
batch_rounds (kv ∷ kv' ∷ kvs) = suc (rounds (kv ∷ kv' ∷ kvs) (suc (suc zero)))

pub run-write_batch :
    (go : Floats) (kvs : Items)
    → All IsPair kvs
    → run go (batch_rounds kvs) (write_batch kvs) opened ≡ some (dict 0, put_items kvs [] ∷ [])
run-write_batch go [] h = unfold run in unfold execute in unfold stop_op in refl
run-write_batch go (kv ∷ []) h =
    run-write_items go (kv ∷ []) (suc (suc zero)) 1 (b's' ∷ b'.' ∷ []) opened h ∙ run_one go zero kv
run-write_batch go (kv ∷ kv' ∷ kvs) h =
    let items = kv ∷ kv' ∷ kvs in
    let s = write_items 1 items (b'u' ∷ b'.' ∷ []) in
    run_next go (rounds items (suc (suc zero))) b'(' s opened {t = s} {m₁ = marked}
      (unfold execute in unfold push in refl)
    ∙ run-write_items go items (suc (suc zero)) 1 (b'u' ∷ b'.' ∷ []) marked h
    ∙ run_several go zero items
