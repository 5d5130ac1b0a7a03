-- ===== src/Ingest/Python/Pickled/Whole.antt =====
-- internal/ingest/python.go: how a written record is unpickled.
use logdoc.Common.{
  ℕ, zero, suc, ◌≡◌, ◌≤◌, ◌+◌, some, [], ◌∷◌, refl, ◌∙◌, ap, arith, ◌-◌, length, length-append, All,
  true, false,
}
use logdoc.Common.Text.{Text, text_Eq}
use logdoc.Ingest.Python.Memory.{Value, dict, Heap, memorize}
use logdoc.Ingest.Bytes.{read_full, little_endian}
use logdoc.Ingest.Python.{Machine, proto_op, push, new_dict, put_op, keep_top}
use logdoc.Ingest.Python.Opcodes.{
  Floats, collection_op, memo_op, scalar_op, execute, run, new_machine, unpickle,
}
use logdoc.Ingest.Python.Pickled.{
  Item, text, small, nothing, flag, write_put, write_text, write_item, memo_size, Items,
  write_items, write_batch, pickle, put_items, IsPair, IsRecord, item_rounds,
}
use logdoc.Ingest.Python.Pickled.Batch.{rounds, opened, batch_rounds, run-write_batch}

-- The rounds of a whole pickle.
abbrev all_rounds : Items → ℕ
all_rounds kvs = suc (suc (suc (batch_rounds kvs)))

run_prefix :
    (go : Floats) (n : ℕ) (s : Text)
    → run go (suc (suc (suc n))) (128 ∷ 2 ∷ b'}' ∷ b'q' ∷ 0 ∷ s) new_machine ≡ run go n s opened
unfolding run execute scalar_op collection_op memo_op proto_op new_dict push put_op keep_top
    read_full little_endian memorize
run_prefix go n s = refl

run-pickle :
    (go : Floats) (kvs : Items)
    → All IsPair kvs
    → run go (all_rounds kvs) (pickle kvs) new_machine ≡ some (dict 0, put_items kvs [] ∷ [])
run-pickle go kvs h = run_prefix go (batch_rounds kvs) (write_batch kvs) ∙ run-write_batch go kvs h

-- With more fuel a result stays the same.
step_more :
    (go : Floats) (n k : ℕ) (s : Text) (m : Machine) {r : Value × Heap}
    → ((t : Text) (m₁ : Machine) → run go n t m₁ ≡ some r → run go (n + k) t m₁ ≡ some r)
    → run go (suc n) s m ≡ some r
    → run go (suc (n + k)) s m ≡ some r
unfolding run
step_more go n k [] m {r} ih h = absurd (cc h)
step_more go n k (op ∷ s) m {r} ih h = grind (arith, ih)

run_more :
    (go : Floats) (n k : ℕ) (s : Text) (m : Machine) {r : Value × Heap}
    → run go n s m ≡ some r
    → run go (n + k) s m ≡ some r
unfolding run
run_more go zero k s m {r} h = absurd (cc h)
run_more go (suc n) k s m {r} h =
    let e : suc n + k ≡ suc (n + k) = omega arith in
    ap (λ i. run go i s m) e
    ∙ step_more go n k s m {r = r} (λ t m₁ g. run_more go n k t m₁ {r = r} g) h

length-write_put : (n : ℕ) (rest : Text) → length rest + 1 ≤ length (write_put n rest)
length-write_put n rest = ground arith

length-write_text : (n : ℕ) (s rest : Text) → length rest + 2 ≤ length (write_text n s rest)
length-write_text n s rest =
    omega (arith, length-append s (write_put n rest), length-write_put n rest)

length-write_item :
    (n : ℕ) (i : Item) (rest : Text) (fuel : ℕ)
    → fuel ≤ length rest
    → item_rounds i fuel ≤ length (write_item n i rest)
length-write_item n (text t) rest fuel h = omega (arith, h, length-write_text n t rest)
length-write_item n (small k) rest fuel h = omega (arith, h)
length-write_item n nothing rest fuel h = omega (arith, h)
length-write_item n (flag true) rest fuel h = omega (arith, h)
length-write_item n (flag false) rest fuel h = omega (arith, h)

length-write_items :
    (n : ℕ) (kvs : Items) (rest : Text) (fuel : ℕ)
    → fuel ≤ length rest
    → rounds kvs fuel ≤ length (write_items n kvs rest)
length-write_items n [] rest fuel h = h
length-write_items n ((k, i) ∷ kvs) rest fuel h =
    let n' = memo_size i (suc n) in
    let tail = write_items n' kvs rest in
    omega (
      arith,
      length-write_item (suc n) i tail (rounds kvs fuel) (length-write_items n' kvs rest fuel h),
      length-write_text n k (write_item (suc n) i tail),
    )

length-write_batch : (kvs : Items) → batch_rounds kvs ≤ length (write_batch kvs)
length-write_batch [] = omega arith
length-write_batch (kv ∷ []) =
    length-write_items 1 (kv ∷ []) (b's' ∷ b'.' ∷ []) (suc (suc zero)) (omega arith)
length-write_batch (kv ∷ kv' ∷ kvs) =
    omega (
      arith,
      length-write_items 1 (kv ∷ kv' ∷ kvs) (b'u' ∷ b'.' ∷ []) (suc (suc zero)) (omega arith),
    )

-- A flat record of fewer than 1000 items, which are texts, numbers below 256, truth values and None,
-- pickled as Python's protocol 2 does where no text object comes twice, is read back as a dict with
-- exactly its items; given that keys and texts have at most 2^20 bytes.
pub unpickle-pickle :
    (go : Floats) (kvs : Items)
    → IsRecord kvs
    → unpickle go (pickle kvs) ≡ some (dict 0, put_items kvs [] ∷ [])
unfolding unpickle
unpickle-pickle go kvs h =
    let enough : all_rounds kvs ≤ length (pickle kvs) = omega (arith, length-write_batch kvs) in
    let e : length (pickle kvs) ≡ all_rounds kvs + (length (pickle kvs) - all_rounds kvs) =
      omega (arith, enough) in
    ap (λ n. run go n (pickle kvs) new_machine) e
    ∙ run_more go (all_rounds kvs) (length (pickle kvs) - all_rounds kvs) (pickle kvs) new_machine
        (run-pickle go kvs h.1)
