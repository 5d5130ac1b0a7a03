-- ===== src/Ingest/Python/Progress.antt =====
-- internal/ingest/python.go: every opcode takes its byte, and none gives bytes back.
use logdoc.Common.{
  ℕ, zero, suc, ◌≡◌, ◌≤◌, ◌<◌, ◌+◌, Option, none, some, List, [], ◌∷◌, refl, ◌∙◌, ap, sym, arith,
  length, Option-cases, inl, inr,
}
use logdoc.Common.Text.{Text}
use logdoc.Ingest.Bytes.{cut_at, length-cut_at, read_full, length-read_full, little_endian}
use logdoc.Ingest.Python.Memory.{Value, Heap}
use logdoc.Ingest.Python.{
  Machine, Step, next, stop, fail, push_or_fail, line_op, bytes_op, sized_op, tuple_op,
  stack_or_fail, set_item_op, heap_or_fail, set_items_op, put_op, get_op, proto_op, stop_op,
}
use logdoc.Ingest.Python.Opcodes.{Floats, memo_op, collection_op, scalar_op, execute, run}

-- What an opcode leaves over.
abbrev pub left : Step → ℕ
left (next t m) = length t
left (stop v heap) = 0
left fail = 0

left-line_op :
    (read : Text → Option Value) (s : Text) (m : Machine) → left (line_op read s m) ≤ length s
unfolding line_op push_or_fail
left-line_op read s m = elim (Option-cases (cut_at b'\n' s)) [
  | inl e ↦ ground arith
  | inr (p, e) ↦ ground (arith, length-cut_at b'\n' s {p = p} e)
]

left-bytes_op :
    (n : ℕ) (read : Text → Value) (s : Text) (m : Machine) → left (bytes_op n read s m) ≤ length s
unfolding bytes_op
left-bytes_op n read s m = elim (Option-cases (read_full n s)) [
  | inl e ↦ ground arith
  | inr (p, e) ↦ ground (arith, length-read_full n s {p = p} e)
]

left-sized_op :
    (n limit : ℕ) (read : ℕ → Text → Value) (s : Text) (m : Machine)
    → left (sized_op n limit read s m) ≤ length s
unfolding sized_op
left-sized_op n limit read s m = elim (Option-cases (read_full n s)) [
  | inl e ↦ ground arith
  | inr (p, e) ↦ ground (
    arith,
    length-read_full n s {p = p} e,
    left-bytes_op (little_endian p.0) (read (little_endian p.0)) p.1 m,
  )
]

left-put_op : (n : ℕ) (s : Text) (m : Machine) → left (put_op n s m) ≤ length s
unfolding put_op
left-put_op n s m = elim (Option-cases (read_full n s)) [
  | inl e ↦ ground arith
  | inr (p, e) ↦ ground (arith, length-read_full n s {p = p} e)
]

left-get_op : (n : ℕ) (s : Text) (m : Machine) → left (get_op n s m) ≤ length s
unfolding get_op
left-get_op n s m = elim (Option-cases (read_full n s)) [
  | inl e ↦ ground arith
  | inr (p, e) ↦ ground (arith, length-read_full n s {p = p} e)
]

left-stack_or_fail :
    (stack : Option (List Value)) (s : Text) (m : Machine)
    → left (stack_or_fail stack s m) ≤ length s
unfolding stack_or_fail
left-stack_or_fail none s m = omega arith
left-stack_or_fail (some stack) s m = omega arith

left-heap_or_fail :
    (heap : Option Heap) (stack : List Value) (s : Text) (m : Machine)
    → left (heap_or_fail heap stack s m) ≤ length s
unfolding heap_or_fail
left-heap_or_fail none stack s m = omega arith
left-heap_or_fail (some heap) stack s m = omega arith

left-tuple_op : (s : Text) (m : Machine) → left (tuple_op s m) ≤ length s
unfolding tuple_op
left-tuple_op s m = ground arith

left-set_item_op :
    (s : Text) (m : Machine) (stack : List Value) → left (set_item_op s m stack) ≤ length s
unfolding set_item_op
left-set_item_op s m [] = omega arith
left-set_item_op s m (v ∷ []) = omega arith
left-set_item_op s m (v ∷ k ∷ stack) = left-heap_or_fail _ stack s m

left-set_items_op : (s : Text) (m : Machine) → left (set_items_op s m) ≤ length s
unfolding set_items_op
left-set_items_op s m = grind (arith, left-heap_or_fail)

left-proto_op : (s : Text) (m : Machine) → left (proto_op s m) ≤ length s
unfolding proto_op
left-proto_op [] m = omega arith
left-proto_op (c ∷ s) m = omega arith

left-stop_op : (stack : List Value) (heap : Heap) (n : ℕ) → left (stop_op stack heap) ≤ n
unfolding stop_op
left-stop_op stack heap n = ground arith

left-memo_op : (op : ℕ) (s : Text) (m : Machine) → left (memo_op op s m) ≤ length s
unfolding memo_op
left-memo_op op s m =
    ground (arith, left-put_op 1 s m, left-put_op 4 s m, left-get_op 1 s m, left-get_op 4 s m)

left-collection_op : (op : ℕ) (s : Text) (m : Machine) → left (collection_op op s m) ≤ length s
unfolding collection_op
left-collection_op op s m = grind (
  arith,
  left-memo_op op s m,
  left-tuple_op s m,
  left-stack_or_fail,
  left-set_item_op s m,
  left-set_items_op s m,
)

left-scalar_op :
    (go : Floats) (op : ℕ) (s : Text) (m : Machine) → left (scalar_op go op s m) ≤ length s
unfolding scalar_op
left-scalar_op go op s m =
    grind (arith, left-line_op, left-bytes_op, left-sized_op, left-collection_op op s m)

left-execute : (go : Floats) (op : ℕ) (s : Text) (m : Machine) → left (execute go op s m) ≤ length s
unfolding execute
left-execute go op s m =
    ground
      (arith, left-proto_op s m, left-stop_op m.stack m.heap (length s), left-scalar_op go op s m)

step_enough :
    (go : Floats) (n k : ℕ) (s : Text) (m : Machine)
    → ((t : Text) (m₁ : Machine) → length t < length s → run go (n + k) t m₁ ≡ run go n t m₁)
    → run go (suc (n + k)) s m ≡ run go (suc n) s m
unfolding run
step_enough go n k [] m ih = refl
step_enough go n k (op ∷ s) m ih = grind (arith, ih, left-execute go op s m)

run_nothing : (go : Floats) (n : ℕ) (m : Machine) → run go n [] m ≡ none
unfolding run
run_nothing go zero m = refl
run_nothing go (suc n) m = refl

-- The machine has come to an end after as many rounds as the frame has bytes: further rounds would
-- change nothing, whatever the bytes are.
pub run_enough :
    (go : Floats) (n k : ℕ) (s : Text) (m : Machine)
    → length s ≤ n
    → run go (n + k) s m ≡ run go n s m
run_enough go zero k [] m h = run_nothing go (0 + k) m ∙ sym (run_nothing go 0 m)
run_enough go zero k (c ∷ s) m h = absurd (omega arith)
run_enough go (suc n) k s m h =
    let e : suc n + k ≡ suc (n + k) = omega arith in
    ap (λ i. run go i s m) e
    ∙ step_enough go n k s m (λ t m₁ b. run_enough go n k t m₁ (omega (arith, b, h)))
