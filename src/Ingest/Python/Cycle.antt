-- ===== src/Ingest/Python/Cycle.antt =====
-- internal/ingest/python.go: `pyString` on a dict that holds itself.
use logdoc.Common.{
  ℕ, zero, suc, ◌≡◌, some, List, [], ◌∷◌, ◌++◌, refl, ◌∙◌, ap, Result, ok, err, ◌>>=◌, arith,
  Bool-cases, inl, inr,
}
use logdoc.Common.Text.{Text, text_eq, text_Eq}
use logdoc.Common.Map.{lookup}
use logdoc.Ingest.Python.Memory.{Value, dict, Dict, Heap, get_dict}
use logdoc.Ingest.Python.Opcodes.{Floats}
use logdoc.Ingest.Python.Record.{NoEnd, no_end, py_string, pair_texts, enclose}

bind_no_end :
    {A B : Type 0} (m : Result NoEnd A) (f : A → Result NoEnd B)
    → ((a : A) → f a ≡ err no_end)
    → (m >>= f) ≡ err no_end
bind_no_end (err no_end) f h = refl
bind_no_end (ok a) f h = h a

-- One item that has no end is enough.
pair_texts-no_end :
    (text : Value → Result NoEnd Text) (kvs : Dict) (k : Text) {v : Value}
    → lookup k kvs ≡ some v
    → text v ≡ err no_end
    → pair_texts text kvs ≡ err no_end
unfolding lookup pair_texts
pair_texts-no_end text [] k {v} h e = absurd (cc h)
pair_texts-no_end text ((j, w) ∷ kvs) k {v} h e = elim (Bool-cases (text_eq j k)) [
  | inl same ↦
      let q : w ≡ v = ground arith in
      ap
        (λ (m : Result NoEnd Text).
          m >>= (λ t. pair_texts text kvs >>= (λ ts. ok ((j ++ (b'=' ∷ t)) ∷ ts))))
        (ap text q ∙ e)
  | inr other ↦
      bind_no_end (text w) (λ t. pair_texts text kvs >>= (λ ts. ok ((j ++ (b'=' ∷ t)) ∷ ts)))
        (λ t.
          ap (λ (m : Result NoEnd (List Text)). m >>= (λ ts. ok ((j ++ (b'=' ∷ t)) ∷ ts)))
            (pair_texts-no_end text kvs k {v = v} (rw other at h) e))
]

-- A dict that holds itself under some key is never rendered, however deep the recursion of pyString
-- may go: the recursion has no end.
pub py_string-cycle :
    (go : Floats) (fuel : ℕ) (heap : Heap) (r : ℕ) (k : Text)
    → lookup k (get_dict r heap) ≡ some (dict r)
    → py_string go fuel heap (dict r) ≡ err no_end
unfolding py_string
py_string-cycle go zero heap r k h = refl
py_string-cycle go (suc fuel) heap r k h =
    ap (λ (m : Result NoEnd (List Text)). m >>= (λ ts. ok (enclose b'{' ts b'}')))
      (pair_texts-no_end (λ v. py_string go fuel heap v) (get_dict r heap) k {v = dict r} h
        (py_string-cycle go fuel heap r k h))
