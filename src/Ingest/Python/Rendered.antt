-- ===== src/Ingest/Python/Rendered.antt =====
-- internal/ingest/python.go: `pyString` on values without a cycle.
use logdoc.Common.{
  ℕ, zero, suc, ◌≡◌, ◌≤◌, ◌<◌, max, List, [], ◌∷◌, ◌++◌, refl, ◌∙◌, ap, Result, ok, ◌>>=◌, arith,
  All,
}
use logdoc.Common.Text.{Text}
use logdoc.Ingest.Python.Memory.{
  Value, null, mark, boolean, integer, float, string, list, dict, Values, no_value, value,
  of_values, Dict, Heap, get_dict,
}
use logdoc.Ingest.Python.Opcodes.{Floats}
use logdoc.Ingest.Python.Record.{
  NoEnd, py_string, item_texts, pair_texts, enclose, int_text, bool_text,
}

-- How deep a value is, where a dict is as deep as its rank.
abbrev mutual
  pub depth : (ℕ → ℕ) → Value → ℕ
  depth rank null = 0
  depth rank mark = 0
  depth rank (boolean b) = 0
  depth rank (integer n) = 0
  depth rank (float f) = 0
  depth rank (string t) = 0
  depth rank (list vs) = suc (depths rank vs)
  depth rank (dict r) = rank r

  pub depths : (ℕ → ℕ) → Values → ℕ
  depths rank no_value = 0
  depths rank (value v vs) = max (depth rank v) (depths rank vs)

-- Ranks of the dicts such that what a dict holds is less deep than its own rank; there are such ranks
-- if no dict holds itself, at whatever depth.
abbrev pub IsRanked : (ℕ → ℕ) → Heap → Type 0
IsRanked rank heap =
    (r : ℕ) → All (λ (kv : Text × Value). depth rank kv.1 < rank r) (get_dict r heap)

abbrev pub IsOk : {A : Type 0} → Result NoEnd A → Type 0
IsOk {A} m = (a : A) × (m ≡ ok a)

bind-IsOk :
    {A B : Type 0} (m : Result NoEnd A) (f : A → Result NoEnd B)
    → IsOk m
    → ((a : A) → IsOk (f a))
    → IsOk (m >>= f)
bind-IsOk m f (a, e) h = ((h a).0, ap (λ r. r >>= f) e ∙ (h a).1)

item_texts-IsOk :
    (text : Value → Result NoEnd Text) (vs : List Value)
    → All (λ v. IsOk (text v)) vs
    → IsOk (item_texts text vs)
unfolding item_texts
item_texts-IsOk text [] h = ([], refl)
item_texts-IsOk text (v ∷ vs) h =
    bind-IsOk (text v) (λ t. item_texts text vs >>= (λ ts. ok (t ∷ ts))) h.0
      (λ t.
        bind-IsOk (item_texts text vs) (λ ts. ok (t ∷ ts)) (item_texts-IsOk text vs h.1)
          (λ ts. (t ∷ ts, refl)))

pair_texts-IsOk :
    (text : Value → Result NoEnd Text) (kvs : Dict)
    → All (λ (kv : Text × Value). IsOk (text kv.1)) kvs
    → IsOk (pair_texts text kvs)
unfolding pair_texts
pair_texts-IsOk text [] h = ([], refl)
pair_texts-IsOk text ((k, v) ∷ kvs) h =
    bind-IsOk (text v) (λ t. pair_texts text kvs >>= (λ ts. ok ((k ++ (b'=' ∷ t)) ∷ ts))) h.0
      (λ t.
        bind-IsOk (pair_texts text kvs) (λ ts. ok ((k ++ (b'=' ∷ t)) ∷ ts))
          (pair_texts-IsOk text kvs h.1) (λ ts. ((k ++ (b'=' ∷ t)) ∷ ts, refl)))

module _ (rank : ℕ → ℕ) (text : Value → Result NoEnd Text) (n : ℕ) where
  items-IsOk :
      (vs : Values)
      → ((v : Value) → depth rank v < n → IsOk (text v))
      → depths rank vs < n
      → All (λ v. IsOk (text v)) (of_values vs)
  unfolding of_values
  items-IsOk no_value ih h = tt
  items-IsOk (value v vs) ih h = (ih v (omega (arith, h)), items-IsOk vs ih (omega (arith, h)))

  pairs-IsOk :
      (kvs : Dict) (m : ℕ)
      → ((v : Value) → depth rank v < n → IsOk (text v))
      → m ≤ n
      → All (λ (kv : Text × Value). depth rank kv.1 < m) kvs
      → All (λ (kv : Text × Value). IsOk (text kv.1)) kvs
  pairs-IsOk [] m ih b h = tt
  pairs-IsOk ((k, v) ∷ kvs) m ih b h = (ih v (omega (arith, b, h.0)), pairs-IsOk kvs m ih b h.1)

-- A value in a heap without cycles is rendered: the recursion of pyString goes no deeper than the
-- value is, and comes to its end.
pub py_string-IsOk :
    (go : Floats) (rank : ℕ → ℕ) (heap : Heap) (fuel : ℕ) (v : Value)
    → IsRanked rank heap
    → depth rank v < fuel
    → IsOk (py_string go fuel heap v)
unfolding py_string
py_string-IsOk go rank heap zero v h b = absurd (omega (arith, b))
py_string-IsOk go rank heap (suc fuel) null h b = ([], refl)
py_string-IsOk go rank heap (suc fuel) mark h b = (b'{' ∷ b'}' ∷ [], refl)
py_string-IsOk go rank heap (suc fuel) (boolean x) h b = (bool_text x, refl)
py_string-IsOk go rank heap (suc fuel) (integer n) h b = (int_text n, refl)
py_string-IsOk go rank heap (suc fuel) (float f) h b = (go.format_float f, refl)
py_string-IsOk go rank heap (suc fuel) (string t) h b = (t, refl)
py_string-IsOk go rank heap (suc fuel) (list vs) h b =
    bind-IsOk (item_texts (λ v. py_string go fuel heap v) (of_values vs))
      (λ ts. ok (enclose b'[' ts b']'))
      (item_texts-IsOk (λ v. py_string go fuel heap v) (of_values vs)
        (items-IsOk rank (λ v. py_string go fuel heap v) fuel vs
          (λ v d. py_string-IsOk go rank heap fuel v h d) (omega (arith, b))))
      (λ ts. (enclose b'[' ts b']', refl))
py_string-IsOk go rank heap (suc fuel) (dict r) h b =
    bind-IsOk (pair_texts (λ v. py_string go fuel heap v) (get_dict r heap))
      (λ ts. ok (enclose b'{' ts b'}'))
      (pair_texts-IsOk (λ v. py_string go fuel heap v) (get_dict r heap)
        (pairs-IsOk rank (λ v. py_string go fuel heap v) fuel (get_dict r heap) (rank r)
          (λ v d. py_string-IsOk go rank heap fuel v h d) (omega (arith, b)) (h r)))
      (λ ts. (enclose b'{' ts b'}', refl))
