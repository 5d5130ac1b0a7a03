-- ===== src/Ingest/Syslog/Structured/Rendered.antt =====
-- internal/ingest/syslog.go: `parseSD` on structured data as RFC 5424 writes it.
use mathlib.Core.List.{append_assoc}
use logdoc.Common.{
  ℕ, zero, suc, ◌≡◌, ◌≤◌, ◌<◌, ◌||◌, Bool, true, false, some, List, [], ◌∷◌, ◌++◌, refl, ◌∙◌, ap,
  arith, length, length-append, All, ◌==◌, Bool-cases, inl, inr, if◌then◌else◌,
}
use logdoc.Common.Text.{Text, has_byte, text_Eq}
use logdoc.Common.Map.{insert}
use logdoc.Model.{Fields}
use logdoc.Ingest.Bytes.{cut_at-append, trim_left}
use logdoc.Ingest.Syslog.Structured.{
  split_id, scan_value, param_name, read_params, read_elements, parse_sd,
}

-- Quotes, backslashes and closing brackets stand behind a backslash.
abbrev pub is_special : ℕ → Bool
is_special c = c == b'"' || (c == b'\\' || c == b']')

abbrev pub escape : Text → Text
escape [] = []
escape (c ∷ v) = let rest = escape v in if is_special c then b'\\' ∷ c ∷ rest else c ∷ rest

-- A parameter, a name and a value; an element, an id and its parameters.
abbrev pub Params : Type 0
Params = List (Text × Text)

abbrev pub render_params : Params → Text
render_params [] = []
render_params ((k, v) ∷ ps) = b' ' ∷ (k ++ (b'=' ∷ b'"' ∷ (escape v ++ (b'"' ∷ render_params ps))))

abbrev pub render_elements : List (Text × Params) → Text
render_elements [] = []
render_elements ((id, ps) ∷ els) = b'[' ∷ (id ++ (render_params ps ++ (b']' ∷ render_elements els)))

-- The fields that the parameters make.
abbrev pub put_params : Text → Params → Fields → Fields
put_params id [] fields = fields
put_params id ((k, v) ∷ ps) fields = put_params id ps (insert (param_name id k) v fields)

abbrev pub put_elements : List (Text × Params) → Fields → Fields
put_elements [] fields = fields
put_elements ((id, ps) ∷ els) fields = put_elements els (put_params id ps fields)

-- A parameter's name is not empty, holds no '=', and starts with neither a space nor ']'.
abbrev pub IsName : Text → Type 0
IsName [] = ⊥
IsName (c ∷ k) = (has_byte b'=' (c ∷ k) ≡ false) × ((c == b' ' || c == b']') ≡ false)

-- An id holds neither a space nor ']'.
abbrev pub IsElement : Text × Params → Type 0
IsElement (id, ps) =
    (has_byte b' ' id ≡ false)
    × (has_byte b']' id ≡ false)
    × All (λ (p : Text × Text). IsName p.0) ps

scan_plain :
    (c : ℕ) (s : Text)
    → is_special c ≡ false
    → scan_value (c ∷ s) ≡ (c ∷ (scan_value s).0, (scan_value s).1)
unfolding scan_value
scan_plain c [] h = ground arith
scan_plain c (d ∷ s) h = ground arith

scan_value-quote : (v t : Text) → scan_value (escape v ++ (b'"' ∷ t)) ≡ (v, t)
unfolding scan_value
scan_value-quote [] [] = refl
scan_value-quote [] (d ∷ t) = refl
scan_value-quote (c ∷ v) t = elim (Bool-cases (is_special c)) [
  | inl e ↦ rw e (ap (λ (r : Text × Text). (c ∷ r.0, r.1)) (scan_value-quote v t))
  | inr e ↦ rw e (
      scan_plain c (escape v ++ (b'"' ∷ t)) e
      ∙ ap (λ (r : Text × Text). (c ∷ r.0, r.1)) (scan_value-quote v t))
]

split_id_at :
    (id t : Text) (c : ℕ)
    → has_byte b' ' id ≡ false
    → has_byte b']' id ≡ false
    → (c == b' ' || c == b']') ≡ true
    → split_id (id ++ (c ∷ t)) ≡ some (id, c ∷ t)
unfolding split_id has_byte
split_id_at [] t c h k e = ground arith
split_id_at (a ∷ id) t c h k e = ground (arith, split_id_at id t c)

-- One round of the inner loop.
read_params_step :
    (n : ℕ) (id k v t : Text) (fields : Fields)
    → IsName k
    → read_params (suc n) id (b' ' ∷ (k ++ (b'=' ∷ b'"' ∷ (escape v ++ (b'"' ∷ t))))) fields
      ≡ read_params n id t (insert (param_name id k) v fields)
unfolding read_params trim_left
read_params_step n id [] v t fields h = absurd h
read_params_step n id (c ∷ k) v t fields h =
    ground (
      arith,
      cut_at-append b'=' (c ∷ k) (b'"' ∷ (escape v ++ (b'"' ∷ t))) h.0,
      scan_value-quote v t,
    )

param_append :
    (k v r t : Text)
    → (k ++ (b'=' ∷ b'"' ∷ (escape v ++ (b'"' ∷ r)))) ++ t
      ≡ k ++ (b'=' ∷ b'"' ∷ (escape v ++ (b'"' ∷ (r ++ t))))
param_append k v r t =
    append_assoc k (b'=' ∷ b'"' ∷ (escape v ++ (b'"' ∷ r))) t
    ∙ ap (λ u. k ++ (b'=' ∷ b'"' ∷ u)) (append_assoc (escape v) (b'"' ∷ r) t)

read_params-render_params :
    (ps : Params) (n : ℕ) (id t : Text) (fields : Fields)
    → All (λ (p : Text × Text). IsName p.0) ps
    → length ps < n
    → read_params n id (render_params ps ++ (b']' ∷ t)) fields ≡ (t, put_params id ps fields)
read_params-render_params ps zero id t fields h e = absurd (omega arith)
read_params-render_params [] (suc n) id t fields h e =
    unfold read_params in unfold trim_left in refl
read_params-render_params ((k, v) ∷ ps) (suc n) id t fields h e =
    ap (λ s. read_params (suc n) id (b' ' ∷ s) fields)
      (param_append k v (render_params ps) (b']' ∷ t))
    ∙ read_params_step n id k v (render_params ps ++ (b']' ∷ t)) fields h.0
    ∙ read_params-render_params ps n id t (insert (param_name id k) v fields) h.1 (omega arith)

length-render_params : (ps : Params) → length ps ≤ length (render_params ps)
length-render_params [] = omega arith
length-render_params ((k, v) ∷ ps) = omega (
  arith,
  length-append k (b'=' ∷ b'"' ∷ (escape v ++ (b'"' ∷ render_params ps))),
  length-append (escape v) (b'"' ∷ render_params ps),
  length-render_params ps,
)

split_id-params :
    (id : Text) (ps : Params) (t : Text)
    → has_byte b' ' id ≡ false
    → has_byte b']' id ≡ false
    → split_id (id ++ (render_params ps ++ (b']' ∷ t))) ≡ some (id, render_params ps ++ (b']' ∷ t))
split_id-params id [] t h k = split_id_at id t b']' h k refl
split_id-params id ((p, v) ∷ ps) t h k =
    split_id_at id ((p ++ (b'=' ∷ b'"' ∷ (escape v ++ (b'"' ∷ render_params ps)))) ++ (b']' ∷ t))
      b' ' h k refl

read_elements_step :
    (n : ℕ) (s t : Text) (fields : Fields) {id w : Text} {fields₁ : Fields}
    → split_id s ≡ some (id, w)
    → read_params (length w) id w fields ≡ (t, fields₁)
    → read_elements (suc n) (b'[' ∷ s) fields ≡ read_elements n t fields₁
unfolding read_elements
read_elements_step n s t fields {id} {w} {fields₁} e r =
    rw (read_elements, e) (ap (λ (q : Text × Fields). read_elements n q.0 q.1) r)

element_append :
    (id : Text) (ps : Params) (r t : Text)
    → (id ++ (render_params ps ++ (b']' ∷ r))) ++ t ≡ id ++ (render_params ps ++ (b']' ∷ (r ++ t)))
element_append id ps r t =
    append_assoc id (render_params ps ++ (b']' ∷ r)) t
    ∙ ap (λ u. id ++ u) (append_assoc (render_params ps) (b']' ∷ r) t)

-- What starts the text behind the elements is not another one.
abbrev pub IsRest : Text → Type 0
IsRest [] = Unit
IsRest (c ∷ t) = (c == b'[') ≡ false

read_elements-render_elements :
    (els : List (Text × Params)) (n : ℕ) (t : Text) (fields : Fields)
    → All IsElement els
    → IsRest t
    → length (render_elements els ++ t) ≤ n
    → read_elements n (render_elements els ++ t) fields ≡ (t, put_elements els fields)
unfolding read_elements
read_elements-render_elements [] zero [] fields h r e = refl
read_elements-render_elements [] zero (c ∷ t) fields h r e = absurd (omega arith)
read_elements-render_elements ((id, ps) ∷ els) zero t fields h r e = absurd (omega arith)
read_elements-render_elements [] (suc n) [] fields h r e = refl
read_elements-render_elements [] (suc n) (c ∷ t) fields h r e = ground arith
read_elements-render_elements ((id, ps) ∷ els) (suc n) t fields h r e =
    let u = render_elements els ++ t in
    ap (λ s. read_elements (suc n) (b'[' ∷ s) fields) (element_append id ps (render_elements els) t)
    ∙ read_elements_step n (id ++ (render_params ps ++ (b']' ∷ u))) u fields
        (split_id-params id ps u h.0.0 h.0.1)
        (read_params-render_params ps (length (render_params ps ++ (b']' ∷ u))) id u fields h.0.2
          (omega (arith, length-append (render_params ps) (b']' ∷ u), length-render_params ps)))
    ∙ read_elements-render_elements els n t (put_params id ps fields) h.1 r (
        omega (
          arith,
          ap length (element_append id ps (render_elements els) t),
          length-append id (render_params ps ++ (b']' ∷ u)),
          length-append (render_params ps) (b']' ∷ u),
        ))

-- Structured data that is written as RFC 5424 says gives each parameter of each element as a field
-- "<id>.<name>" with its value unescaped, and leaves over what stands behind; given that the ids hold no
-- space and no ']', that the names are not empty, hold no '=' and start with neither a space nor
-- ']', and that what stands behind does not start with '['.
pub parse_sd-render_elements :
    (els : List (Text × Params)) (t : Text) (fields : Fields)
    → All IsElement els
    → IsRest t
    → parse_sd (render_elements els ++ t) fields ≡ (t, put_elements els fields)
unfolding parse_sd
parse_sd-render_elements els t fields h r =
    read_elements-render_elements els (length (render_elements els ++ t)) t fields h r (omega arith)
