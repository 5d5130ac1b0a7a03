-- ===== src/Ingest/Syslog/Structured.antt =====
-- internal/ingest/syslog.go: the structured data of RFC 5424, `parseSD`.
pub mod Rendered
use logdoc.Common.{
  ℕ, zero, suc, Bool, true, false, ◌||◌, Option, none, some, List, [], ◌∷◌, ◌++◌, ◌==◌,
  if◌then◌else◌, length,
}
use logdoc.Common.Text.{Text, bytes, text_Eq}
use logdoc.Common.Map.{insert}
use logdoc.Model.{Fields}
use logdoc.Ingest.Bytes.{cut_at, trim_left}

-- strings.IndexAny(_, " ]"), as the bytes before the place and those from it on.
unfoldable pub split_id : Text → Option (Text × Text)
split_id [] = none
split_id (c ∷ s) = elim (c == b' ' || c == b']') [
  | true ↦ some ([], c ∷ s)
  | false ↦ elim (split_id s) [ none ↦ none | some p ↦ some (c ∷ p.0, p.1) ]
]

-- The loop over a quoted value: what stands in it, and what follows the closing quote. A backslash
-- stands for the byte behind it, unless it is the last byte.
unfoldable pub scan_value : Text → Text × Text
scan_value [] = ([], [])
scan_value (c ∷ []) = elim (c == b'"') [ true ↦ ([], []) | false ↦ (c ∷ [], []) ]
scan_value (c ∷ d ∷ s) = elim (c == b'\\') [
  | true ↦ let r = scan_value s in (d ∷ r.0, r.1)
  | false ↦ elim (c == b'"') [
    | true ↦ ([], d ∷ s)
    | false ↦ let r = scan_value (d ∷ s) in (c ∷ r.0, r.1)
  ]
]

-- A malformed parameter: to the end of the element.
unfoldable pub skip_element : Text → Text
skip_element s = elim (cut_at b']' s) [ none ↦ [] | some p ↦ p.1 ]

-- The name of a field: "<id>.<key>".
unfoldable pub param_name : Text → Text → Text
param_name id key = id ++ (b'.' ∷ key)

-- The inner loop, over the parameters of an element, on fuel. Where the text ends the function
-- returns, and so does the outer loop below on the empty text.
unfoldable pub read_params : ℕ → Text → Text → Fields → Text × Fields
unfolding param_name skip_element
read_params zero id s fields = (s, fields)
read_params (suc n) id s fields = elim (trim_left b' ' s) [
  | [] ↦ ([], fields)
  | c ∷ t ↦ elim (c == b']') [
    | true ↦ (t, fields)
    | false ↦ elim (cut_at b'=' (c ∷ t)) [
      | none ↦ (skip_element (c ∷ t), fields)
      | some p ↦ elim (p.1) [
        | [] ↦ (skip_element (c ∷ t), fields)
        | q ∷ u ↦ elim (q == b'"') [
          | false ↦ (skip_element (c ∷ t), fields)
          | true ↦
              let v = scan_value u in read_params n id v.1 (insert (param_name id p.0) v.0 fields)
        ]
      ]
    ]
  ]
]

-- The outer loop, over the elements, on fuel.
unfoldable pub read_elements : ℕ → Text → Fields → Text × Fields
read_elements zero s fields = (s, fields)
read_elements (suc n) [] fields = ([], fields)
read_elements (suc n) (c ∷ s) fields = elim (c == b'[') [
  | false ↦ (c ∷ s, fields)
  | true ↦ elim (split_id s) [
    | none ↦ (s, fields)
    | some p ↦ let r = read_params (length p.1) p.0 p.1 fields in read_elements n r.0 r.1
  ]
]

-- Each round takes a byte at least, so the length of the text is fuel enough.
unfoldable pub parse_sd : Text → Fields → Text × Fields
parse_sd s fields = read_elements (length s) s fields
