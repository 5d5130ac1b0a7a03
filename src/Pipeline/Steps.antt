-- ===== src/Pipeline/Steps.antt =====
-- internal/pipeline/steps.go: what one step makes of an entry.
pub mod Cap
use logdoc.Common.{
  ℕ, ◌+◌, ◌≡◌, Bool, true, false, not, ◌&&◌, ◌||◌, Option, none, some, List, [], ◌∷◌, ◌++◌, Result,
  ok, err, ◌>>=◌, ltb, leb, if◌then◌else◌, ◌==◌, length, is_null,
}
use logdoc.Common.Text.{Text, bytes, is_empty, text_eq, text_Eq, has_prefix, contains}
use logdoc.Common.Map.{lookup, insert}
use logdoc.Common.Platform.{Platform}
use logdoc.Model.{Level, Fields, Entry}
use logdoc.Pipeline.Names.{parse_level_strict, parse_level_loose}

-- A decoded JSON value, with numbers as their texts.
mutual
  pub data Json : Type 0 where
    null : Json
    string number : Text → Json
    bool : Bool → Json
    object : Members → Json
    array : Elements → Json

  pub data Members : Type 0 where
    no_member : Members
    member : Text → Json → Members → Members

  pub data Elements : Type 0 where
    no_element : Elements
    element : Json → Elements → Elements

-- What the steps take from `regexp` and `encoding/json`. The members of an object come in the order
-- in which Go's loop over the map meets them.
pub record Tools (go : Platform) : Type 0 where
  -- (*Regexp).SubexpNames
  pub subexp_names : go.Re → List Text
  -- (*Regexp).FindStringSubmatch, none for no match; as many texts as there are names
  pub find_submatch : go.Re → Text → Option (List Text)
  -- (*Decoder).Decode of an object, none for an error
  pub decode : Text → Option Members
  -- json.Marshal
  pub marshal : Json → Text

pub record SeverityRule : Type 0 where
  pub equals : Text
  pub prefix : Text
  pub contains : Text
  pub lvl : Text

pub record SetStep : Type 0 where
  pub app : Text
  pub src : Text
  pub pid : Text
  pub msg : Text
  pub lvl : Text
  pub fields : Fields

pub data StepError : Type 0 where
  no_source unknown_level nothing_to_set : StepError

-- `e.Fields[k]`, which is empty for a missing key.
abbrev pub field : Text → Fields → Text
field k fs = elim (lookup k fs) [ none ↦ [] | some v ↦ v ]

-- `input`
unfoldable pub input : Entry → Text → Text
input e from = if is_empty from || text_eq from (bytes "msg") then e.msg else field from e.fields

-- The loop of `patternStep` over the names and what they captured.
unfoldable pub store_captures : List Text → List Text → Fields → Fields
store_captures [] values fields = fields
store_captures (n ∷ names) [] fields = fields
store_captures (n ∷ names) (v ∷ values) fields =
    store_captures names values
      (if not (is_empty n) && not (is_empty v) then insert n v fields else fields)

abbrev pub max_json_fields : ℕ
max_json_fields = 100

-- `resolve`
abbrev field_value : Text → Option Text
field_value [] = none
field_value (c ∷ s) = some (c ∷ s)

abbrev reference : Text → Entry → Option Text
reference [] e = field_value (field [] e.fields)
reference (c ∷ s) e = if c == b'$' then some (c ∷ s) else field_value (field (c ∷ s) e.fields)

unfoldable pub resolve : Text → Entry → Option Text
resolve [] e = some []
resolve (c ∷ s) e = if c == b'$' then reference s e else some (c ∷ s)

-- A value that is not set, or does not resolve, leaves the attribute as it is.
abbrev assigned : Text → Text → Entry → Text
assigned old [] e = old
assigned old (c ∷ s) e = elim (resolve (c ∷ s) e) [ none ↦ old | some v ↦ v ]

-- The level that a set step assigns.
abbrev pub loose_or : Level → Option Text → Level
loose_or old none = old
loose_or old (some v) = elim (parse_level_loose v) [ none ↦ old | some l ↦ l ]

abbrev pub assigned_level : Level → Text → Entry → Level
assigned_level old [] e = old
assigned_level old (c ∷ s) e = loose_or old (resolve (c ∷ s) e)

-- The fields of a set step, in the order in which Go's loop over the map meets them; each value
-- sees the fields that were set before it.
unfoldable pub set_fields : Fields → Entry → Entry
set_fields [] e = e
set_fields ((k, spec) ∷ rest) e =
    set_fields rest
      (elim (resolve spec e) [ none ↦ e | some v ↦ record e { fields = insert k v e.fields } ])

-- The function that `setStep` returns.
unfoldable pub run_set : SetStep → Entry → Entry
run_set s e =
    let e₁ = record e { app = assigned e.app s.app e } in
    let e₂ = record e₁ { src = assigned e₁.src s.src e₁ } in
    let e₃ = record e₂ { pid = assigned e₂.pid s.pid e₂ } in
    let e₄ = record e₃ { msg = assigned e₃.msg s.msg e₃ } in
    let e₅ = record e₄ { lvl = assigned_level e₄.lvl s.lvl e₄ } in set_fields s.fields e₅

abbrev literal_level_ok : Text → Bool
literal_level_ok [] = true
literal_level_ok (c ∷ s) =
    if c == b'$' then true else elim (parse_level_strict (c ∷ s)) [ none ↦ false | some l ↦ true ]

-- `setStep`: the tests before it returns its function.
unfoldable pub compile_set : SetStep → Result StepError SetStep
compile_set s =
    if not (literal_level_ok s.lvl)
    then err unknown_level
    else if is_empty s.app
        && (is_empty s.src
            && (is_empty s.pid && (is_empty s.msg && (is_empty s.lvl && is_null s.fields))))
    then err nothing_to_set
    else ok s

-- The rules of `severityStep` with their levels.
unfoldable pub compile_rules : List SeverityRule → Result StepError (List (SeverityRule × Level))
compile_rules [] = ok []
compile_rules (r ∷ rs) = elim (parse_level_strict r.lvl) [
  | none ↦ err unknown_level
  | some l ↦ compile_rules rs >>= λ rest. ok ((r, l) ∷ rest)
]

-- `severityStep`: the tests before it returns its function.
unfoldable pub compile_severity :
    Text → List SeverityRule → Result StepError (List (SeverityRule × Level))
compile_severity from rules = if is_empty from then err no_source else compile_rules rules

abbrev rule_applies : SeverityRule → Text → Bool
rule_applies r v =
    if not (is_empty r.equals) && not (text_eq v r.equals)
    then false
    else if not (is_empty r.prefix) && not (has_prefix v r.prefix)
    then false
    else not (not (is_empty r.contains) && not (contains v r.contains))

-- The level of the first rule that applies.
unfoldable pub first_rule : List (SeverityRule × Level) → Text → Level → Level
first_rule [] v old = old
first_rule ((r, l) ∷ rs) v old = if rule_applies r v then l else first_rule rs v old

abbrev pub severity_of : List (SeverityRule × Level) → Text → Level → Level
severity_of [] v old = loose_or old (some v)
severity_of (r ∷ rs) v old = first_rule (r ∷ rs) v old

-- The function that `severityStep` returns.
unfoldable pub run_severity : Text → List (SeverityRule × Level) → Entry → Entry
run_severity from rules e =
    if is_empty (input e from) then e else record e { lvl = severity_of rules (input e from) e.lvl }

-- One field, unless there are too many.
pub put : Text → Text → Fields → Fields
put key s out = if leb max_json_fields (length out) then out else insert key s out

abbrev pub is_msg : Text → Bool
is_msg k = text_eq k (bytes "msg") || text_eq k (bytes "message")

abbrev pub is_level_key : Text → Bool
is_level_key k =
    text_eq k (bytes "level") || (text_eq k (bytes "lvl") || text_eq k (bytes "severity"))

module _ {go : Platform} (tools : Tools go) where
  -- The function that `patternStep` returns.
  unfoldable pub run_pattern : go.Re → Text → Entry → Entry
  run_pattern re from e =
      if is_empty (input e from) then e else elim (tools.find_submatch re (input e from)) [
        | none ↦ e
        | some values ↦ record e { fields = store_captures (tools.subexp_names re) values e.fields }
      ]

  unfoldable mutual
    -- `flatten`
    pub flatten : Text → Json → Fields → ℕ → Fields
    flatten key null out depth = out
    flatten key (string s) out depth = put key s out
    flatten key (number s) out depth = put key s out
    flatten key (bool b) out depth = put key (if b then bytes "true" else bytes "false") out
    flatten key (array es) out depth = put key (tools.marshal (array es)) out
    flatten key (object ms) out depth =
        let deeper = flatten_members key ms out (depth + 1) in
        if leb max_json_fields (length out)
        then out
        else if leb 3 depth
        then put key (tools.marshal (object ms)) out
        else deeper

    pub flatten_members : Text → Members → Fields → ℕ → Fields
    flatten_members key no_member out depth = out
    flatten_members key (member k v ms) out depth =
        flatten_members key ms (flatten (key ++ (b'.' ∷ k)) v out depth) depth

  abbrev flattened : Text → Json → Entry → Entry
  flattened k v e = record e { fields = flatten k v e.fields 1 }

  -- One member of the decoded object.
  unfoldable pub json_member : Text → Json → Entry → Entry
  json_member k (string s) e =
      if is_msg k
      then record e { msg = s }
      else if is_level_key k
      then elim (parse_level_loose s) [
        | none ↦ flattened k (string s) e
        | some l ↦ record e { lvl = l }
      ]
      else flattened k (string s) e
  json_member k v e = flattened k v e

  unfoldable pub json_members : Members → Entry → Entry
  json_members no_member e = e
  json_members (member k v ms) e = json_members ms (json_member k v e)

  abbrev pub decoded : Option Members → Entry → Entry
  decoded none e = e
  decoded (some ms) e = json_members ms e

  -- The function that `jsonStep` returns.
  unfoldable pub run_json : Text → Entry → Entry
  run_json from e =
      let in' = go.trim_space (input e from) in
      if ltb (length in') 2 || not (has_prefix in' (bytes "{"))
      then e
      else decoded (tools.decode in') e
