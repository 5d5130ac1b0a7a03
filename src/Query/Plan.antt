-- ===== src/Query/Plan.antt =====
-- internal/query/plan.go: the plan, its parsing from URL parameters, and its test of one entry.
pub mod Filter
pub mod Limits
use logdoc.Common.{
  ℕ, zero, suc, ◌-◌, Bool, true, false, not, ◌&&◌, ◌||◌, Option, none, some, List, [], ◌∷◌, ◌++◌,
  Result, ok, err, ◌>>=◌, leb, ltb, ◌==◌, if◌then◌else◌, is_null,
}
use logdoc.Common.Int.{ℤ, pos, negsuc}
use logdoc.Common.Decimal.{atoi}
use logdoc.Common.Text.{Text, bytes, is_empty, text_eq, text_Eq, contains, cut_prefix, reverse_text}
use logdoc.Common.Map.{lookup, insert}
use logdoc.Common.Platform.{Platform}
use logdoc.Model.{Level, Time, Fields, Entry, parse_level, default_tenant}

abbrev default_limit : ℕ
default_limit = 100

abbrev pub max_limit : ℕ
max_limit = 10000

pub record Plan : Type 0 where
  pub tenant_id : Text
  pub apps : List Text
  pub srcs : List Text
  pub levels : List Level
  pub from : Option Time
  pub to : Option Time
  pub field_eq : Fields
  pub search : Text
  pub limit : ℕ

-- url.Values
abbrev pub Values : Type 0
Values = List (Text × List Text)

pub data PlanError : Type 0 where
  bad_from bad_to bad_limit : PlanError

unfoldable pub all_values : Text → Values → List Text
all_values k vs = elim (lookup k vs) [ none ↦ [] | some l ↦ l ]

abbrev head_or_empty : List Text → Text
head_or_empty [] = []
head_or_empty (v ∷ vs) = v

-- `values.Get`
unfoldable pub get_value : Text → Values → Text
unfolding all_values
get_value k vs = head_or_empty (all_values k vs)

-- strings.Split(s, ","): `part` is the reversed piece that is being read.
unfoldable pub split_commas : Text → Text → List Text
split_commas part [] = reverse_text part ∷ []
split_commas part (c ∷ s) =
    let cut = reverse_text part ∷ split_commas [] s in
    let more = split_commas (c ∷ part) s in if c == b',' then cut else more

-- A single digit 0 to 6, or a level name.
unfoldable pub level_of : Text → Level
level_of [] = parse_level []
level_of (c ∷ (d ∷ s)) = parse_level (c ∷ (d ∷ s))
level_of (c ∷ []) = if leb b'0' c && leb c b'6' then c - b'0' else parse_level (c ∷ [])

pub contains_text : List Text → Text → Bool
contains_text [] s = false
contains_text (v ∷ list) s = text_eq v s || contains_text list s

pub contains_level : List Level → Level → Bool
contains_level [] l = false
contains_level (m ∷ ms) l = l == m || contains_level ms l

-- `fields[k]`, which is empty for a missing key.
unfoldable pub field : Text → Fields → Text
field k fs = elim (lookup k fs) [ none ↦ [] | some v ↦ v ]

pub fields_match : Fields → Fields → Bool
fields_match [] fs = true
fields_match ((k, v) ∷ rest) fs = text_eq (field k fs) v && fields_match rest fs

abbrev field_value : Text → List Text → Fields → Fields
field_value [] vals acc = acc
field_value (c ∷ name) [] acc = acc
field_value (c ∷ name) (v ∷ vals) acc = insert (c ∷ name) v acc

-- The `field.` parameters, with their first values.
unfoldable pub field_filters : Values → Fields → Fields
field_filters [] acc = acc
field_filters ((key, vals) ∷ rest) acc =
    field_filters rest (elim (cut_prefix (bytes "field.") key) [
      | none ↦ acc
      | some name ↦ field_value name vals acc
    ])

abbrev positive_limit : Option ℤ → Result PlanError ℕ
positive_limit none = err bad_limit
positive_limit (some (pos zero)) = err bad_limit
positive_limit (some (pos (suc n))) = ok (suc n)
positive_limit (some (negsuc n)) = err bad_limit

unfoldable pub limit_of : Text → Result PlanError ℕ
limit_of [] = ok default_limit
limit_of (c ∷ s) = positive_limit (atoi (c ∷ s))

unfoldable pub cap_limit : ℕ → ℕ
cap_limit n = if ltb max_limit n then max_limit else n

module _ (go : Platform) where
  open go use {to_lower, trim_space, parse_rfc3339}

  unfoldable pub levels_of_parts : List Text → List Level
  unfolding level_of
  levels_of_parts [] = []
  levels_of_parts (part ∷ parts) =
      let rest = levels_of_parts parts in
      if is_empty (trim_space part) then rest else level_of (trim_space part) ∷ rest

  unfoldable pub levels_of : List Text → List Level
  unfolding levels_of_parts split_commas
  levels_of [] = []
  levels_of (raw ∷ raws) = levels_of_parts (split_commas [] raw) ++ levels_of raws

  abbrev required_time : PlanError → Option Time → Result PlanError (Option Time)
  required_time e none = err e
  required_time e (some t) = ok (some t)

  -- `parseTime`
  unfoldable pub parse_time : PlanError → Text → Result PlanError (Option Time)
  parse_time e [] = ok none
  parse_time e (c ∷ s) = required_time e (parse_rfc3339 (c ∷ s))

  -- `ParsePlan`
  unfoldable pub parse_plan : Values → Result PlanError Plan
  parse_plan values = do
    from ← parse_time bad_from (get_value (bytes "from") values)
    to ← parse_time bad_to (get_value (bytes "to") values)
    limit ← limit_of (get_value (bytes "limit") values)
    ok (record {
      tenant_id = default_tenant;
      apps = all_values (bytes "app") values;
      srcs = all_values (bytes "src") values;
      levels = levels_of (all_values (bytes "lvl") values);
      from = from;
      to = to;
      field_eq = field_filters values [];
      search = get_value (bytes "q") values;
      limit = cap_limit limit;
    })

  -- `Matches`
  unfoldable pub matches : Plan → Entry → Bool
  unfolding contains_text contains_level fields_match
  matches p e =
      if not (is_empty p.tenant_id) && not (text_eq e.tenant_id p.tenant_id)
      then false
      else if not (is_null p.apps) && not (contains_text p.apps e.app)
      then false
      else if not (is_null p.srcs) && not (contains_text p.srcs e.src)
      then false
      else if not (is_null p.levels) && not (contains_level p.levels e.lvl)
      then false
      else if not (fields_match p.field_eq e.fields)
      then false
      else not (not (is_empty p.search) && not (contains (to_lower e.msg) (to_lower p.search)))
