-- ===== src/Query/Tests.antt =====
-- internal/query/plan.go: the theorems about plans on concrete values.
use logdoc.Common.{◌≡◌, refl, none, [], ◌∷◌, ok}
use logdoc.Common.Text.{bytes, cut_prefix, text_eq}
use logdoc.Common.Map.{lookup, insert}
use logdoc.Samples.{plain}
use logdoc.Query.Plan.{
  Plan, Values, parse_plan, get_value, all_values, split_commas, level_of, levels_of_parts,
  levels_of, parse_time, limit_of, cap_limit, field_filters,
}
use logdoc.Query.Plan.Limits.{IsBounded, parse_plan-IsBounded}

-- ?app=shop&lvl=4&limit=20000&q=payment
abbrev values : Values
values =
    (bytes "app", bytes "shop" ∷ [])
    ∷ (bytes "lvl", bytes "4" ∷ [])
    ∷ (bytes "q", bytes "payment" ∷ [])
    ∷ (bytes "field.trace_id", bytes "t1" ∷ [])
    ∷ []

abbrev plan : Plan
plan = record {
  tenant_id = bytes "default";
  apps = bytes "shop" ∷ [];
  srcs = [];
  levels = 4 ∷ [];
  from = none;
  to = none;
  field_eq = (bytes "trace_id", bytes "t1") ∷ [];
  search = bytes "payment";
  limit = 100;
}

parsed : parse_plan plain values ≡ ok plan
unfolding parse_plan get_value all_values lookup text_eq parse_time limit_of cap_limit levels_of
    levels_of_parts split_commas level_of field_filters cut_prefix insert
parsed = refl

parse_plan-IsBounded_example : IsBounded plan
parse_plan-IsBounded_example = parse_plan-IsBounded plain values plan parsed
