-- ===== src/Query/Plan/Limits.antt =====
-- internal/query/plan.go: what a parsed plan satisfies.
use logdoc.Common.{
  ℕ, ◌≡◌, ◌≤◌, ◌<◌, refl, List, [], ◌∷◌, ok, >>=-eq-ok, ok_eq, arith, All, All-append, Bool-cases,
  inl, inr, subst,
}
use logdoc.Common.Text.{Text, bytes, is_empty}
use logdoc.Common.Platform.{Platform}
use logdoc.Model.{default_tenant}
use logdoc.Model.Levels.{parse_level-le}
use logdoc.Query.Plan.{
  Plan, Values, bad_from, bad_to, max_limit, level_of, levels_of_parts, levels_of, parse_time,
  parse_plan, limit_of, cap_limit, get_value, split_commas,
}

level_of-le : (s : Text) → level_of s ≤ 6
unfolding level_of
level_of-le [] = parse_level-le []
level_of-le (c ∷ (d ∷ s)) = parse_level-le (c ∷ (d ∷ s))
level_of-le (c ∷ []) = ground (arith, parse_level-le (c ∷ []))

module _ (go : Platform) where
  levels_of_parts-le : (parts : List Text) → All (λ l. l ≤ 6) (levels_of_parts go parts)
  unfolding levels_of_parts
  levels_of_parts-le [] = tt
  levels_of_parts-le (part ∷ parts) = elim (Bool-cases (is_empty (go.trim_space part))) [
    | inl e ↦ rw e (levels_of_parts-le parts)
    | inr e ↦ rw e (level_of-le (go.trim_space part), levels_of_parts-le parts)
  ]

  levels_of-le : (raws : List Text) → All (λ l. l ≤ 6) (levels_of go raws)
  unfolding levels_of
  levels_of-le [] = tt
  levels_of-le (raw ∷ raws) =
      All-append (λ l. l ≤ 6) (levels_of_parts go (split_commas [] raw)) (levels_of go raws)
        (levels_of_parts-le (split_commas [] raw)) (levels_of-le raws)

limit_of-pos : (t : Text) {n : ℕ} → limit_of t ≡ ok n → 0 < n
unfolding limit_of
limit_of-pos [] h = ground arith
limit_of-pos (c ∷ s) h = ground arith

cap_limit_bounds : (n : ℕ) → 0 < n → (0 < cap_limit n) × (cap_limit n ≤ max_limit)
unfolding cap_limit
cap_limit_bounds n h = ground arith

-- What a plan that comes from request parameters may ask for.
pub record IsBounded (p : Plan) : Type 0 where
  pub tenant : p.tenant_id ≡ default_tenant
  pub levels : All (λ l. l ≤ 6) p.levels
  pub limit_pos : 0 < p.limit
  pub limit_max : p.limit ≤ max_limit

-- Every plan that parses is bounded: it is for the default tenant, names none but the seven levels,
-- and asks for 1 to 10000 entries.
pub parse_plan-IsBounded :
    (go : Platform) (values : Values) (p : Plan) → parse_plan go values ≡ ok p → IsBounded p
unfolding parse_plan
parse_plan-IsBounded go values p h =
    let (from, e₁, h₁) =
      >>=-eq-ok (parse_time go bad_from (get_value (bytes "from") values)) _ {b = p} h in
    let (to, e₂, h₂) =
      >>=-eq-ok (parse_time go bad_to (get_value (bytes "to") values)) _ {b = p} h₁ in
    let (limit, e₃, h₃) = >>=-eq-ok (limit_of (get_value (bytes "limit") values)) _ {b = p} h₂ in
    let bounds = cap_limit_bounds limit (limit_of-pos (get_value (bytes "limit") values) e₃) in
    subst IsBounded (ok_eq h₃) (record {
      tenant = refl;
      levels = levels_of-le go _;
      limit_pos = bounds.0;
      limit_max = bounds.1;
    })
