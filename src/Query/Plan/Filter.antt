-- ===== src/Query/Plan/Filter.antt =====
-- internal/query/plan.go: what it means for an entry to match a plan.
use logdoc.Common.{◌≡◌, ◌⊎◌, true, List, [], ◌∷◌, All}
use logdoc.Common.Text.{Text, contains}
use logdoc.Common.Platform.{Platform}
use logdoc.Model.{Entry}
use logdoc.Query.Plan.{Plan, field}

-- One of a list, with its place in it.
abbrev OneOf : {A : Type 0} → A → List A → Type 0
OneOf a [] = ⊥
OneOf a (b ∷ l) = (b ≡ a) ⊎ OneOf a l

-- A filter that is not set lets everything through.
pub record Satisfies (go : Platform) (p : Plan) (e : Entry) : Type 0 where
  pub tenant : (p.tenant_id ≡ []) ⊎ (e.tenant_id ≡ p.tenant_id)
  pub app : (p.apps ≡ []) ⊎ OneOf e.app p.apps
  pub src : (p.srcs ≡ []) ⊎ OneOf e.src p.srcs
  pub level : (p.levels ≡ []) ⊎ OneOf e.lvl p.levels
  pub fields : All (λ (kv : Text × Text). field kv.0 e.fields ≡ kv.1) p.field_eq
  pub search : (p.search ≡ []) ⊎ (contains (go.to_lower e.msg) (go.to_lower p.search) ≡ true)
