-- ===== src/Pipeline/Engine/Keeps.antt =====
-- internal/pipeline: what no pipeline changes, and that levels stay levels.
use logdoc.Common.{
  ◌≡◌, ◌≤◌, refl, ◌∙◌, not, Option, none, some, List, [], ◌∷◌, arith, Bool-cases, Option-cases, inl,
  inr, All, ok, >>=-eq-ok, ok_eq, subst, ltb, length, ◌||◌,
}
use logdoc.Common.Text.{Text, is_empty, bytes, has_prefix, text_Eq}
use logdoc.Common.Map.{insert}
use logdoc.Common.Platform.{Platform}
use logdoc.Model.{Level, Fields, Entry}
use logdoc.Pipeline.Names.{parse_level_strict, parse_level_loose}
use logdoc.Pipeline.Names.Agree.{parse_level_loose-le, parse_level_strict-le}
use logdoc.Pipeline.Steps.{
  Tools, SeverityRule, SetStep, Json, null, string, number, bool, object, array, Members, no_member,
  member, loose_or, first_rule, compile_rules, compile_severity, resolve, set_fields, run_set,
  run_severity, run_pattern, run_json, json_member, json_members, assigned_level, input,
  severity_of, decoded, is_msg, is_level_key,
}
use logdoc.Pipeline.Engine.{
  Step, pattern_step, json_step, severity_step, set_step, drop_step, Compiled, run_step, run_steps,
  applies, run_pipelines,
}

some_eq : {a b : Entry} → some a ≡ some b → a ≡ b
some_eq p = cc

-- An entry that a step leads to: of the same tenant and time, and with a level if it had one.
pub record Kept (e e' : Entry) : Type 0 where
  pub tenant : e'.tenant_id ≡ e.tenant_id
  pub time : e'.ts ≡ e.ts
  pub level : e.lvl ≤ 6 → e'.lvl ≤ 6

Kept-refl : (e : Entry) → Kept e e
Kept-refl e = record { tenant = refl; time = refl; level = λ h. h }

Kept-trans : (e e' e'' : Entry) → Kept e e' → Kept e' e'' → Kept e e''
Kept-trans e e' e'' k l = record {
  tenant = l.tenant ∙ k.tenant;
  time = l.time ∙ k.time;
  level = λ h. l.level (k.level h);
}

-- The rules of a severity step set levels.
abbrev LevelRules : List (SeverityRule × Level) → Type 0
LevelRules rules = All (λ (rl : SeverityRule × Level). rl.1 ≤ 6) rules

abbrev pub IsValid : {go : Platform} → Step go → Type 0
IsValid (pattern_step re from) = Unit
IsValid (json_step from) = Unit
IsValid (severity_step from rules) = LevelRules rules
IsValid (set_step s) = Unit
IsValid drop_step = Unit

compile_rules-LevelRules :
    (rules : List SeverityRule) {out : List (SeverityRule × Level)}
    → compile_rules rules ≡ ok out
    → LevelRules out
unfolding compile_rules
compile_rules-LevelRules [] h = subst LevelRules (ok_eq h) tt
compile_rules-LevelRules (r ∷ rs) {out} h = elim (Option-cases (parse_level_strict r.lvl)) [
  | inl e ↦ absurd (ground arith)
  | inr (l, e) ↦
      let (rest, compiled, whole) =
        >>=-eq-ok (compile_rules rs) _ {b = out} (rw (e, compile_rules) at h) in
      subst LevelRules (ok_eq whole)
        (parse_level_strict-le r.lvl e, compile_rules-LevelRules rs compiled)
]

-- A severity step that compiles sets one of the seven levels, whichever rule applies.
compile_severity-IsValid :
    (go : Platform) (from : Text) (rules : List SeverityRule) (out : List (SeverityRule × Level))
    → compile_severity from rules ≡ ok out
    → IsValid {go = go} (severity_step from out)
unfolding compile_severity
compile_severity-IsValid go from rules out h = elim (Bool-cases (is_empty from)) [
  | inl e ↦ absurd (ground arith)
  | inr e ↦ compile_rules-LevelRules rules (rw e at h)
]

loose_or-le : (old : Level) (o : Option Text) → old ≤ 6 → loose_or old o ≤ 6
loose_or-le old none h = h
loose_or-le old (some v) h = elim (Option-cases (parse_level_loose v)) [
  | inl e ↦ rw (loose_or, e) h
  | inr (l, e) ↦ rw (loose_or, e) (parse_level_loose-le v e)
]

assigned_level-le :
    (old : Level) (spec : Text) (e : Entry) → old ≤ 6 → assigned_level old spec e ≤ 6
assigned_level-le old [] e h = h
assigned_level-le old (c ∷ s) e h = loose_or-le old (resolve (c ∷ s) e) h

first_rule-le :
    (rules : List (SeverityRule × Level)) (v : Text) (old : Level)
    → LevelRules rules
    → old ≤ 6
    → first_rule rules v old ≤ 6
unfolding first_rule
first_rule-le [] v old a h = h
first_rule-le ((r, l) ∷ rs) v old a h = ground (arith, first_rule-le rs v old)

severity_of-le :
    (rules : List (SeverityRule × Level)) (v : Text) (old : Level)
    → LevelRules rules
    → old ≤ 6
    → severity_of rules v old ≤ 6
severity_of-le [] v old a h = loose_or-le old (some v) h
severity_of-le (r ∷ rs) v old a h = first_rule-le (r ∷ rs) v old a h

run_severity-Kept :
    (from : Text) (rules : List (SeverityRule × Level)) (e : Entry)
    → LevelRules rules
    → Kept e (run_severity from rules e)
unfolding run_severity
run_severity-Kept from rules e a = elim (Bool-cases (is_empty (input e from))) [
  | inl q ↦ rw q (Kept-refl e)
  | inr q ↦
      rw q
        (record { tenant = refl; time = refl; level = severity_of-le rules (input e from) e.lvl a })
]

set_fields-Kept : (fs : Fields) (e : Entry) → Kept e (set_fields fs e)
unfolding set_fields
set_fields-Kept [] e = Kept-refl e
set_fields-Kept ((k, spec) ∷ rest) e = elim (Option-cases (resolve spec e)) [
  | inl p ↦ rw (set_fields, p) (set_fields-Kept rest e)
  | inr (v, p) ↦
      rw (set_fields, p)
        (Kept-trans e (record e { fields = insert k v e.fields }) _
          (record { tenant = refl; time = refl; level = λ h. h }) (set_fields-Kept rest _))
]

run_set-Kept : (s : SetStep) (e : Entry) → Kept e (run_set s e)
unfolding run_set
run_set-Kept s e =
    Kept-trans e _ _
      (record { tenant = refl; time = refl; level = assigned_level-le e.lvl s.lvl _ })
      (set_fields-Kept s.fields _)

module _ {go : Platform} (tools : Tools go) where
  run_pattern-Kept : (re : go.Re) (from : Text) (e : Entry) → Kept e (run_pattern tools re from e)
  unfolding run_pattern
  run_pattern-Kept re from e = elim (Bool-cases (is_empty (input e from))) [
    | inl q ↦ rw q (Kept-refl e)
    | inr q ↦ elim (Option-cases (tools.find_submatch re (input e from))) [
      | inl p ↦ rw (q, p) (Kept-refl e)
      | inr (values, p) ↦ rw (q, p) (record { tenant = refl; time = refl; level = λ h. h })
    ]
  ]

  json_member-Kept : (k : Text) (v : Json) (e : Entry) → Kept e (json_member tools k v e)
  unfolding json_member
  json_member-Kept k (string s) e = elim (Bool-cases (is_msg k)) [
    | inl q ↦ rw q (record { tenant = refl; time = refl; level = λ h. h })
    | inr q ↦ elim (Bool-cases (is_level_key k)) [
      | inr r ↦ rw (q, r) (record { tenant = refl; time = refl; level = λ h. h })
      | inl r ↦ elim (Option-cases (parse_level_loose s)) [
        | inl p ↦ rw (q, r, p) (record { tenant = refl; time = refl; level = λ h. h })
        | inr (l, p) ↦
            rw (q, r, p)
              (record { tenant = refl; time = refl; level = λ h. parse_level_loose-le s p })
      ]
    ]
  ]
  json_member-Kept k null e = record { tenant = refl; time = refl; level = λ h. h }
  json_member-Kept k (number s) e = record { tenant = refl; time = refl; level = λ h. h }
  json_member-Kept k (bool b) e = record { tenant = refl; time = refl; level = λ h. h }
  json_member-Kept k (array es) e = record { tenant = refl; time = refl; level = λ h. h }
  json_member-Kept k (object ms) e = record { tenant = refl; time = refl; level = λ h. h }

  json_members-Kept : (ms : Members) (e : Entry) → Kept e (json_members tools ms e)
  unfolding json_members
  json_members-Kept no_member e = Kept-refl e
  json_members-Kept (member k v ms) e =
      Kept-trans e (json_member tools k v e) _ (json_member-Kept k v e)
        (json_members-Kept ms (json_member tools k v e))

  decoded-Kept : (o : Option Members) (e : Entry) → Kept e (decoded tools o e)
  decoded-Kept none e = Kept-refl e
  decoded-Kept (some ms) e = json_members-Kept ms e

  run_json-Kept : (from : Text) (e : Entry) → Kept e (run_json tools from e)
  unfolding run_json
  run_json-Kept from e =
      let in' = go.trim_space (input e from) in
      elim (Bool-cases (ltb (length in') 2 || not (has_prefix in' (bytes "{")))) [
        | inl q ↦ rw q (Kept-refl e)
        | inr q ↦ rw q (decoded-Kept (tools.decode in') e)
      ]

  Kept-some : {e e' e'' : Entry} → Kept e e' → some e' ≡ some e'' → Kept e e''
  Kept-some {e} k p = subst (Kept e) (some_eq p) k

  run_step-Kept :
      (s : Step go) (e : Entry) {e' : Entry} → IsValid s → run_step tools s e ≡ some e' → Kept e e'
  unfolding run_step
  run_step-Kept (pattern_step re from) e v h = Kept-some (run_pattern-Kept re from e) h
  run_step-Kept (json_step from) e v h = Kept-some (run_json-Kept from e) h
  run_step-Kept (severity_step from rules) e v h = Kept-some (run_severity-Kept from rules e v) h
  run_step-Kept (set_step s) e v h = Kept-some (run_set-Kept s e) h
  run_step-Kept drop_step e v h = absurd (cc)

  run_steps-Kept :
      (ss : List (Step go)) (e : Entry) {e' : Entry}
      → All (λ (s : Step go). IsValid s) ss
      → run_steps tools ss e ≡ some e'
      → Kept e e'
  unfolding run_steps
  run_steps-Kept [] e v h = Kept-some (Kept-refl e) h
  run_steps-Kept (s ∷ ss) e {e'} v h = elim (Option-cases (run_step tools s e)) [
    | inl p ↦ absurd (cc (rw (run_steps, p) at h))
    | inr (m, p) ↦
        Kept-trans e m e' (run_step-Kept s e v.0 p)
          (run_steps-Kept ss m v.1 (rw (run_steps, p) at h))
  ]

  -- The steps of every pipeline are valid.
  abbrev AllValid : List (Compiled go) → Type 0
  AllValid ps = All (λ (p : Compiled go). All (λ (s : Step go). IsValid s) p.steps) ps

  -- An entry that comes through the pipelines has the tenant and the time that it had, and its level
  -- is one of the seven if it was one, given that the severity rules of the steps set levels.
  pub run_pipelines-Kept :
      (ps : List (Compiled go)) (e e' : Entry)
      → AllValid ps
      → run_pipelines tools ps e ≡ some e'
      → Kept e e'
  unfolding run_pipelines
  run_pipelines-Kept [] e e' v h = Kept-some (Kept-refl e) h
  run_pipelines-Kept (p ∷ ps) e e' v h = elim (Bool-cases (not (applies tools p.selector e))) [
    | inl q ↦ run_pipelines-Kept ps e e' v.1 (rw (run_pipelines, q) at h)
    | inr q ↦ elim (Option-cases (run_steps tools p.steps e)) [
      | inl r ↦ absurd (cc (rw (run_pipelines, q, r) at h))
      | inr (m, r) ↦
          Kept-trans e m e' (run_steps-Kept p.steps e v.0 r)
            (run_pipelines-Kept ps m e' v.1 (rw (run_pipelines, q, r) at h))
    ]
  ]
