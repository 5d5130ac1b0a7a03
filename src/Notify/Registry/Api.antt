-- ===== src/Notify/Registry/Api.antt =====
-- internal/notify/rules.go: what the API can do to the rules.
use logdoc.Common.{
  ◌≡◌, refl, ap, Option, none, some, List, [], ◌∷◌, Result, ok, err, ok_eq, if◌then◌else◌, arith,
  Bool-cases, inl, inr, subst,
}
use logdoc.Common.Text.{Text, text_eq, text_eq_iff}
use logdoc.Common.Platform.{Platform}
use logdoc.Notify.Rule.{
  RuleConfig, Rule, Source, ui, build_rule, build_kind, build_threshold, build_silence,
  check_channels,
}
use logdoc.Notify.Engine.{Engine}
use logdoc.Notify.Registry.{
  EngineError, is_ui, put_rule, set_rule, drop_rule, delete_rule, with_rules, cons_rule,
}
use logdoc.Notify.Registry.Keeps.{with_rules-ok, set_built-ok}

-- The rule that a name denotes: the first of that name.
unfoldable pub find_rule : Text → List Rule → Option Rule
find_rule name [] = none
find_rule name (r ∷ rs) = if text_eq r.config.name name then some r else find_rule name rs

-- The rules of the configuration file.
pub config_rules : List Rule → List Rule
config_rules [] = []
config_rules (r ∷ rs) = let rest = config_rules rs in if is_ui r.source then rest else r ∷ rest

build_rule-origin :
    (go : Platform) (by_name : List Text) (rc : RuleConfig) (source : Source) (r : Rule)
    → build_rule go by_name rc source ≡ ok r
    → (r.config ≡ rc) × (r.source ≡ source)
unfolding build_rule build_kind build_threshold build_silence check_channels
build_rule-origin go by_name rc source r h = ground arith

cons_rule-ok :
    (r : Rule) (q : Result EngineError (List Rule)) {rs' : List Rule}
    → cons_rule r q ≡ ok rs'
    → (rs : List Rule) × (q ≡ ok rs) × (r ∷ rs ≡ rs')
unfolding cons_rule
cons_rule-ok r (ok rs) e = (rs, refl, ok_eq e)
cons_rule-ok r (err x) e = absurd (cc)

-- What a successful write does to the list.
record Written (built : Rule) (name : Text) (rs rs' : List Rule) : Type 0 where
  finds : (j : Text) → find_rule j rs' ≡ (if text_eq name j then some built else find_rule j rs)
  keeps : config_rules rs' ≡ config_rules rs

put_rule-Written :
    (built : Rule) (name : Text) (rs : List Rule) {rs' : List Rule}
    → put_rule built name rs ≡ ok rs'
    → built.config.name ≡ name
    → built.source ≡ ui
    → Written built name rs rs'
unfolding put_rule find_rule config_rules
put_rule-Written built name [] e n u =
    subst (Written built name []) (ok_eq e)
      (record { finds = λ j. ground arith; keeps = ground arith })
put_rule-Written built name (r ∷ rs) {rs'} e n u = elim (Bool-cases (text_eq r.config.name name)) [
  | inl same ↦ elim (Bool-cases (is_ui r.source)) [
    | inl own ↦ subst (Written built name (r ∷ rs)) (ok_eq (rw (same, own) at e)) (record {
      finds = λ j. ground (arith, text_eq_iff r.config.name name);
      keeps = ground arith;
    })
    | inr other ↦ absurd (ground arith)
  ]
  | inr differs ↦
      let (rest, q, whole) =
        cons_rule-ok r (put_rule built name rs) {rs' = rs'} (rw differs at e) in
      let w = put_rule-Written built name rs q n u in
      subst (Written built name (r ∷ rs)) whole (record {
        finds = λ j. ground (
          arith,
          w.finds j,
          text_eq_iff r.config.name name,
          text_eq_iff r.config.name j,
          text_eq_iff name j,
        );
        keeps = ground (arith, w.keeps);
      })
]

-- A successful `SetRule` makes its name denote the rule that was built, leaves what every other
-- name denotes, and leaves the rules of the configuration file as they were.
pub set_rule-find_rule :
    (go : Platform) (rc : RuleConfig) (eng eng' : Engine)
    → set_rule go rc eng ≡ ok eng'
    → (r : Rule) × (build_rule go eng.by_name rc ui ≡ ok r)
      × ((j : Text)
          → find_rule j eng'.rules ≡ (if text_eq rc.name j then some r else find_rule j eng.rules))
      × (config_rules eng'.rules ≡ config_rules eng.rules)
unfolding set_rule
set_rule-find_rule go rc eng eng' e =
    let (r, built, w) =
      set_built-ok eng rc.name (build_rule go eng.by_name rc ui) {eng' = eng'} e in
    let (rs, p, same) = with_rules-ok eng (put_rule r rc.name eng.rules) {eng' = eng'} w in
    let origin = build_rule-origin go eng.by_name rc ui r built in
    let done : Written r rc.name eng.rules eng'.rules = subst (Written r rc.name eng.rules) same (
      put_rule-Written r rc.name eng.rules p (ap (λ (c : RuleConfig). c.name) origin.0) origin.1) in
    (r, built, done.finds, done.keeps)

drop_rule-config_rules :
    (name : Text) (rs : List Rule) {rs' : List Rule}
    → drop_rule name rs ≡ ok rs'
    → config_rules rs' ≡ config_rules rs
unfolding drop_rule config_rules
drop_rule-config_rules name [] e = absurd (cc)
drop_rule-config_rules name (r ∷ rs) {rs'} e = elim (Bool-cases (text_eq r.config.name name)) [
  | inl same ↦ ground arith
  | inr differs ↦
      let (rest, q, whole) = cons_rule-ok r (drop_rule name rs) {rs' = rs'} (rw differs at e) in
      rw (← whole) (ground (arith, drop_rule-config_rules name rs q))
]

drop-put_rule :
    (built : Rule) (name : Text) (rs : List Rule) {rs' : List Rule}
    → find_rule name rs ≡ none
    → built.config.name ≡ name
    → built.source ≡ ui
    → put_rule built name rs ≡ ok rs'
    → drop_rule name rs' ≡ ok rs
unfolding drop_rule put_rule find_rule cons_rule
drop-put_rule built name [] f n u e =
    subst (λ l. drop_rule name l ≡ ok []) (ok_eq e)
      (ground (arith, text_eq_iff built.config.name name))
drop-put_rule built name (r ∷ rs) {rs'} f n u e = elim (Bool-cases (text_eq r.config.name name)) [
  | inl same ↦ absurd (ground arith)
  | inr differs ↦
      let (rest, q, whole) =
        cons_rule-ok r (put_rule built name rs) {rs' = rs'} (rw differs at e) in
      subst (λ l. drop_rule name l ≡ ok (r ∷ rs)) whole
        (rw (differs, drop-put_rule built name rs (rw differs at f) n u q) refl)
]

-- Deleting a rule that the API has just added under a new name gives the engine back.
pub delete_rule-set_rule :
    (go : Platform) (rc : RuleConfig) (eng eng' : Engine)
    → find_rule rc.name eng.rules ≡ none
    → set_rule go rc eng ≡ ok eng'
    → delete_rule rc.name eng' ≡ ok eng
unfolding set_rule delete_rule with_rules
delete_rule-set_rule go rc eng eng' f e =
    let (r, built, w) =
      set_built-ok eng rc.name (build_rule go eng.by_name rc ui) {eng' = eng'} e in
    let origin = build_rule-origin go eng.by_name rc ui r built in
    let (rs, p, same) = with_rules-ok eng (put_rule r rc.name eng.rules) {eng' = eng'} w in
    let back : drop_rule rc.name eng'.rules ≡ ok eng.rules =
      subst (λ l. drop_rule rc.name l ≡ ok eng.rules) same
        (drop-put_rule r rc.name eng.rules f (ap (λ (c : RuleConfig). c.name) origin.0) origin.1
          p) in
    let whole : record eng { rules = rs } ≡ eng' = ok_eq (rw p at w) in
    rw back (subst (λ (g : Engine). with_rules g (ok eng.rules) ≡ ok eng) whole refl)
