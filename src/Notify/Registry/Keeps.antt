-- ===== src/Notify/Registry/Keeps.antt =====
-- internal/notify: what every operation of the engine keeps, over any history.
use logdoc.Common.{
  ◌≡◌, refl, ap, some, List, [], ◌∷◌, Result, ok, err, >>=-eq-ok, ok_eq, All, arith, map,
  Bool-cases, inl, inr, subst,
}
use logdoc.Common.Text.{Text, text_eq}
use logdoc.Common.Platform.{Platform}
use logdoc.Model.{Entry, Time}
use logdoc.Notify.Rule.{RuleConfig, Rule, RuleError, config, ui, build_rule}
use logdoc.Notify.Rule.Built.{IsValid, build_rule-IsValid}
use logdoc.Notify.Engine.{Engine, append, tick, tick_rules, tick_rule, observe}
use logdoc.Notify.Engine.Keeps.{observe-IsValid, tick_rule-IsValid}
use logdoc.Notify.Registry.{
  EngineError, build_rules, new, started, is_ui, put_rule, set_built, set_rule, drop_rule,
  delete_rule, with_rules, cons_rule,
}

some_eq {ℓ} : {A : Type ℓ} {a b : A} → some a ≡ some b → a ≡ b
some_eq p = cc

-- One event in the life of an engine. An API call that fails changes nothing.
pub data Step (go : Platform) (eng : Engine) : Engine → Type 0 where
  entry : (e : Entry) (now : Time) → Step go eng (append e now eng)
  ticked : (now : Time) → Step go eng (tick now eng).0
  set : (rc : RuleConfig) {eng' : Engine} → set_rule go rc eng ≡ ok eng' → Step go eng eng'
  deleted : (name : Text) {eng' : Engine} → delete_rule name eng ≡ ok eng' → Step go eng eng'

-- The engines that a configuration leads to.
pub data Reachable (go : Platform) : Engine → Type 0 where
  start :
      (rules : List RuleConfig) (senders : List Text) {eng : Engine}
      → new go rules senders ≡ ok (some eng)
      → Reachable go eng
  next : {eng eng' : Engine} → Reachable go eng → Step go eng eng' → Reachable go eng'

module _ (P : Rule → Type 0) where
  All-map :
      (f : Rule → Rule)
      → ((r : Rule) → P r → P (f r))
      → (rs : List Rule) → All P rs
      → All P (map f rs)
  All-map f keep [] h = h
  All-map f keep (r ∷ rs) h = (keep r h.0, All-map f keep rs h.1)

  All-tick_rules :
      (now : Time) (seen : List (Text × Time))
      → ((r : Rule) → P r → P (tick_rule now seen r).0)
      → (rs : List Rule) → All P rs
      → All P (tick_rules now seen rs).0
  unfolding tick_rules
  All-tick_rules now seen keep [] h = h
  All-tick_rules now seen keep (r ∷ rs) h = (keep r h.0, All-tick_rules now seen keep rs h.1)

  All-cons_rule :
      (r : Rule) (q : Result EngineError (List Rule)) {rs' : List Rule}
      → cons_rule r q ≡ ok rs'
      → P r
      → ((rs : List Rule) → q ≡ ok rs → All P rs)
      → All P rs'
  unfolding cons_rule
  All-cons_rule r (ok rs) e h k = subst (All P) (ok_eq e) (h, k rs refl)
  All-cons_rule r (err x) e h k = absurd (cc)

  All-put_rule :
      (built : Rule) (name : Text) (rs : List Rule) {rs' : List Rule}
      → put_rule built name rs ≡ ok rs'
      → P built
      → All P rs
      → All P rs'
  unfolding put_rule
  All-put_rule built name [] e b h = subst (All P) (ok_eq e) (b, tt)
  All-put_rule built name (r ∷ rs) e b h = elim (Bool-cases (text_eq r.config.name name)) [
    | inl same ↦ elim (Bool-cases (is_ui r.source)) [
      | inl own ↦ subst (All P) (ok_eq (rw (same, own) at e)) (b, h.1)
      | inr other ↦ absurd (ground arith)
    ]
    | inr differs ↦
        All-cons_rule r (put_rule built name rs) (rw differs at e) h.0
          (λ rs'' q. All-put_rule built name rs q b h.1)
  ]

  All-drop_rule :
      (name : Text) (rs : List Rule) {rs' : List Rule}
      → drop_rule name rs ≡ ok rs'
      → All P rs
      → All P rs'
  unfolding drop_rule
  All-drop_rule name [] e h = absurd (cc)
  All-drop_rule name (r ∷ rs) e h = elim (Bool-cases (text_eq r.config.name name)) [
    | inl same ↦ elim (Bool-cases (is_ui r.source)) [
      | inl own ↦ subst (All P) (ok_eq (rw (same, own) at e)) h.1
      | inr other ↦ absurd (ground arith)
    ]
    | inr differs ↦
        All-cons_rule r (drop_rule name rs) (rw differs at e) h.0
          (λ rs'' q. All-drop_rule name rs q h.1)
  ]

build_rules-IsValid :
    (go : Platform) (by_name : List Text) (rcs : List RuleConfig) {rs : List Rule}
    → build_rules go by_name rcs ≡ ok rs
    → All IsValid rs
unfolding build_rules
build_rules-IsValid go by_name [] e = subst (All IsValid) (ok_eq e) tt
build_rules-IsValid go by_name (rc ∷ rcs) {rs} e =
    let (r, built, rest) = >>=-eq-ok (build_rule go by_name rc config) _ {b = rs} e in
    let (rs', more, same) = >>=-eq-ok (build_rules go by_name rcs) _ {b = rs} rest in
    subst (All IsValid) (ok_eq same)
      (build_rule-IsValid go by_name rc config r built, build_rules-IsValid go by_name rcs more)

pub with_rules-ok :
    (eng : Engine) (q : Result EngineError (List Rule)) {eng' : Engine}
    → with_rules eng q ≡ ok eng'
    → (rs : List Rule) × (q ≡ ok rs) × (rs ≡ eng'.rules)
unfolding with_rules
with_rules-ok eng (ok rs) e = (rs, refl, ap (λ (g : Engine). g.rules) (ok_eq e))
with_rules-ok eng (err x) e = absurd (cc)

pub set_built-ok :
    (eng : Engine) (name : Text) (q : Result RuleError Rule) {eng' : Engine}
    → set_built eng name q ≡ ok eng'
    → (r : Rule) × (q ≡ ok r) × (with_rules eng (put_rule r name eng.rules) ≡ ok eng')
unfolding set_built
set_built-ok eng name (ok r) e = (r, refl, e)
set_built-ok eng name (err x) e = absurd (cc)

set_rule-rules :
    (P : Rule → Type 0) (go : Platform) (rc : RuleConfig) (eng : Engine) {eng' : Engine}
    → set_rule go rc eng ≡ ok eng'
    → ((r : Rule) → build_rule go eng.by_name rc ui ≡ ok r → P r)
    → All P eng.rules
    → All P eng'.rules
unfolding set_rule
set_rule-rules P go rc eng {eng'} e built h =
    let (r, q, w) = set_built-ok eng rc.name (build_rule go eng.by_name rc ui) {eng' = eng'} e in
    let (rs, p, same) = with_rules-ok eng (put_rule r rc.name eng.rules) {eng' = eng'} w in
    subst (All P) same (All-put_rule P r rc.name eng.rules p (built r q) h)

delete_rule-rules :
    (P : Rule → Type 0) (name : Text) (eng : Engine) {eng' : Engine}
    → delete_rule name eng ≡ ok eng'
    → All P eng.rules
    → All P eng'.rules
unfolding delete_rule
delete_rule-rules P name eng {eng'} e h =
    let (rs, p, same) = with_rules-ok eng (drop_rule name eng.rules) {eng' = eng'} e in
    subst (All P) same (All-drop_rule P name eng.rules p h)

Step-IsValid :
    {go : Platform} {eng eng' : Engine}
    → Step go eng eng'
    → All IsValid eng.rules
    → All IsValid eng'.rules
unfolding append tick
Step-IsValid {eng} (entry e now) h =
    All-map IsValid (observe e now) (observe-IsValid e now) eng.rules h
Step-IsValid {eng} (ticked now) h =
    All-tick_rules IsValid now eng.last_seen (tick_rule-IsValid now eng.last_seen) eng.rules h
Step-IsValid {go} {eng} (set rc e) h =
    set_rule-rules IsValid go rc eng e (build_rule-IsValid go eng.by_name rc ui) h
Step-IsValid {eng} (deleted name e) h = delete_rule-rules IsValid name eng e h

started-ok :
    (by_name : List Text) (q : Result RuleError (List Rule)) {eng : Engine}
    → started by_name q ≡ ok (some eng)
    → (rs : List Rule) × (q ≡ ok rs) × (rs ≡ eng.rules)
unfolding started
started-ok by_name (ok rs) e = (rs, refl, ap (λ (g : Engine). g.rules) (some_eq (ok_eq e)))
started-ok by_name (err x) e = absurd (cc)

new-ok :
    (go : Platform) (rules : List RuleConfig) (senders : List Text) {eng : Engine}
    → new go rules senders ≡ ok (some eng)
    → started senders (build_rules go senders rules) ≡ ok (some eng)
unfolding new
new-ok go rules [] e = absurd (ground arith)
new-ok go [] (s ∷ senders) e = e
new-ok go (r ∷ rules) (s ∷ senders) e = e

new-IsValid :
    (go : Platform) (rules : List RuleConfig) (senders : List Text) {eng : Engine}
    → new go rules senders ≡ ok (some eng)
    → All IsValid eng.rules
new-IsValid go rules senders {eng} e =
    let (rs, q, same) =
      started-ok senders (build_rules go senders rules) {eng = eng} (new-ok go rules senders e) in
    subst (All IsValid) same (build_rules-IsValid go senders rules q)

-- However an engine was configured, and whatever entries, ticks and API calls it has seen, each of
-- its rules is valid: the ring of buckets fits its window, at most 50 entries are captured, and it
-- has not fired more often than it may.
pub Reachable-IsValid : {go : Platform} {eng : Engine} → Reachable go eng → All IsValid eng.rules
Reachable-IsValid {go} (start rules senders e) = new-IsValid go rules senders e
Reachable-IsValid (next r s) = Step-IsValid s (Reachable-IsValid r)
