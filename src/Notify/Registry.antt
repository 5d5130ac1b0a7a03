-- ===== src/Notify/Registry.antt =====
-- internal/notify/rules.go and `New` of notify.go: where an engine's rules come from.
pub mod Keeps
pub mod Api
pub mod Dto
use logdoc.Common.{
  ℕ, ◌≡◌, Bool, true, false, Option, none, some, List, [], ◌∷◌, ◌++◌, Result, ok, err, ◌>>=◌,
  if◌then◌else◌, is_null, ◌&&◌,
}
use logdoc.Common.Text.{Text, text_eq}
use logdoc.Common.Platform.{Platform}
use logdoc.Notify.Rule.{RuleConfig, Rule, RuleError, Source, config, ui, build_rule}
use logdoc.Notify.Engine.{Engine}

pub data EngineError : Type 0 where
  no_channel read_only unknown_rule : EngineError
  bad_rule : RuleError → EngineError

-- The loop of `New`: the first rule that does not validate is the result.
unfoldable pub build_rules : Platform → List Text → List RuleConfig → Result RuleError (List Rule)
build_rules go by_name [] = ok []
build_rules go by_name (rc ∷ rest) = do
  r ← build_rule go by_name rc config
  rs ← build_rules go by_name rest
  ok (r ∷ rs)

unfoldable pub started :
    List Text → Result RuleError (List Rule) → Result EngineError (Option Engine)
started by_name (ok rs) = ok (some (record { rules = rs; last_seen = []; by_name = by_name }))
started by_name (err e) = err (bad_rule e)

-- `New`, given the names of the configured senders; none is an engine that is off.
unfoldable pub new : Platform → List RuleConfig → List Text → Result EngineError (Option Engine)
unfolding started
new go rules senders =
    if is_null rules && is_null senders
    then ok none
    else if is_null senders
    then err no_channel
    else started senders (build_rules go senders rules)

abbrev pub is_ui : Source → Bool
is_ui ui = true
is_ui config = false

pub cons_rule : Rule → Result EngineError (List Rule) → Result EngineError (List Rule)
cons_rule r (ok rs) = ok (r ∷ rs)
cons_rule r (err e) = err e

-- The loop of `SetRule`: the first rule of that name is replaced, or else the rule comes last.
unfoldable pub put_rule : Rule → Text → List Rule → Result EngineError (List Rule)
unfolding cons_rule
put_rule built name [] = ok (built ∷ [])
put_rule built name (r ∷ rs) =
    let rest = cons_rule r (put_rule built name rs) in
    if text_eq r.config.name name
    then (if is_ui r.source then ok (built ∷ rs) else err read_only)
    else rest

unfoldable pub with_rules : Engine → Result EngineError (List Rule) → Result EngineError Engine
with_rules eng (ok rs) = ok (record eng { rules = rs })
with_rules eng (err e) = err e

unfoldable pub set_built : Engine → Text → Result RuleError Rule → Result EngineError Engine
unfolding with_rules
set_built eng name (ok built) = with_rules eng (put_rule built name eng.rules)
set_built eng name (err e) = err (bad_rule e)

-- `SetRule`
unfoldable pub set_rule : Platform → RuleConfig → Engine → Result EngineError Engine
unfolding set_built
set_rule go rc eng = set_built eng rc.name (build_rule go eng.by_name rc ui)

-- The loop of `DeleteRule`.
pub drop_rule : Text → List Rule → Result EngineError (List Rule)
unfolding cons_rule
drop_rule name [] = err unknown_rule
drop_rule name (r ∷ rs) =
    let rest = cons_rule r (drop_rule name rs) in
    if text_eq r.config.name name then (if is_ui r.source then ok rs else err read_only) else rest

-- `DeleteRule`
pub delete_rule : Text → Engine → Result EngineError Engine
unfolding with_rules
delete_rule name eng = with_rules eng (drop_rule name eng.rules)
