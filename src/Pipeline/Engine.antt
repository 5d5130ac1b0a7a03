-- ===== src/Pipeline/Engine.antt =====
-- internal/pipeline/pipeline.go: the pipelines that an entry runs through. The code clones the
-- fields of an entry before a step writes to them; values are not shared here.
pub mod Keeps
use logdoc.Common.{
  ℕ, ◌≡◌, Bool, true, false, not, ◌&&◌, Option, none, some, List, [], ◌∷◌, Result, ok, err, ◌>>=◌,
  if◌then◌else◌,
}
use logdoc.Common.Text.{Text, is_empty, text_eq}
use logdoc.Common.Platform.{Platform}
use logdoc.Model.{Level, Entry}
use logdoc.Pipeline.Steps.{
  Tools, SeverityRule, SetStep, run_pattern, run_json, run_severity, run_set,
}

-- A compiled step, by its kind.
pub data Step (go : Platform) : Type 0 where
  pattern_step : go.Re → Text → Step go
  json_step : Text → Step go
  severity_step : Text → List (SeverityRule × Level) → Step go
  set_step : SetStep → Step go
  drop_step : Step go

pub record When : Type 0 where
  pub app : Text
  pub src : Text
  pub msg_regex : Text

pub data WhenError : Type 0 where
  bad_regex : WhenError

-- `compiled`: no selector is every entry.
pub record Compiled (go : Platform) : Type 0 where
  pub selector : Option (Entry → Bool)
  pub steps : List (Step go)

module _ (go : Platform) where
  abbrev regex_of : Text → Result WhenError (Option go.Re)
  regex_of [] = ok none
  regex_of (c ∷ s) = elim (go.compile_re (c ∷ s)) [ none ↦ err bad_regex | some re ↦ ok (some re) ]

  abbrev regex_selects : Option go.Re → Entry → Bool
  regex_selects none e = true
  regex_selects (some re) e = go.match_string re e.msg

  -- The function that `compileWhen` returns.
  unfoldable pub selects : When → Option go.Re → Entry → Bool
  selects w re e =
      if not (is_empty w.app) && not (text_eq e.app w.app)
      then false
      else if not (is_empty w.src) && not (text_eq e.src w.src)
      then false
      else regex_selects re e

  abbrev no_regex : Option go.Re → Bool
  no_regex none = true
  no_regex (some re) = false

  -- `compileWhen`
  unfoldable pub compile_when : When → Result WhenError (Option (Entry → Bool))
  compile_when w = regex_of w.msg_regex >>= λ re.
      if is_empty w.app && (is_empty w.src && no_regex re)
      then ok none
      else ok (some (selects w re))

module _ {go : Platform} (tools : Tools go) where
  -- The entry after a step, or none if it is dropped.
  unfoldable pub run_step : Step go → Entry → Option Entry
  run_step (pattern_step re from) e = some (run_pattern tools re from e)
  run_step (json_step from) e = some (run_json tools from e)
  run_step (severity_step from rules) e = some (run_severity from rules e)
  run_step (set_step s) e = some (run_set s e)
  run_step drop_step e = none

  unfoldable pub run_steps : List (Step go) → Entry → Option Entry
  run_steps [] e = some e
  run_steps (s ∷ ss) e = elim (run_step s e) [ none ↦ none | some e' ↦ run_steps ss e' ]

  abbrev pub applies : Option (Entry → Bool) → Entry → Bool
  applies none e = true
  applies (some f) e = f e

  -- `Append`: what the next consumer gets, if it gets anything.
  unfoldable pub run_pipelines : List (Compiled go) → Entry → Option Entry
  run_pipelines [] e = some e
  run_pipelines (p ∷ ps) e =
      if not (applies p.selector e)
      then run_pipelines ps e
      else elim (run_steps p.steps e) [ none ↦ none | some e' ↦ run_pipelines ps e' ]
