-- ===== src/Pipeline/Tests.antt =====
-- internal/pipeline: the theorems about the pipelines on concrete values.
use logdoc.Common.{◌≡◌, refl, none, some, List, [], ◌∷◌, arith}
use logdoc.Common.Text.{bytes, text_eq, has_prefix}
use logdoc.Common.Map.{lookup}
use logdoc.Model.{Entry, equal_fold, level_string, level_names}
use logdoc.Samples.{plain, failed}
use logdoc.Pipeline.Names.{parse_level_strict, strict_among}
use logdoc.Pipeline.Steps.{
  Json, string, object, no_member, member, Tools, SeverityRule, SetStep, resolve, set_fields,
  run_set, run_severity, first_rule, input, flatten,
}
use logdoc.Pipeline.Steps.Cap.{Capped, flatten-Capped}
use logdoc.Pipeline.Engine.{severity_step, set_step, Compiled, run_step, run_steps, run_pipelines}
use logdoc.Pipeline.Engine.Keeps.{Kept, run_pipelines-Kept}

abbrev tools : Tools plain
tools = record {
  subexp_names = λ re. re ∷ [];
  find_submatch = λ re s. some (s ∷ []);
  decode = λ s. none;
  marshal = λ v. bytes "{}";
}

strict : parse_level_strict (bytes "warn") ≡ some 3
unfolding parse_level_strict strict_among equal_fold level_string level_names
strict = refl

abbrev nested : Json
nested =
    object
      (member (bytes "a") (string (bytes "x")) (member (bytes "b") (string (bytes "y")) no_member))

flatten-Capped_example : Capped [] (flatten tools (bytes "user") nested [] 1)
flatten-Capped_example = flatten-Capped tools (bytes "user") nested [] 1

-- Entries about payments are severe, and come from the till.
abbrev about_payments : SeverityRule
about_payments = record {
  equals = [];
  prefix = bytes "Payment";
  contains = [];
  lvl = bytes "severe";
}

abbrev to_till : SetStep
to_till = record {
  app = bytes "till";
  src = bytes "$trace_id";
  pid = [];
  msg = [];
  lvl = [];
  fields = [];
}

abbrev pipelines : List (Compiled plain)
pipelines =
    record {
      selector = none;
      steps = severity_step (bytes "msg") ((about_payments, 5) ∷ []) ∷ set_step to_till ∷ [];
    }
    ∷ []

abbrev rewritten : Entry
rewritten = record failed { app = bytes "till"; src = bytes "t1"; lvl = 5 }

comes_through : run_pipelines tools pipelines failed ≡ some rewritten
unfolding run_pipelines run_steps run_step run_severity run_set first_rule input set_fields resolve
    text_eq has_prefix lookup
comes_through = refl

run_pipelines-Kept_example : Kept failed rewritten
run_pipelines-Kept_example =
    run_pipelines-Kept tools pipelines failed rewritten (((omega arith, tt), (tt, tt)), tt)
      comes_through
