-- ===== src/Notify/Tests.antt =====
-- internal/notify: the theorems about rules and the engine on concrete values.
use logdoc.Common.{
  ℕ, zero, suc, ◌+◌, ◌*◌, ◌≡◌, ◌≢◌, ◌≤◌, refl, ap, false, none, some, List, [], ◌∷◌, ok, All,
  if◌then◌else◌, length, arith, map,
}
use logdoc.Common.Int.{or_default, pos, negsuc, second}
use logdoc.Common.Text.{Text, bytes, text_eq}
use logdoc.Samples.{plain, failed, two_errors}
use logdoc.Notify.Match.{Cond, Simple, Match, node, nil, cons, compile_match}
use logdoc.Notify.Match.Meaning.{valid, holds}
use logdoc.Notify.Match.Meaning.Nodes.{answer}
use logdoc.Notify.Match.Meaning.Compiled.{compile_match-holds}
use logdoc.Notify.Rule.{
  RuleConfig, Rule, Captured, config, ui, error_threshold, fresh, build_rule, build_kind,
  build_threshold, bucket_count, compile_condition, check_channels, max_fires_allowed,
}
use logdoc.Notify.Rule.Built.{IsValid}
use logdoc.Notify.Engine.{Engine, tick_threshold, sum}
use logdoc.Notify.Engine.Window.{slide}
use logdoc.Notify.Engine.Window.Slides.{window_of, window_due, zeros, shown, tick_threshold-window}
use logdoc.Notify.Engine.Firing.{
  RuleEvent, observed, ticked, run_rule, Spaced, run_rule-Spaced, run_rule_limited,
}
use logdoc.Notify.Registry.{
  build_rules, started, new, put_rule, set_built, set_rule, delete_rule, with_rules,
}
use logdoc.Notify.Registry.Keeps.{Reachable, start, Reachable-IsValid}
use logdoc.Notify.Registry.Api.{find_rule, config_rules, set_rule-find_rule, delete_rule-set_rule}
use logdoc.Notify.Registry.Dto.{Durations, to_rule, to_dto, normal, to_rule-to_dto}

-- The rule for two errors as it is built, with a ring of two buckets.
abbrev built : Rule
built = fresh two_errors error_threshold 2 (20 * second) config none (0 ∷ 0 ∷ [])

built_ok : build_rule plain [] two_errors config ≡ ok built
unfolding build_rule build_kind build_threshold bucket_count compile_condition check_channels
    text_eq or_default
built_ok = refl

-- Two errors have been seen, five slots after the last fire.
abbrev full : Rule
full = record built { buckets = 1 ∷ 1 ∷ []; last_fired = 0 }

full-IsValid : IsValid full
unfolding or_default max_fires_allowed
full-IsValid = record {
  window_pos = omega arith;
  cooldown_pos = omega arith;
  threshold_pos = λ e. omega arith;
  in_ring = λ e. omega arith;
  ring_covers = λ e. omega arith;
  ring_tight = λ e. omega arith;
  captured = omega arith;
  fires_bounded = omega arith;
  watched = λ e. cc;
}

-- An entry from before the window, and one in it.
abbrev held : Rule
held = record full {
  entries =
      record { entry = failed; at = 1 * second } ∷ record { entry = failed; at = 65 * second } ∷ [];
}

held-IsValid : IsValid held
unfolding or_default max_fires_allowed
held-IsValid = record {
  window_pos = omega arith;
  cooldown_pos = omega arith;
  threshold_pos = λ e. omega arith;
  in_ring = λ e. omega arith;
  ring_covers = λ e. omega arith;
  ring_tight = λ e. omega arith;
  captured = omega arith;
  fires_bounded = omega arith;
  watched = λ e. cc;
}

abbrev recent : List Captured
recent = record { entry = failed; at = 65 * second } ∷ []

tick_threshold-window_example :
    let now = 70 * second in
    ((tick_threshold now held).1 ≡ (
      if window_due held now
      then some (record {
        ev = record {
          rule = held.config.name;
          typ = held.config.typ;
          app = held.config.app;
          count = sum (window_of held);
          window = held.window;
          ts = now;
          entries = map shown recent;
        };
        channels = held.config.channels;
      })
      else none))
    × (window_of (tick_threshold now held).0
        ≡ slide (if window_due held now then zeros (window_of held) else window_of held))
    × ((tick_threshold now held).0.entries ≡ (if window_due held now then [] else recent))
tick_threshold-window_example =
    tick_threshold-window (70 * second) held (record { entry = failed; at = 1 * second } ∷ [])
      recent held-IsValid refl
      (record { whole = refl; expired = (omega arith, tt); current = omega arith })

abbrev history : List RuleEvent
history =
    ticked (70 * second) []
    ∷ observed failed (71 * second)
    ∷ observed failed (72 * second)
    ∷ ticked (80 * second) []
    ∷ ticked (140 * second) []
    ∷ []

run_rule-Spaced_example : Spaced (60 * second) 0 (run_rule history full).1
unfolding or_default
run_rule-Spaced_example = run_rule-Spaced history full full-IsValid

run_rule_limited_example : 0 + length (run_rule history full).1 ≤ 3
unfolding max_fires_allowed
run_rule_limited_example = run_rule_limited history full 3 full-IsValid refl

abbrev payment : Cond
payment = record {
  contains = bytes "payment";
  starts = [];
  ends = [];
  equals = [];
  case_sensitive = false;
}

abbrev blank : Simple
blank = record { app = []; src = []; pid = []; lvl = []; msg = none; regex = []; fields = [] }

-- A payment, of the shop or of the bank.
abbrev condition : Match
condition =
    node (record blank { msg = some payment }) nil
      (cons (node (record blank { app = bytes "shop" }) nil nil)
        (cons (node (record blank { lvl = bytes "error" }) nil nil) nil))

compile_match-holds_example :
    answer failed (compile_match plain condition)
    ≡ (if valid plain condition then some (holds plain condition failed) else none)
compile_match-holds_example = compile_match-holds plain condition failed

abbrev engine : Engine
engine = record { rules = built ∷ []; last_seen = []; by_name = bytes "ops" ∷ [] }

built_for_ops : build_rule plain (bytes "ops" ∷ []) two_errors config ≡ ok built
unfolding build_rule build_kind build_threshold bucket_count compile_condition check_channels
    text_eq or_default
built_for_ops = refl

started_engine : Reachable plain engine
unfolding new started build_rules build_rule build_kind build_threshold bucket_count
    compile_condition check_channels text_eq or_default
started_engine = start (two_errors ∷ []) (bytes "ops" ∷ []) refl

Reachable-IsValid_example : All IsValid engine.rules
Reachable-IsValid_example = Reachable-IsValid started_engine

-- A rule of the API beside the configured one.
abbrev api_rule : RuleConfig
api_rule = record two_errors { name = bytes "mine"; channels = bytes "ops" ∷ [] }

abbrev api_built : Rule
api_built = fresh api_rule error_threshold 2 (20 * second) ui none (0 ∷ 0 ∷ [])

abbrev with_api : Engine
with_api = record engine { rules = built ∷ api_built ∷ [] }

set_ok : set_rule plain api_rule engine ≡ ok with_api
unfolding set_rule set_built with_rules put_rule build_rule build_kind build_threshold bucket_count
    compile_condition check_channels text_eq or_default
set_ok = refl

set_rule-find_rule_example :
    (r : Rule) × (build_rule plain engine.by_name api_rule ui ≡ ok r)
    × ((j : Text)
        → find_rule j with_api.rules
          ≡ (if text_eq (bytes "mine") j then some r else find_rule j engine.rules))
    × (config_rules with_api.rules ≡ config_rules engine.rules)
set_rule-find_rule_example = set_rule-find_rule plain api_rule engine with_api set_ok

new_name : find_rule api_rule.name engine.rules ≡ none
unfolding find_rule text_eq
new_name = refl

delete_rule-set_rule_example : delete_rule (bytes "mine") with_api ≡ ok engine
delete_rule-set_rule_example = delete_rule-set_rule plain api_rule engine with_api new_name set_ok

-- Durations written in unary.
abbrev ticks : ℕ → Text
ticks zero = []
ticks (suc n) = b'|' ∷ ticks n

count_ticks : Text → ℕ
count_ticks [] = 0
count_ticks (c ∷ s) = suc (count_ticks s)

count_ticks-ticks : (n : ℕ) → count_ticks (ticks n) ≡ n
unfolding count_ticks
count_ticks-ticks zero = refl
count_ticks-ticks (suc n) = ap suc (count_ticks-ticks n)

ticks_set : (n : ℕ) → ticks (suc n) ≢ []
ticks_set n e = absurd (cc e)

abbrev unary : Durations
unary = record {
  parse = λ s. some (pos (count_ticks s));
  print = ticks;
  print_set = ticks_set;
  parse-print = λ n. ap (λ m. some (pos m)) (count_ticks-ticks (suc n));
}

abbrev short_rule : RuleConfig
short_rule = record two_errors { window = pos 3; cooldown = negsuc 4 }

to_rule-to_dto_example :
    to_rule unary (to_dto unary short_rule)
    ≡ ok (record short_rule { window = normal unary (pos 3); cooldown = normal unary (negsuc 4) })
to_rule-to_dto_example = to_rule-to_dto unary short_rule
