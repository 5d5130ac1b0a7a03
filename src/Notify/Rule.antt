-- ===== src/Notify/Rule.antt =====
-- internal/notify/notify.go: rules, their validation and defaults.
pub mod Built
use logdoc.Common.{
  ℕ, ◌+◌, ◌-◌, ◌*◌, ◌/◌, ◌≡◌, Bool, true, false, Option, none, some, List, [], ◌∷◌, Result, ok, err,
  ◌>>=◌, ltb, if◌then◌else◌, replicate, any, zero, suc, not,
}
use logdoc.Common.Int.{ℤ, pos, negsuc, or_default, max_int64, second, minute}
use logdoc.Common.Text.{Text, bytes, is_empty, text_eq}
use logdoc.Common.Platform.{Platform}
use logdoc.Model.{Time, Entry}
use logdoc.Notify.Match.{Match, MatchError, MatchFunc, compile_match}

abbrev pub slot : ℕ
slot = 10 * second

abbrev default_threshold : ℕ
default_threshold = 10

abbrev pub default_window : ℕ
default_window = minute

abbrev pub default_silence_window : ℕ
default_silence_window = 5 * minute

abbrev default_cooldown : ℕ
default_cooldown = 5 * minute

abbrev pub max_captured : ℕ
max_captured = 50

abbrev pub type_error_threshold : Text
type_error_threshold = bytes "error_threshold"

abbrev pub type_silence : Text
type_silence = bytes "silence"

-- `Rule`: a rule as it is configured.
pub record RuleConfig : Type 0 where
  pub name : Text
  pub typ : Text
  pub app : Text
  pub threshold : ℤ
  pub window : ℤ
  pub cooldown : ℤ
  pub channels : List Text
  pub condition : Option Match
  pub max_fires : Option ℤ

pub data Source : Type 0 where
  config ui : Source

pub data Kind : Type 0 where
  error_threshold silence : Kind

-- A matched entry with its arrival time.
pub record Captured : Type 0 where
  pub entry : Entry
  pub at : Time

-- `rule`: the configured rule with the effective values, and the live state. `threshold`, `window`
-- and `cooldown` of the embedded rule, with defaults applied, are fields of their own.
pub record Rule : Type 0 where
  pub config : RuleConfig
  pub kind : Kind
  pub threshold : ℕ
  pub window : ℕ
  pub cooldown : ℕ
  pub source : Source
  pub matcher : Option MatchFunc
  pub buckets : List ℕ
  pub cur : ℕ
  pub entries : List Captured
  pub fires : ℕ
  pub disabled : Bool
  pub last_fired : Time
  pub silenced : Bool

pub data RuleError : Type 0 where
  no_name silence_without_app silence_with_match unknown_type unknown_channel : RuleError
  bad_match : MatchError → RuleError
  -- `make` with a negative length: the sum below overflows for a window next to the largest duration
  bucket_panic : RuleError

-- `maxFiresAllowed`: none is unlimited, and 0 or less is once.
unfoldable pub max_fires_allowed : Option ℤ → Option ℕ
unfolding or_default
max_fires_allowed none = none
max_fires_allowed (some z) = some (or_default 1 z)

-- The number of buckets that cover a window.
unfoldable pub bucket_count : ℕ → Result RuleError ℕ
bucket_count window =
    if ltb max_int64 (window + slot - 1) then err bucket_panic else ok ((window + slot - 1) / slot)

lift_match : Result MatchError MatchFunc → Result RuleError (Option MatchFunc)
lift_match (ok f) = ok (some f)
lift_match (err e) = err (bad_match e)

unfoldable pub compile_condition : Platform → Option Match → Result RuleError (Option MatchFunc)
unfolding lift_match
compile_condition go none = ok none
compile_condition go (some m) = lift_match (compile_match go m)

-- A rule with no history.
abbrev pub fresh : RuleConfig → Kind → ℕ → ℕ → Source → Option MatchFunc → List ℕ → Rule
fresh rc kind threshold window source f buckets = record {
  config = rc;
  kind = kind;
  threshold = threshold;
  window = window;
  cooldown = or_default default_cooldown rc.cooldown;
  source = source;
  matcher = f;
  buckets = buckets;
  cur = 0;
  entries = [];
  fires = 0;
  disabled = false;
  last_fired = 0;
  silenced = false;
}

unfoldable pub build_threshold : Platform → RuleConfig → Source → Result RuleError Rule
build_threshold go rc source = do
  let window = or_default default_window rc.window
  let threshold = or_default default_threshold rc.threshold
  n ← bucket_count window
  f ← compile_condition go rc.condition
  ok (fresh rc error_threshold threshold window source f (replicate n 0))

abbrev is_some {ℓ} : {A : Type ℓ} → Option A → Bool
is_some none = false
is_some (some a) = true

-- The threshold of a silence rule is not defaulted; its evaluation does not read it.
unfoldable pub build_silence : RuleConfig → Source → Result RuleError Rule
build_silence rc source =
    if is_empty rc.app
    then err silence_without_app
    else if is_some rc.condition
    then err silence_with_match
    else ok (fresh rc silence 0 (or_default default_silence_window rc.window) source none [])

unfoldable pub build_kind : Platform → RuleConfig → Source → Result RuleError Rule
build_kind go rc source =
    if text_eq rc.typ type_error_threshold
    then build_threshold go rc source
    else if text_eq rc.typ type_silence
    then build_silence rc source
    else err unknown_type

-- `e.byName[ch]` for every channel of the rule.
abbrev known_channels : List Text → List Text → Bool
known_channels by_name [] = true
known_channels by_name (ch ∷ rest) =
    let more = known_channels by_name rest in if any (text_eq ch) by_name then more else false

unfoldable pub check_channels : List Text → Rule → Result RuleError Rule
check_channels by_name r =
    if known_channels by_name r.config.channels then ok r else err unknown_channel

-- `buildRule`
unfoldable pub build_rule : Platform → List Text → RuleConfig → Source → Result RuleError Rule
build_rule go by_name rc source =
    if is_empty rc.name then err no_name else (build_kind go rc source >>= check_channels by_name)
