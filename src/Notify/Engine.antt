-- ===== src/Notify/Engine.antt =====
-- internal/notify/notify.go and rules.go: the engine's state, and its operations.
pub mod Keeps
pub mod Firing
pub mod Window
use logdoc.Common.{
  ℕ, ◌+◌, ◌-◌, ◌*◌, ◌%◌, ◌≡◌, Bool, true, false, not, ◌&&◌, ◌||◌, Option, none, some, List, [], ◌∷◌,
  ◌++◌, Result, ok, err, ◌>>=◌, ltb, leb, ◌==◌, if◌then◌else◌, map, length, suc, zero, drop,
  is_null,
}
use logdoc.Common.Int.{sub_time}
use logdoc.Common.Text.{Text, text_Eq, is_empty, text_eq}
use logdoc.Common.Map.{lookup, insert}
use logdoc.Common.Platform.{Platform}
use logdoc.Model.{Level, Time, Entry, Fields, level_error, level_string}
use logdoc.Notify.Rule.{
  RuleConfig, Rule, RuleError, Captured, Source, config, ui, Kind, error_threshold, silence,
  max_fires_allowed, max_captured, build_rule,
}

-- `EventEntry`, with the level as its name.
pub record EventEntry : Type 0 where
  pub ts : Time
  pub app : Text
  pub src : Text
  pub lvl : Text
  pub pid : Text
  pub msg : Text
  pub fields : Fields

unfoldable pub to_event_entry : Entry → EventEntry
to_event_entry e = record {
  ts = e.ts;
  app = e.app;
  src = e.src;
  lvl = level_string e.lvl;
  pid = e.pid;
  msg = e.msg;
  fields = e.fields;
}

-- `Event`, less the message text, which is formatted from these fields.
pub record Event : Type 0 where
  pub rule : Text
  pub typ : Text
  pub app : Text
  pub count : ℕ
  pub window : ℕ
  pub ts : Time
  pub entries : List EventEntry

-- An event with the channels of the rule that fired.
pub record Fire : Type 0 where
  pub ev : Event
  pub channels : List Text

-- `Engine`: `by_name` holds the names of the configured senders.
pub record Engine : Type 0 where
  pub rules : List Rule
  pub last_seen : List (Text × Time)
  pub by_name : List Text

abbrev pub is_threshold : Kind → Bool
is_threshold error_threshold = true
is_threshold silence = false

-- The condition of a threshold rule: its own, or ERROR and above of its application.
unfoldable pub matches : Rule → Entry → Bool
matches r e = elim r.matcher [
  | some f ↦ f e
  | none ↦ leb level_error e.lvl && (is_empty r.config.app || text_eq r.config.app e.app)
]

-- `buckets[i]++`
pub bump : List ℕ → ℕ → List ℕ
bump [] i = []
bump (b ∷ bs) zero = (b + 1) ∷ bs
bump (b ∷ bs) (suc i) = b ∷ bump bs i

-- A full list of captured entries loses its oldest.
pub capture : List Captured → Captured → List Captured
capture cs c = (if length cs == max_captured then drop 1 cs else cs) ++ c ∷ []

-- The body of `Append`'s loop.
pub observe : Entry → Time → Rule → Rule
observe e now r =
    if is_threshold r.kind && not r.disabled && matches r e
    then record r {
      buckets = bump r.buckets r.cur;
      entries = capture r.entries (record { entry = e; at = now });
    }
    else r

-- `Append`
unfoldable pub append : Entry → Time → Engine → Engine
append e now eng = record eng {
  rules = map (observe e now) eng.rules;
  last_seen = insert e.app now eng.last_seen;
}

pub sum : List ℕ → ℕ
sum [] = 0
sum (b ∷ bs) = b + sum bs

-- Entries captured before `now - window` are dropped from the front.
pub expire : ℕ → Time → List Captured → List Captured
expire window now [] = []
expire window now (c ∷ cs) =
    let rest = expire window now cs in if ltb (c.at + window) now then rest else c ∷ cs

-- `buckets[i] = 0`
pub clear : List ℕ → ℕ → List ℕ
clear [] i = []
clear (b ∷ bs) zero = 0 ∷ bs
clear (b ∷ bs) (suc i) = b ∷ clear bs i

abbrev reached : Option ℕ → ℕ → Bool
reached none fires = false
reached (some allowed) fires = leb allowed fires

-- `countFire`
pub count_fire : Rule → Rule
count_fire r = record r {
  fires = r.fires + 1;
  disabled = reached (max_fires_allowed r.config.max_fires) (r.fires + 1) || r.disabled;
}

-- Move on to the next bucket of the ring, and empty it.
pub advance : Rule → Rule
advance r =
    let next = (r.cur + 1) % length r.buckets in
    record r { cur = next; buckets = clear r.buckets next }

pub threshold_event : Rule → Time → ℕ → List Captured → Fire
threshold_event r now count cs = record {
  ev = record {
    rule = r.config.name;
    typ = r.config.typ;
    app = r.config.app;
    count = count;
    window = r.window;
    ts = now;
    entries = map (λ c. to_event_entry c.entry) cs;
  };
  channels = r.config.channels;
}

pub silence_event : Rule → Time → Fire
silence_event r now = record {
  ev = record {
    rule = r.config.name;
    typ = r.config.typ;
    app = r.config.app;
    count = 0;
    window = r.window;
    ts = now;
    entries = [];
  };
  channels = r.config.channels;
}

-- The conditions under which a rule fires at a tick.
pub due : Rule → Time → Bool
due r now = leb r.threshold (sum r.buckets) && leb r.cooldown (sub_time now r.last_fired)

pub tick_threshold : Time → Rule → Rule × Option Fire
tick_threshold now r =
    let r' = record r { entries = expire r.window now r.entries } in
    if due r' now
    then (
      advance (
          count_fire
            (record r' { last_fired = now; entries = []; buckets = map (λ _. 0) r.buckets })),
      some (threshold_event r' now (sum r'.buckets) r'.entries),
    )
    else (advance r', none)

-- The last entry of the application is at least a window old; never seen is not silent.
unfoldable pub is_silent : Time → Rule → Option Time → Bool
is_silent now r none = false
is_silent now r (some last) = not (last == 0) && leb r.window (sub_time now last)

pub tick_silence : Time → Option Time → Rule → Rule × Option Fire
tick_silence now last r =
    if not (is_silent now r last)
    then (record r { silenced = false }, none)
    else if not r.silenced && leb r.cooldown (sub_time now r.last_fired)
    then (count_fire (record r { silenced = true; last_fired = now }), some (silence_event r now))
    else (r, none)

-- The body of `tick`'s loop.
pub tick_rule : Time → List (Text × Time) → Rule → Rule × Option Fire
tick_rule now last_seen r =
    if r.disabled
    then (r, none)
    else if is_threshold r.kind
    then tick_threshold now r
    else tick_silence now (lookup r.config.app last_seen) r

abbrev pub to_list {ℓ} : {A : Type ℓ} → Option A → List A
to_list none = []
to_list (some a) = a ∷ []

unfoldable pub tick_rules : Time → List (Text × Time) → List Rule → List Rule × List Fire
tick_rules now last_seen [] = ([], [])
tick_rules now last_seen (r ∷ rs) =
    let (r', fire) = tick_rule now last_seen r in
    let (rs', fires) = tick_rules now last_seen rs in (r' ∷ rs', to_list fire ++ fires)

-- `tick`
unfoldable pub tick : Time → Engine → Engine × List Fire
tick now eng =
    let (rs, fires) = tick_rules now eng.last_seen eng.rules in (record eng { rules = rs }, fires)

unfoldable pub contains_str : List Text → Text → Bool
contains_str [] s = false
contains_str (v ∷ list) s = text_eq v s || contains_str list s

-- The senders that an event goes to: those that the rule names, or all.
unfoldable pub receivers : List Text → List Text → List Text
receivers channels [] = []
receivers channels (s ∷ senders) =
    let rest = receivers channels senders in
    if not (is_null channels) && not (contains_str channels s) then rest else s ∷ rest
