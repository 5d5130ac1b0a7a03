-- ===== src/Notify/Engine/Firing.antt =====
-- internal/notify/notify.go: when a rule fires over a stream of entries and ticks.
use logdoc.Common.{
  ℕ, ◌+◌, ◌≡◌, ◌≤◌, ◌<◌, refl, Bool, true, false, Option, none, some, List, [], ◌∷◌, ◌++◌, arith,
  length, ◌∙◌, ap, subst,
}
use logdoc.Common.Int.{sub_time}
use logdoc.Common.Text.{Text, text_Eq}
use logdoc.Common.Map.{lookup}
use logdoc.Model.{Time, Entry}
use logdoc.Notify.Rule.{Rule, RuleConfig, max_fires_allowed}
use logdoc.Notify.Rule.Built.{IsValid, WithinFires}
use logdoc.Notify.Engine.{
  Fire, observe, count_fire, advance, due, tick_threshold, tick_silence, tick_rule, to_list,
  threshold_event, silence_event,
}
use logdoc.Notify.Engine.Keeps.{observe-IsValid, tick_rule-IsValid}

-- What one rule meets: an entry, or a tick with the last arrivals per application.
pub data RuleEvent : Type 0 where
  observed : Entry → Time → RuleEvent
  ticked : Time → List (Text × Time) → RuleEvent

abbrev one_event : RuleEvent → Rule → Rule × Option Fire
one_event (observed e now) r = (observe e now r, none)
one_event (ticked now seen) r = tick_rule now seen r

-- The fires of a rule over a sequence of events, oldest first.
pub run_rule : List RuleEvent → Rule → Rule × List Fire
run_rule [] r = (r, [])
run_rule (ev ∷ evs) r =
    let (r', fire) = one_event ev r in
    let (r'', fires) = run_rule evs r' in (r'', to_list fire ++ fires)

one_event-IsValid : (ev : RuleEvent) (r : Rule) → IsValid r → IsValid (one_event ev r).0
one_event-IsValid (observed e now) r v = observe-IsValid e now r v
one_event-IsValid (ticked now seen) r v = tick_rule-IsValid now seen r v

-- What a step does to the clock of a rule: a fire comes at least a cooldown after the last one, and
-- is noted and counted; without a fire nothing is.
abbrev Clocked : Rule → Rule → Option Fire → Type 0
Clocked r r' none =
    (r'.last_fired ≡ r.last_fired)
    × (r'.cooldown ≡ r.cooldown)
    × (r'.fires ≡ r.fires)
    × (r'.config ≡ r.config)
Clocked r r' (some f) =
    (r.last_fired + r.cooldown ≤ f.ev.ts)
    × (r'.last_fired ≡ f.ev.ts)
    × (r'.cooldown ≡ r.cooldown)
    × (r'.fires ≡ r.fires + 1)
    × (r'.config ≡ r.config)

tick_threshold-Clocked :
    (now : Time) (r : Rule)
    → 0 < r.cooldown
    → Clocked r (tick_threshold now r).0 (tick_threshold now r).1
unfolding tick_threshold advance count_fire due sub_time threshold_event
tick_threshold-Clocked now r h = ground arith

tick_silence-Clocked :
    (now : Time) (last : Option Time) (r : Rule)
    → 0 < r.cooldown
    → Clocked r (tick_silence now last r).0 (tick_silence now last r).1
unfolding tick_silence count_fire sub_time silence_event
tick_silence-Clocked now last r h = ground arith

one_event-Clocked :
    (ev : RuleEvent) (r : Rule) → IsValid r → Clocked r (one_event ev r).0 (one_event ev r).1
unfolding observe tick_rule
one_event-Clocked (observed e now) r v = ground arith
one_event-Clocked (ticked now seen) r v =
    ground
      (arith, tick_threshold-Clocked now r, tick_silence-Clocked now (lookup r.config.app seen) r)

-- Each fire comes at least `cooldown` after the one before it, the first after `last`.
abbrev pub Spaced : ℕ → Time → List Fire → Type 0
Spaced cooldown last [] = Unit
Spaced cooldown last (f ∷ fs) = (last + cooldown ≤ f.ev.ts) × Spaced cooldown f.ev.ts fs

Spaced-step :
    (r r' : Rule) (fire : Option Fire) (fs : List Fire)
    → Clocked r r' fire
    → Spaced r'.cooldown r'.last_fired fs
    → Spaced r.cooldown r.last_fired (to_list fire ++ fs)
Spaced-step r r' none fs c s = rw (c.0, c.1) at s
Spaced-step r r' (some f) fs c s = (c.0, rw (c.1, c.2) at s)

-- Whatever a valid rule meets, any two fires in a row are at least its cooldown apart.
pub run_rule-Spaced :
    (evs : List RuleEvent) (r : Rule)
    → IsValid r
    → Spaced r.cooldown r.last_fired (run_rule evs r).1
unfolding run_rule
run_rule-Spaced [] r v = tt
run_rule-Spaced (ev ∷ evs) r v =
    Spaced-step r (one_event ev r).0 (one_event ev r).1 _ (one_event-Clocked ev r v)
      (run_rule-Spaced evs (one_event ev r).0 (one_event-IsValid ev r v))

-- The counter and the configuration of a rule after a sequence of events.
record Counted (r r' : Rule) (fires : List Fire) : Type 0 where
  counter : r'.fires ≡ r.fires + length fires
  same_config : r'.config ≡ r.config
  still_valid : IsValid r'

Counted-step :
    (r r' r'' : Rule) (fire : Option Fire) (fs : List Fire)
    → Clocked r r' fire
    → Counted r' r'' fs
    → Counted r r'' (to_list fire ++ fs)
Counted-step r r' r'' none fs c d = record {
  counter = ground (arith, d.counter, c.2);
  same_config = d.same_config ∙ c.3;
  still_valid = d.still_valid;
}
Counted-step r r' r'' (some f) fs c d = record {
  counter = ground (arith, d.counter, c.3);
  same_config = d.same_config ∙ c.4;
  still_valid = d.still_valid;
}

run_rule-Counted :
    (evs : List RuleEvent) (r : Rule) → IsValid r → Counted r (run_rule evs r).0 (run_rule evs r).1
unfolding run_rule
run_rule-Counted [] r v = record { counter = omega arith; same_config = refl; still_valid = v }
run_rule-Counted (ev ∷ evs) r v =
    Counted-step r (one_event ev r).0 _ (one_event ev r).1 _ (one_event-Clocked ev r v)
      (run_rule-Counted evs (one_event ev r).0 (one_event-IsValid ev r v))

WithinFires-le : (n fires : ℕ) (d : Bool) → WithinFires (some n) fires d → fires ≤ n
WithinFires-le n fires true h = omega arith
WithinFires-le n fires false h = omega arith

-- A rule with a limit on its fires, whatever it meets from now on, fires at most as often as the
-- limit leaves over from the fires it has counted.
pub run_rule_limited :
    (evs : List RuleEvent) (r : Rule) (n : ℕ)
    → IsValid r
    → max_fires_allowed r.config.max_fires ≡ some n
    → r.fires + length (run_rule evs r).1 ≤ n
run_rule_limited evs r n v h =
    let d = run_rule-Counted evs r v in
    let r' = (run_rule evs r).0 in
    let within : r'.fires ≤ n = WithinFires-le n r'.fires r'.disabled (
      subst (λ o. WithinFires o r'.fires r'.disabled)
        (ap (λ (c : RuleConfig). max_fires_allowed c.max_fires) d.same_config ∙ h)
        d.still_valid.fires_bounded) in
    omega (arith, d.counter)
