-- ===== src/Notify/Rule/Built.antt =====
-- internal/notify/notify.go: what a rule that passed validation satisfies, and goes on satisfying.
use logdoc.Common.{
  ℕ, ◌+◌, ◌*◌, ◌≡◌, ◌≤◌, ◌<◌, Bool, true, false, Option, none, some, List, [], ok, arith, length,
  length-replicate, refl, replicate, Bool-cases, inl, inr, subst, >>=-eq-ok, ok_eq,
}
use logdoc.Common.Int.{ℤ, or_default, or_default_pos}
use logdoc.Common.Text.{Text, is_empty, text_eq}
use logdoc.Common.Platform.{Platform}
use logdoc.Notify.Match.{MatchFunc}
use logdoc.Notify.Rule.{
  RuleConfig, Rule, Source, error_threshold, silence, max_fires_allowed, bucket_count,
  build_threshold, build_silence, build_kind, build_rule, check_channels, slot, max_captured, fresh,
  default_silence_window, default_window, compile_condition, type_error_threshold, type_silence,
}

-- The fires of a rule stay within the number it is allowed, and it is retired when they reach it.
abbrev pub WithinFires : Option ℕ → ℕ → Bool → Type 0
WithinFires none fires disabled = disabled ≡ false
WithinFires (some n) fires true = fires ≡ n
WithinFires (some n) fires false = fires < n

pub record IsValid (r : Rule) : Type 0 where
  pub window_pos : 0 < r.window
  pub cooldown_pos : 0 < r.cooldown
  pub threshold_pos : r.kind ≡ error_threshold → 0 < r.threshold
  pub in_ring : r.kind ≡ error_threshold → r.cur < length r.buckets
  pub ring_covers : r.kind ≡ error_threshold → r.window ≤ length r.buckets * slot
  pub ring_tight : r.kind ≡ error_threshold → length r.buckets * slot < r.window + slot
  pub captured : length r.entries ≤ max_captured
  pub fires_bounded : WithinFires (max_fires_allowed r.config.max_fires) r.fires r.disabled
  pub watched : r.kind ≡ silence → is_empty r.config.app ≡ false

fresh_fires : (z : Option ℤ) → WithinFires (max_fires_allowed z) 0 false
unfolding max_fires_allowed
fresh_fires none = refl
fresh_fires (some z) = or_default_pos 1 z (omega arith)

fresh-IsValid_threshold :
    (rc : RuleConfig) (threshold window n : ℕ) (source : Source) (f : Option MatchFunc)
    → 0 < threshold
    → 0 < window
    → bucket_count window ≡ ok n
    → IsValid (fresh rc error_threshold threshold window source f (replicate n 0))
unfolding bucket_count
fresh-IsValid_threshold rc threshold window n source f t w h = record {
  window_pos = w;
  cooldown_pos = or_default_pos _ rc.cooldown (omega arith);
  threshold_pos = λ e. t;
  in_ring = λ e. rw length-replicate (ground arith);
  ring_covers = λ e. rw length-replicate (ground arith);
  ring_tight = λ e. rw length-replicate (ground arith);
  captured = omega arith;
  fires_bounded = fresh_fires rc.max_fires;
  watched = λ e. cc;
}

fresh-IsValid_silence :
    (rc : RuleConfig) (source : Source)
    → is_empty rc.app ≡ false
    → IsValid (fresh rc silence 0 (or_default default_silence_window rc.window) source none [])
fresh-IsValid_silence rc source a = record {
  window_pos = or_default_pos _ rc.window (omega arith);
  cooldown_pos = or_default_pos _ rc.cooldown (omega arith);
  threshold_pos = λ e. cc;
  in_ring = λ e. cc;
  ring_covers = λ e. cc;
  ring_tight = λ e. cc;
  captured = omega arith;
  fires_bounded = fresh_fires rc.max_fires;
  watched = λ e. a;
}

build_silence-IsValid :
    (rc : RuleConfig) (source : Source) {r : Rule} → build_silence rc source ≡ ok r → IsValid r
unfolding build_silence
build_silence-IsValid rc source {r} h = elim (Bool-cases (is_empty rc.app)) [
  | inl e ↦ absurd (ground arith)
  | inr e ↦ subst IsValid (same e) (fresh-IsValid_silence rc source e)
]
  where
    same :
        is_empty rc.app ≡ false
        → fresh rc silence 0 (or_default default_silence_window rc.window) source none [] ≡ r
    same e = ground arith

build_threshold-IsValid :
    (go : Platform) (rc : RuleConfig) (source : Source) {r : Rule}
    → build_threshold go rc source ≡ ok r
    → IsValid r
unfolding build_threshold
build_threshold-IsValid go rc source {r} h =
    let (n, counted, rest) =
      >>=-eq-ok (bucket_count (or_default default_window rc.window)) _ {b = r} h in
    let (f, compiled, built) = >>=-eq-ok (compile_condition go rc.condition) _ {b = r} rest in
    subst IsValid (ok_eq built) (
      fresh-IsValid_threshold rc _ _ n source f (or_default_pos _ rc.threshold (omega arith))
        (or_default_pos _ rc.window (omega arith)) counted)

build_kind-IsValid :
    (go : Platform) (rc : RuleConfig) (source : Source) {r : Rule}
    → build_kind go rc source ≡ ok r
    → IsValid r
unfolding build_kind
build_kind-IsValid go rc source {r} h = elim (Bool-cases (text_eq rc.typ type_error_threshold)) [
  | inl e ↦ build_threshold-IsValid go rc source (rw e at h)
  | inr e ↦ elim (Bool-cases (text_eq rc.typ type_silence)) [
    | inl k ↦ build_silence-IsValid rc source (rw (e, k) at h)
    | inr k ↦ absurd (ground arith)
  ]
]

check_channels-ok : (by_name : List Text) (r r' : Rule) → check_channels by_name r ≡ ok r' → r ≡ r'
unfolding check_channels
check_channels-ok by_name r r' h = ground arith

-- Every rule that validation lets through is valid: its ring of buckets covers the window with less
-- than one slot to spare, its window and cooldown are positive, it has not fired, and a silence rule
-- names the application that it watches.
pub build_rule-IsValid :
    (go : Platform) (by_name : List Text) (rc : RuleConfig) (source : Source) (r : Rule)
    → build_rule go by_name rc source ≡ ok r
    → IsValid r
unfolding build_rule
build_rule-IsValid go by_name rc source r h = elim (Bool-cases (is_empty rc.name)) [
  | inl e ↦ absurd (ground arith)
  | inr e ↦
      let (r', built, checked) =
        >>=-eq-ok (build_kind go rc source) (check_channels by_name) {b = r} (rw e at h) in
      subst IsValid (check_channels-ok by_name r' r checked) (build_kind-IsValid go rc source built)
]
