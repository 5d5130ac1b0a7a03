-- ===== src/Notify/Engine/Keeps.antt =====
-- internal/notify/notify.go: the rules stay valid, whatever entries and ticks arrive.
use logdoc.Common.{
  ℕ, zero, suc, ◌+◌, ◌%◌, ◌≡◌, ◌≤◌, ◌<◌, refl, ap, true, false, Option, List, [], ◌∷◌, arith,
  length, length-append, map, Bool-cases, inl, inr, ◌∙◌,
}
use logdoc.Common.Text.{Text, text_Eq}
use logdoc.Common.Map.{lookup}
use logdoc.Model.{Time, Entry}
use logdoc.Notify.Rule.{Rule, Captured, error_threshold, max_captured}
use logdoc.Notify.Rule.Built.{IsValid}
use logdoc.Notify.Engine.{
  bump, capture, observe, expire, clear, count_fire, advance, due, tick_threshold, tick_silence,
  tick_rule,
}

length-bump : (bs : List ℕ) (i : ℕ) → length (bump bs i) ≡ length bs
unfolding bump
length-bump [] i = refl
length-bump (b ∷ bs) zero = refl
length-bump (b ∷ bs) (suc i) = ap suc (length-bump bs i)

length-clear : (bs : List ℕ) (i : ℕ) → length (clear bs i) ≡ length bs
unfolding clear
length-clear [] i = refl
length-clear (b ∷ bs) zero = refl
length-clear (b ∷ bs) (suc i) = ap suc (length-clear bs i)

length-zeros : (bs : List ℕ) → length {A = ℕ} (map (λ _. 0) bs) ≡ length bs
length-zeros [] = refl
length-zeros (b ∷ bs) = ap suc (length-zeros bs)

length-expire :
    (window : ℕ) (now : Time) (cs : List Captured) → length (expire window now cs) ≤ length cs
unfolding expire
length-expire window now [] = omega arith
length-expire window now (c ∷ cs) = ground (arith, length-expire window now cs)

length-capture :
    (cs : List Captured) (c : Captured)
    → length cs ≤ max_captured
    → length (capture cs c) ≤ max_captured
unfolding capture
length-capture [] c h = omega arith
length-capture (d ∷ cs) c h =
    ground (arith, length-append cs (c ∷ []), length-append (d ∷ cs) (c ∷ []))

pub observe-IsValid : (e : Entry) (now : Time) (r : Rule) → IsValid r → IsValid (observe e now r)
unfolding observe
observe-IsValid e now r v =
    ground (
      arith,
      length-bump r.buckets r.cur,
      length-capture r.entries (record { entry = e; at = now }),
    )

next_in_ring : (i n : ℕ) → i < n → (i + 1) % n < n
next_in_ring i zero h = elim h [ ]
next_in_ring i (suc n) h = grind arith

advance-IsValid : (r : Rule) → r.kind ≡ error_threshold → IsValid r → IsValid (advance r)
unfolding advance
advance-IsValid r k v = ground (
  arith,
  length-clear r.buckets ((r.cur + 1) % length r.buckets),
  next_in_ring r.cur (length r.buckets),
)

count_fire-IsValid : (r : Rule) → r.disabled ≡ false → IsValid r → IsValid (count_fire r)
unfolding count_fire
count_fire-IsValid r d v = ground arith

emptied-IsValid :
    (r : Rule) (cs : List Captured) (t : Time)
    → length cs ≤ length r.entries
    → IsValid r
    → IsValid (record r { last_fired = t; entries = cs; buckets = map (λ _. 0) r.buckets })
emptied-IsValid r cs t h v = ground (arith, length-zeros r.buckets)

kind-count_fire : (r : Rule) → (count_fire r).kind ≡ r.kind
unfolding count_fire
kind-count_fire r = refl

tick_threshold-IsValid :
    (now : Time) (r : Rule)
    → r.kind ≡ error_threshold
    → r.disabled ≡ false
    → IsValid r
    → IsValid (tick_threshold now r).0
unfolding tick_threshold
tick_threshold-IsValid now r k d v =
    elim (Bool-cases (due (record r { entries = expire r.window now r.entries }) now)) [
      | inl e ↦ rw e (
          advance-IsValid _ (kind-count_fire _ ∙ k)
            (count_fire-IsValid _ d (emptied-IsValid r [] now (omega arith) v)))
      | inr e ↦ rw e (
          advance-IsValid (record r { entries = expire r.window now r.entries }) k
            (ground (arith, length-expire r.window now r.entries)))
    ]

tick_silence-IsValid :
    (now : Time) (last : Option Time) (r : Rule)
    → r.disabled ≡ false
    → IsValid r
    → IsValid (tick_silence now last r).0
unfolding tick_silence
tick_silence-IsValid now last r d v =
    ground (arith, count_fire-IsValid (record r { silenced = true; last_fired = now }))

pub tick_rule-IsValid :
    (now : Time) (seen : List (Text × Time)) (r : Rule)
    → IsValid r
    → IsValid (tick_rule now seen r).0
unfolding tick_rule
tick_rule-IsValid now seen r v =
    ground
      (arith, tick_threshold-IsValid now r, tick_silence-IsValid now (lookup r.config.app seen) r)
