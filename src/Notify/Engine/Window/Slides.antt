-- ===== src/Notify/Engine/Window/Slides.antt =====
-- internal/notify/notify.go: entries and ticks of a threshold rule, seen on its sliding window.
use mathlib.Core.List.{reverse, map-append}
use logdoc.Common.{
  ℕ, zero, suc, ◌≡◌, ◌<◌, refl, sym, ap, ◌∙◌, Bool, ◌&&◌, none, some, List, [], ◌∷◌, ◌++◌, arith,
  length, map, if◌then◌else◌, leb, take, drop, Bool-cases, inl, inr, not, All, ltb, ◌≤◌, ◌+◌,
}
use logdoc.Common.Int.{sub_time}
use logdoc.Model.{Time, Entry, level_string}
use logdoc.Notify.Rule.{Rule, Captured, error_threshold}
use logdoc.Notify.Rule.Built.{IsValid}
use logdoc.Notify.Engine.{
  sum, observe, matches, advance, count_fire, due, expire, tick_threshold, threshold_event,
  to_event_entry, EventEntry,
}
use logdoc.Notify.Engine.Window.{
  window, count_head, slide, reverse-cons, sum-window, window-bump, window-clear,
}

abbrev pub zeros : List ℕ → List ℕ
zeros = map (λ _. 0)

-- The counts of the last slots, newest first.
abbrev pub window_of : Rule → List ℕ
window_of r = window r.buckets r.cur

take-zeros : (n : ℕ) (xs : List ℕ) → take n (zeros xs) ≡ zeros (take n xs)
take-zeros zero xs = refl
take-zeros (suc n) [] = refl
take-zeros (suc n) (x ∷ xs) = ap (λ l. 0 ∷ l) (take-zeros n xs)

drop-zeros : (n : ℕ) (xs : List ℕ) → drop n (zeros xs) ≡ zeros (drop n xs)
drop-zeros zero xs = refl
drop-zeros (suc n) [] = refl
drop-zeros (suc n) (x ∷ xs) = drop-zeros n xs

reverse-zeros : (xs : List ℕ) → reverse (zeros xs) ≡ zeros (reverse xs)
reverse-zeros [] = refl
reverse-zeros (x ∷ xs) =
    reverse-cons 0 (zeros xs)
    ∙ ap (λ l. l ++ 0 ∷ []) (reverse-zeros xs)
    ∙ sym (ap zeros (reverse-cons x xs) ∙ map-append (λ _. 0) (reverse xs) (x ∷ []))

window-zeros : (bs : List ℕ) (cur : ℕ) → window (zeros bs) cur ≡ zeros (window bs cur)
unfolding window
window-zeros bs cur = simp (take-zeros, drop-zeros, reverse-zeros, map-append)

-- For a valid threshold rule, an entry adds one to the newest slot of its sliding window exactly if
-- the rule is active and the entry matches.
pub window-observe :
    (e : Entry) (now : Time) (r : Rule)
    → IsValid r
    → r.kind ≡ error_threshold
    → window_of (observe e now r)
      ≡ (if not r.disabled && matches r e then count_head (window_of r) else window_of r)
unfolding observe
window-observe e now r v k = ground (arith, window-bump r.buckets r.cur)

-- The decision of a tick, on the window.
abbrev pub window_due : Rule → Time → Bool
window_due r now = leb r.threshold (sum (window_of r)) && leb r.cooldown (sub_time now r.last_fired)

due-window :
    (r : Rule) (now : Time)
    → due (record r { entries = expire r.window now r.entries }) now ≡ window_due r now
unfolding due
due-window r now = rw (sum-window r.buckets r.cur) refl

advance-window : (r : Rule) → r.cur < length r.buckets → window_of (advance r) ≡ slide (window_of r)
unfolding advance
advance-window r h = window-clear r.buckets r.cur h

length-zeros : (bs : List ℕ) → length (zeros bs) ≡ length bs
length-zeros [] = refl
length-zeros (b ∷ bs) = ap suc (length-zeros bs)

-- A rule as it is when its fire has been counted.
fired-window :
    (now : Time) (r : Rule)
    → r.cur < length r.buckets
    → window_of (
        advance
          (count_fire (record r { last_fired = now; entries = []; buckets = zeros r.buckets })))
      ≡ slide (zeros (window_of r))
unfolding count_fire
fired-window now r h =
    advance-window
      (count_fire (record r { last_fired = now; entries = []; buckets = zeros r.buckets }))
      (omega (arith, length-zeros r.buckets))
    ∙ ap slide (window-zeros r.buckets r.cur)

-- An entry that was captured longer ago than the window.
abbrev pub IsExpired : ℕ → Time → Captured → Type 0
IsExpired window now c = c.at + window < now

-- The oldest of the entries, if there is one, lies in the window.
abbrev pub IsCurrent : ℕ → Time → List Captured → Type 0
IsCurrent window now [] = Unit
IsCurrent window now (c ∷ cs) = now ≤ c.at + window

-- The entries as an expired prefix and a current rest.
pub record IsSplit (window : ℕ) (now : Time) (cs gone kept : List Captured) : Type 0 where
  pub whole : cs ≡ gone ++ kept
  pub expired : All (IsExpired window now) gone
  pub current : IsCurrent window now kept

expire-append :
    (window : ℕ) (now : Time) (gone kept : List Captured)
    → All (IsExpired window now) gone
    → IsCurrent window now kept
    → expire window now (gone ++ kept) ≡ kept
unfolding expire
expire-append window now [] [] h k = refl
expire-append window now [] (c ∷ cs) h k = ground arith
expire-append window now (c ∷ gone) kept h k =
    let g : c.at + window < now = h.0 in ground (arith, expire-append window now gone kept h.1 k)

expire-IsSplit :
    (window : ℕ) (now : Time) (cs gone kept : List Captured)
    → IsSplit window now cs gone kept
    → expire window now cs ≡ kept
expire-IsSplit window now cs gone kept s =
    ap (expire window now) s.whole ∙ expire-append window now gone kept s.expired s.current

-- What an event shows of an entry.
abbrev pub shown : Captured → EventEntry
shown c = record {
  ts = c.entry.ts;
  app = c.entry.app;
  src = c.entry.src;
  lvl = level_string c.entry.lvl;
  pid = c.entry.pid;
  msg = c.entry.msg;
  fields = c.entry.fields;
}

-- Any entries can be split so.
pub IsSplit-all :
    (window : ℕ) (now : Time) (cs : List Captured)
    → (gone : List Captured) × (kept : List Captured) × IsSplit window now cs gone kept
IsSplit-all window now [] = ([], [], record { whole = refl; expired = tt; current = tt })
IsSplit-all window now (c ∷ cs) = elim (Bool-cases (ltb (c.at + window) now)) [
  | inl e ↦
      let rest = IsSplit-all window now cs in
      (
        c ∷ rest.0,
        rest.1,
        record {
          whole = ap (λ l. c ∷ l) rest.2.whole;
          expired = (ground arith, rest.2.expired);
          current = rest.2.current;
        },
      )
  | inr e ↦ ([], c ∷ cs, record { whole = refl; expired = tt; current = ground arith })
]

-- At a tick a valid threshold rule, whose captured entries are an expired prefix and a rest of which
-- the oldest is not expired, fires exactly if the counts of its sliding window add up to the
-- threshold and the cooldown is over; the event names the rule, its type and application, and carries
-- that sum, the window, the time of the tick and exactly the entries of the rest, and goes to the
-- channels of the rule. After a fire the window and the captured entries are empty; without one the
-- rest of the entries stays. Either way the window then slides by one slot.
pub tick_threshold-window :
    (now : Time) (r : Rule) (gone kept : List Captured)
    → IsValid r
    → r.kind ≡ error_threshold
    → IsSplit r.window now r.entries gone kept
    → ((tick_threshold now r).1 ≡ (
        if window_due r now
        then some (record {
          ev = record {
            rule = r.config.name;
            typ = r.config.typ;
            app = r.config.app;
            count = sum (window_of r);
            window = r.window;
            ts = now;
            entries = map shown kept;
          };
          channels = r.config.channels;
        })
        else none))
      × (window_of (tick_threshold now r).0
          ≡ slide (if window_due r now then zeros (window_of r) else window_of r))
      × ((tick_threshold now r).0.entries ≡ (if window_due r now then [] else kept))
unfolding tick_threshold threshold_event to_event_entry advance count_fire
tick_threshold-window now r gone kept v k s =
    let x = expire-IsSplit r.window now r.entries gone kept s in
    elim (Bool-cases (window_due r now)) [
      | inl d ↦ (
        rw (due-window r now ∙ d, d, sum-window r.buckets r.cur, x) refl,
        rw (due-window r now ∙ d, d) (fired-window now r (v.in_ring k)),
        rw (due-window r now ∙ d, d) refl,
      )
      | inr d ↦ (
        rw (due-window r now ∙ d, d) refl,
        rw (due-window r now ∙ d, d)
            (advance-window (record r { entries = expire r.window now r.entries }) (v.in_ring k)),
        rw (due-window r now ∙ d, d) x,
      )
    ]
