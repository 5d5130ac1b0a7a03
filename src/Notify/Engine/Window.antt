-- ===== src/Notify/Engine/Window.antt =====
-- internal/notify/notify.go: the ring of buckets is a sliding window of the last slots.
pub mod Slides
use mathlib.Core.List.{reverse, reverse-append, append_assoc, append-nil, map-append}
use logdoc.Common.{
  ℕ, zero, suc, ◌+◌, ◌*◌, ◌%◌, ◌≡◌, ◌≤◌, ◌<◌, refl, sym, ap, ◌∙◌, Bool, true, false, ◌&&◌, Option,
  none, some, List, [], ◌∷◌, ◌++◌, arith, length, length-append, map, if◌then◌else◌, leb, take,
  drop, Bool-cases, inl, inr, replicate, subst, not,
}
use logdoc.Common.Int.{sub_time}
use logdoc.Model.{Time, Entry}
use logdoc.Notify.Rule.{Rule, Kind, error_threshold}
use logdoc.Notify.Rule.Built.{IsValid}
use logdoc.Notify.Engine.{
  Fire, bump, clear, sum, observe, matches, advance, count_fire, due, expire, tick_threshold,
  threshold_event, is_threshold,
}

-- The counts of a ring, newest slot first: back from the current bucket, and round.
pub window : List ℕ → ℕ → List ℕ
window bs cur = reverse (take (suc cur) bs) ++ reverse (drop (suc cur) bs)

-- One more match in the newest slot.
abbrev pub count_head : List ℕ → List ℕ
count_head [] = []
count_head (n ∷ w) = (n + 1) ∷ w

abbrev drop_last : List ℕ → List ℕ
drop_last [] = []
drop_last (n ∷ []) = []
drop_last (n ∷ (m ∷ w)) = n ∷ drop_last (m ∷ w)

-- A new slot begins, and the oldest falls out.
abbrev pub slide : List ℕ → List ℕ
slide w = 0 ∷ drop_last w

sum-append : (xs ys : List ℕ) → sum (xs ++ ys) ≡ sum xs + sum ys
unfolding sum
sum-append [] ys = omega arith
sum-append (x ∷ xs) ys = omega (arith, sum-append xs ys)

pub reverse-cons : (x : ℕ) (xs : List ℕ) → reverse (x ∷ xs) ≡ reverse xs ++ x ∷ []
reverse-cons x xs = reverse-append (x ∷ []) xs

sum-snoc : (xs : List ℕ) (x : ℕ) → sum (xs ++ x ∷ []) ≡ x + sum xs
unfolding sum
sum-snoc xs x = omega (arith, sum-append xs (x ∷ []))

sum-cons : (x : ℕ) (xs : List ℕ) → sum (x ∷ xs) ≡ x + sum xs
unfolding sum
sum-cons x xs = refl

sum-reverse : (xs : List ℕ) → sum (reverse xs) ≡ sum xs
sum-reverse [] = refl
sum-reverse (x ∷ xs) =
    ap sum (reverse-cons x xs)
    ∙ sum-snoc (reverse xs) x
    ∙ omega (arith, sum-reverse xs, sum-cons x xs)

sum-take-drop : (n : ℕ) (xs : List ℕ) → sum (take n xs) + sum (drop n xs) ≡ sum xs
unfolding sum
sum-take-drop zero xs = omega arith
sum-take-drop (suc n) [] = omega arith
sum-take-drop (suc n) (x ∷ xs) = omega (arith, sum-take-drop n xs)

pub sum-window : (bs : List ℕ) (cur : ℕ) → sum (window bs cur) ≡ sum bs
unfolding window
sum-window bs cur =
    sum-append (reverse (take (suc cur) bs)) (reverse (drop (suc cur) bs))
    ∙ omega (
      arith,
      sum-reverse (take (suc cur) bs),
      sum-reverse (drop (suc cur) bs),
      sum-take-drop (suc cur) bs,
    )

-- The ring split at its current bucket.
record Split (bs : List ℕ) (cur : ℕ) : Type 0 where
  before : List ℕ
  current : ℕ
  after : List ℕ
  whole : bs ≡ before ++ current ∷ after
  position : length before ≡ cur

Split-at : (bs : List ℕ) (cur : ℕ) → cur < length bs → Split bs cur
Split-at [] cur h = absurd (omega arith)
Split-at (b ∷ bs) zero h = record {
  before = [];
  current = b;
  after = bs;
  whole = refl;
  position = refl;
}
Split-at (b ∷ bs) (suc cur) h =
    let s = Split-at bs cur (omega arith) in
    record {
      before = b ∷ s.before;
      current = s.current;
      after = s.after;
      whole = ap (λ l. b ∷ l) s.whole;
      position = ap suc s.position;
    }

take-split :
    (xs : List ℕ) (c : ℕ) (ys : List ℕ) → take (suc (length xs)) (xs ++ c ∷ ys) ≡ xs ++ c ∷ []
take-split [] c ys = refl
take-split (x ∷ xs) c ys = ap (λ l. x ∷ l) (take-split xs c ys)

drop-split : (xs : List ℕ) (c : ℕ) (ys : List ℕ) → drop (suc (length xs)) (xs ++ c ∷ ys) ≡ ys
drop-split [] c ys = refl
drop-split (x ∷ xs) c ys = drop-split xs c ys

window-split :
    (xs : List ℕ) (c : ℕ) (ys : List ℕ)
    → window (xs ++ c ∷ ys) (length xs) ≡ c ∷ (reverse xs ++ reverse ys)
unfolding window
window-split xs c ys = rw (take-split, drop-split, reverse-append) refl

bump-split :
    (xs : List ℕ) (c : ℕ) (ys : List ℕ) → bump (xs ++ c ∷ ys) (length xs) ≡ xs ++ (c + 1) ∷ ys
unfolding bump
bump-split [] c ys = refl
bump-split (x ∷ xs) c ys = ap (λ l. x ∷ l) (bump-split xs c ys)

clear-split : (xs : List ℕ) (c : ℕ) (ys : List ℕ) → clear (xs ++ c ∷ ys) (length xs) ≡ xs ++ 0 ∷ ys
unfolding clear
clear-split [] c ys = refl
clear-split (x ∷ xs) c ys = ap (λ l. x ∷ l) (clear-split xs c ys)

drop_last-append : (xs : List ℕ) (y : ℕ) → drop_last (xs ++ y ∷ []) ≡ xs
drop_last-append [] y = refl
drop_last-append (x ∷ []) y = refl
drop_last-append (x ∷ (x' ∷ xs)) y = ap (λ l. x ∷ l) (drop_last-append (x' ∷ xs) y)

-- A match counts in the newest slot of the window.
pub window-bump :
    (bs : List ℕ) (cur : ℕ)
    → cur < length bs
    → window (bump bs cur) cur ≡ count_head (window bs cur)
window-bump bs cur h =
    let s = Split-at bs cur h in
    rw (s.whole, ← s.position, bump-split s.before s.current s.after, window-split, window-split)
      refl

one_round : (n : ℕ) → (n + 1) % (n + 1) ≡ 0
one_round n = grind arith

within_round : (n m : ℕ) → (n + 1) % (n + suc (suc m)) ≡ suc n
within_round n m = grind arith

-- From the last bucket the ring goes on with its first.
clear_wrapped :
    (xs : List ℕ) (c : ℕ)
    → window (clear (xs ++ c ∷ []) 0) 0 ≡ slide (window (xs ++ c ∷ []) (length xs))
clear_wrapped [] c = rw (clear-split [] c []) (rw (window-split [] 0 [], window-split [] c []) refl)
clear_wrapped (x ∷ xs) c =
    rw
      (
        clear-split [] x (xs ++ c ∷ []),
        window-split [] 0 (xs ++ c ∷ []),
        window-split (x ∷ xs) c [],
      )
      (ap (λ l. 0 ∷ l)
        (reverse-append xs (c ∷ [])
          ∙ sym (
              ap drop_last (ap (λ l. c ∷ l) (append-nil (reverse (x ∷ xs)) ∙ reverse-cons x xs))
              ∙ drop_last-append (c ∷ reverse xs) x)))

clear_onward :
    (xs : List ℕ) (c y : ℕ) (ys : List ℕ)
    → window (clear (xs ++ c ∷ (y ∷ ys)) (suc (length xs))) (suc (length xs))
      ≡ slide (window (xs ++ c ∷ (y ∷ ys)) (length xs))
clear_onward xs c y ys = moved ∙ sym slid
  where
    passed : List ℕ
    passed = xs ++ c ∷ []

    count : suc (length xs) ≡ length passed
    count = omega (arith, length-append xs (c ∷ []))

    regroup : xs ++ c ∷ (y ∷ ys) ≡ passed ++ y ∷ ys
    regroup = sym (append_assoc xs (c ∷ []) (y ∷ ys))

    moved :
        window (clear (xs ++ c ∷ (y ∷ ys)) (suc (length xs))) (suc (length xs))
        ≡ 0 ∷ (c ∷ (reverse xs ++ reverse ys))
    moved =
        rw (regroup, count, clear-split passed y ys, window-split passed 0 ys)
          (ap (λ l. 0 ∷ (l ++ reverse ys)) (reverse-append xs (c ∷ [])))

    slid : slide (window (xs ++ c ∷ (y ∷ ys)) (length xs)) ≡ 0 ∷ (c ∷ (reverse xs ++ reverse ys))
    slid = rw (window-split xs c (y ∷ ys)) (
        ap (λ l. 0 ∷ l)
          (ap drop_last (
              ap (λ l. c ∷ l)
                (ap (λ l. reverse xs ++ l) (reverse-cons y ys)
                  ∙ sym (append_assoc (reverse xs) (reverse ys) (y ∷ []))))
            ∙ drop_last-append (c ∷ (reverse xs ++ reverse ys)) y))

-- Moving the ring on slides the window.
pub window-clear :
    (bs : List ℕ) (cur : ℕ)
    → cur < length bs
    → let next = (cur + 1) % length bs in window (clear bs next) next ≡ slide (window bs cur)
window-clear bs cur h =
    let s = Split-at bs cur h in
    subst
      (λ (l : List ℕ).
        window (clear l ((cur + 1) % length l)) ((cur + 1) % length l) ≡ slide (window l cur))
      (sym s.whole)
      (subst
        (λ (k : ℕ).
          let l = s.before ++ s.current ∷ s.after in
          window (clear l ((k + 1) % length l)) ((k + 1) % length l) ≡ slide (window l k))
        s.position (clear_next s.before s.current s.after))
  where
    clear_next :
        (xs : List ℕ) (c : ℕ) (ys : List ℕ)
        → let l = xs ++ c ∷ ys in
          let k = length xs in
          window (clear l ((k + 1) % length l)) ((k + 1) % length l) ≡ slide (window l k)
    clear_next xs c [] =
        let e : (length xs + 1) % length (xs ++ c ∷ []) ≡ 0 =
          rw (length-append xs (c ∷ [])) (one_round (length xs)) in
        rw e (clear_wrapped xs c)
    clear_next xs c (y ∷ ys) =
        let e : (length xs + 1) % length (xs ++ c ∷ (y ∷ ys)) ≡ suc (length xs) =
          rw (length-append xs (c ∷ (y ∷ ys))) (within_round (length xs) (length ys)) in
        rw e (clear_onward xs c y ys)
