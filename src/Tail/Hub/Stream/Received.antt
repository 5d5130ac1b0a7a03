-- ===== src/Tail/Hub/Stream/Received.antt =====
-- internal/tail/hub.go: what a subscriber receives is what it wants, less what a full buffer skips.
use mathlib.Core.List.{append_assoc, append-nil}
use logdoc.Common.{
  ◌≡◌, ◌≤◌, ◌<◌, refl, sym, ap, ◌∙◌, true, false, ◌&&◌, List, [], ◌∷◌, ◌++◌, arith, ltb, length,
  length-append, Bool-cases, inl, inr, subst,
}
use logdoc.Common.Platform.{Platform}
use logdoc.Model.{Entry}
use logdoc.Query.Plan.{matches}
use logdoc.Tail.Hub.{Subscriber, subscriber_buffer, send, offer, close, take_one, behind_head}
use logdoc.Tail.Hub.Stream.{
  SubEvent, offered, received, cancelled, got, sub_step, sub_run, wanted, Thinned, keep,
  Thinned-refl, Thinned-trans, Thinned-insert,
}

module _ (go : Platform) where
  -- A subscriber that differs in its buffer wants the same.
  wanted-same :
      (s t : Subscriber) (evs : List SubEvent)
      → s.plan ≡ t.plan
      → s.active ≡ t.active
      → wanted go s evs ≡ wanted go t evs
  unfolding wanted
  wanted-same s t [] p a = refl
  wanted-same s t (offered e ∷ evs) p a = ground (arith, wanted-same s t evs p a)
  wanted-same s t (received ∷ evs) p a = wanted-same s t evs p a
  wanted-same s t (cancelled ∷ evs) p a = refl

  wanted_closed : (s : Subscriber) (evs : List SubEvent) → s.active ≡ false → wanted go s evs ≡ []
  unfolding wanted
  wanted_closed s [] a = refl
  wanted_closed s (offered e ∷ evs) a = ground (arith, wanted_closed s evs a)
  wanted_closed s (received ∷ evs) a = wanted_closed s evs a
  wanted_closed s (cancelled ∷ evs) a = refl

  -- A receive takes the head of the buffer.
  got-behind_head : (ch w : List Entry) → got ch ++ (behind_head ch ++ w) ≡ ch ++ w
  got-behind_head [] w = refl
  got-behind_head (e ∷ ch) w = refl

  -- What the reader has got by an event, what is buffered after it, and what is wanted from then on.
  abbrev after : SubEvent → List SubEvent → Subscriber → List Entry
  after ev evs s =
      let s' = (sub_step go ev s).0 in (sub_step go ev s).1 ++ (s'.ch ++ wanted go s' evs)

  after_received :
      (evs : List SubEvent) (s : Subscriber) → after received evs s ≡ s.ch ++ wanted go s evs
  unfolding take_one
  after_received evs s =
      ap (λ w. got s.ch ++ (behind_head s.ch ++ w)) (wanted-same (take_one s) s evs refl refl)
      ∙ got-behind_head s.ch (wanted go s evs)

  after_cancelled : (evs : List SubEvent) (s : Subscriber) → after cancelled evs s ≡ s.ch ++ []
  unfolding close
  after_cancelled evs s = ap (λ w. s.ch ++ w) (wanted_closed (close s) evs refl)

  after_unwanted :
      (e : Entry) (evs : List SubEvent) (s : Subscriber)
      → (s.active && matches go s.plan e) ≡ false
      → after (offered e) evs s ≡ s.ch ++ wanted go s (offered e ∷ evs)
  unfolding offer wanted
  after_unwanted e evs s n = rw n refl

  after_buffered :
      (e : Entry) (evs : List SubEvent) (s : Subscriber)
      → (s.active && matches go s.plan e) ≡ true
      → ltb (length s.ch) subscriber_buffer ≡ true
      → after (offered e) evs s ≡ s.ch ++ wanted go s (offered e ∷ evs)
  unfolding offer send
  after_buffered e evs s y room =
      rw (y, room)
        (append_assoc s.ch (e ∷ []) _
          ∙ ap (λ w. s.ch ++ e ∷ w) (wanted-same (record s { ch = s.ch ++ e ∷ [] }) s evs refl refl)
          ∙ ap (λ w. s.ch ++ w) (unfold wanted in rw y refl))

  after_skipped :
      (e : Entry) (evs : List SubEvent) (s : Subscriber)
      → (s.active && matches go s.plan e) ≡ true
      → ltb (length s.ch) subscriber_buffer ≡ false
      → Thinned (after (offered e) evs s) (s.ch ++ wanted go s (offered e ∷ evs))
  unfolding offer send wanted
  after_skipped e evs s y full = rw (y, full) (Thinned-insert s.ch e (wanted go s evs))

  Thinned-eq : {xs ys : List Entry} → xs ≡ ys → Thinned xs ys
  Thinned-eq {xs} p = subst (Thinned xs) p (Thinned-refl xs)

  -- One event keeps the buffer with what is still wanted in step with what was wanted before.
  after-Thinned :
      (ev : SubEvent) (evs : List SubEvent) (s : Subscriber)
      → Thinned (after ev evs s) (s.ch ++ wanted go s (ev ∷ evs))
  after-Thinned (offered e) evs s = elim (Bool-cases (s.active && matches go s.plan e)) [
    | inr n ↦ Thinned-eq (after_unwanted e evs s n)
    | inl y ↦ elim (Bool-cases (ltb (length s.ch) subscriber_buffer)) [
      | inl room ↦ Thinned-eq (after_buffered e evs s y room)
      | inr full ↦ after_skipped e evs s y full
    ]
  ]
  after-Thinned received evs s = Thinned-eq (unfold wanted in after_received evs s)
  after-Thinned cancelled evs s = Thinned-eq (unfold wanted in after_cancelled evs s)

  Thinned-under :
      (out : List Entry) {xs ys : List Entry} → Thinned xs ys → Thinned (out ++ xs) (out ++ ys)
  Thinned-under [] t = t
  Thinned-under (e ∷ out) t = keep e (Thinned-under out t)

  sub_run_step :
      (ev : SubEvent) (evs : List SubEvent) (s : Subscriber)
      → let s' = (sub_step go ev s).0 in
        Thinned ((sub_run go evs s').1 ++ (sub_run go evs s').0.ch) (s'.ch ++ wanted go s' evs)
        → Thinned
            ((sub_run go (ev ∷ evs) s).1 ++ (sub_run go (ev ∷ evs) s).0.ch)
            (s.ch ++ wanted go s (ev ∷ evs))
  unfolding sub_run
  sub_run_step ev evs s ih =
      rw (append_assoc (sub_step go ev s).1)
        (Thinned-trans (after-Thinned ev evs s) (Thinned-under (sub_step go ev s).1 ih))

  -- The reader of a subscriber gets matching entries only, each at most once and in the order of the
  -- stream, and nothing that arrived after the cancellation.
  pub sub_run-Thinned :
      (evs : List SubEvent) (s : Subscriber)
      → Thinned ((sub_run go evs s).1 ++ (sub_run go evs s).0.ch) (s.ch ++ wanted go s evs)
  sub_run-Thinned [] s = unfold sub_run wanted in rw (append-nil s.ch) (Thinned-refl s.ch)
  sub_run-Thinned (ev ∷ evs) s = sub_run_step ev evs s (sub_run-Thinned evs (sub_step go ev s).0)

  length-cons_tail :
      (ch : List Entry) (e : Entry) (w : List Entry) → length ch < length (ch ++ e ∷ w)
  length-cons_tail [] e w = omega arith
  length-cons_tail (c ∷ ch) e w = omega (arith, length-cons_tail ch e w)

  after-roomy :
      (ev : SubEvent) (evs : List SubEvent) (s : Subscriber)
      → length (s.ch ++ wanted go s (ev ∷ evs)) ≤ subscriber_buffer
      → after ev evs s ≡ s.ch ++ wanted go s (ev ∷ evs)
  after-roomy (offered e) evs s h = elim (Bool-cases (s.active && matches go s.plan e)) [
    | inr n ↦ after_unwanted e evs s n
    | inl y ↦ elim (Bool-cases (ltb (length s.ch) subscriber_buffer)) [
      | inl room ↦ after_buffered e evs s y room
      | inr full ↦ absurd (no_room y full)
    ]
  ]
    where
      no_room :
          (s.active && matches go s.plan e) ≡ true → ltb (length s.ch) subscriber_buffer ≡ false → ⊥
      no_room y full =
          let more : wanted go s (offered e ∷ evs) ≡ e ∷ wanted go s evs =
            unfold wanted in rw y refl in
          ground
            (arith, ap (λ w. length (s.ch ++ w)) more, length-cons_tail s.ch e (wanted go s evs), h)
  after-roomy received evs s h = unfold wanted in after_received evs s
  after-roomy cancelled evs s h = unfold wanted in after_cancelled evs s

  lossless_step :
      (ev : SubEvent) (evs : List SubEvent) (s : Subscriber)
      → after ev evs s ≡ s.ch ++ wanted go s (ev ∷ evs)
      → let s' = (sub_step go ev s).0 in
        (sub_run go evs s').1 ++ (sub_run go evs s').0.ch ≡ s'.ch ++ wanted go s' evs
        → (sub_run go (ev ∷ evs) s).1 ++ (sub_run go (ev ∷ evs) s).0.ch
          ≡ s.ch ++ wanted go s (ev ∷ evs)
  unfolding sub_run
  lossless_step ev evs s same ih =
      let out = (sub_step go ev s).1 in append_assoc out _ _ ∙ ap (λ l. out ++ l) ih ∙ same

  -- If the buffer has room for all that is wanted, nothing is lost: what the reader got and what is
  -- buffered is all that was buffered before and every entry of interest.
  pub sub_run_lossless :
      (evs : List SubEvent) (s : Subscriber)
      → length (s.ch ++ wanted go s evs) ≤ subscriber_buffer
      → (sub_run go evs s).1 ++ (sub_run go evs s).0.ch ≡ s.ch ++ wanted go s evs
  sub_run_lossless [] s h = unfold sub_run wanted in sym (append-nil s.ch)
  sub_run_lossless (ev ∷ evs) s h =
      let s' = (sub_step go ev s).0 in
      let out = (sub_step go ev s).1 in
      let same = after-roomy ev evs s h in
      let smaller : length (s'.ch ++ wanted go s' evs) ≤ subscriber_buffer =
        omega (arith, length-append out (s'.ch ++ wanted go s' evs), ap (λ l. length l) same) in
      lossless_step ev evs s same (sub_run_lossless evs s' smaller)
