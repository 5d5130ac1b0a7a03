-- ===== src/Tail/Hub/Stream.antt =====
-- internal/tail/hub.go: what one subscriber receives of the stream.
pub mod Received
use mathlib.Core.List.{append_assoc, append-nil}
use logdoc.Common.{
  ℕ, zero, suc, ◌+◌, ◌≡◌, ◌≤◌, ◌<◌, refl, sym, ap, ◌∙◌, Bool, true, false, ◌&&◌, Option, none, some,
  List, [], ◌∷◌, ◌++◌, arith, ltb, if◌then◌else◌, length, length-append, Bool-cases, inl, inr,
  subst,
}
use logdoc.Common.Platform.{Platform}
use logdoc.Model.{Entry}
use logdoc.Query.Plan.{matches}
use logdoc.Tail.Hub.{
  Subscriber, subscriber_buffer, send, offer, close, take_one, head_entry, behind_head,
}

-- What happens to one subscriber.
pub data SubEvent : Type 0 where
  offered : Entry → SubEvent
  received : SubEvent
  cancelled : SubEvent

-- The entry that a receive hands to the reader.
abbrev pub got : List Entry → List Entry
got [] = []
got (e ∷ es) = e ∷ []

module _ (go : Platform) where
  -- The subscriber after an event, and the entries that its reader gets by it.
  abbrev pub sub_step : SubEvent → Subscriber → Subscriber × List Entry
  sub_step (offered e) s = (offer go e s, [])
  sub_step received s = (take_one s, got s.ch)
  sub_step cancelled s = (close s, [])

  -- The subscriber after a sequence of events, and all that its reader got, in order.
  unfoldable pub sub_run : List SubEvent → Subscriber → Subscriber × List Entry
  sub_run [] s = (s, [])
  sub_run (ev ∷ evs) s =
      let (s', out) = sub_step ev s in let (s'', outs) = sub_run evs s' in (s'', out ++ outs)

  -- The entries of interest: those that match the plan, up to the cancellation.
  unfoldable pub wanted : Subscriber → List SubEvent → List Entry
  wanted s [] = []
  wanted s (offered e ∷ evs) =
      let rest = wanted s evs in if s.active && matches go s.plan e then e ∷ rest else rest
  wanted s (received ∷ evs) = wanted s evs
  wanted s (cancelled ∷ evs) = []

-- The first list comes from the second by leaving entries out; the order stays.
pub data Thinned : List Entry → List Entry → Type 0 where
  done : Thinned [] []
  keep : {xs ys : List Entry} (e : Entry) → Thinned xs ys → Thinned (e ∷ xs) (e ∷ ys)
  skip : {xs ys : List Entry} (e : Entry) → Thinned xs ys → Thinned xs (e ∷ ys)

pub Thinned-refl : (xs : List Entry) → Thinned xs xs
Thinned-refl [] = done
Thinned-refl (e ∷ xs) = keep e (Thinned-refl xs)

pub Thinned-trans : {xs ys zs : List Entry} → Thinned ys zs → Thinned xs ys → Thinned xs zs
Thinned-trans done t = t
Thinned-trans (keep e s) (keep e' t) = keep e (Thinned-trans s t)
Thinned-trans (keep e s) (skip e' t) = skip e (Thinned-trans s t)
Thinned-trans (skip e s) t = skip e (Thinned-trans s t)

pub Thinned-insert :
    (xs : List Entry) (e : Entry) (ys : List Entry) → Thinned (xs ++ ys) (xs ++ e ∷ ys)
Thinned-insert [] e ys = skip e (Thinned-refl ys)
Thinned-insert (x ∷ xs) e ys = keep x (Thinned-insert xs e ys)

Thinned-prefix : (xs ys : List Entry) → Thinned xs (xs ++ ys)
Thinned-prefix [] [] = done
Thinned-prefix [] (y ∷ ys) = skip y (Thinned-prefix [] ys)
Thinned-prefix (x ∷ xs) ys = keep x (Thinned-prefix xs ys)
