-- ===== src/Tail/Hub/Isolation.antt =====
-- internal/tail/hub.go: the hub runs every subscriber by itself.
use mathlib.Core.Option
use logdoc.Common.{
  ℕ, ◌≡◌, ◌≤◌, ◌<◌, refl, sym, ap, ◌∙◌, true, false, Option, none, some, List, [], ◌∷◌, arith, ◌==◌,
  if◌then◌else◌, map, Bool-cases, inl, inr,
}
use logdoc.Common.Platform.{Platform}
use logdoc.Model.{Entry}
use logdoc.Query.Plan.{Plan}
use logdoc.Tail.Hub.{
  Hub, Subscriber, append, subscribe, cancel, receive, at_id, find_sub, offer, send, close,
  take_one,
}
use logdoc.Tail.Hub.Stream.{SubEvent, offered, received, cancelled, sub_step, sub_run}

pub data HubEvent : Type 0 where
  appended : Entry → HubEvent
  subscribed : Plan → HubEvent
  cancel_of : ℕ → HubEvent
  receive_of : ℕ → HubEvent

-- The hub after an event.
hub_step : Platform → HubEvent → Hub → Hub
hub_step go (appended e) h = append go e h
hub_step go (subscribed p) h = (subscribe p h).0
hub_step go (cancel_of j) h = cancel j h
hub_step go (receive_of j) h = (receive j h).0

pub hub_run : Platform → List HubEvent → Hub → Hub
hub_run go [] h = h
hub_run go (ev ∷ evs) h = hub_run go evs (hub_step go ev h)

-- What the events of the hub are for the subscriber `i`.
pub project : ℕ → List HubEvent → List SubEvent
project i [] = []
project i (appended e ∷ evs) = offered e ∷ project i evs
project i (subscribed p ∷ evs) = project i evs
project i (cancel_of j ∷ evs) =
    let rest = project i evs in if i == j then cancelled ∷ rest else rest
project i (receive_of j ∷ evs) =
    let rest = project i evs in if i == j then received ∷ rest else rest

offer-id : (go : Platform) (e : Entry) (s : Subscriber) → (offer go e s).id ≡ s.id
unfolding offer send
offer-id go e s = ground arith

find_sub-offer :
    (go : Platform) (e : Entry) (i : ℕ) (subs : List Subscriber)
    → find_sub i (map (offer go e) subs) ≡ Option.map (offer go e) (find_sub i subs)
unfolding find_sub
find_sub-offer go e i [] = refl
find_sub-offer go e i (s ∷ subs) = ground (arith, offer-id go e s, find_sub-offer go e i subs)

find_sub-at_id :
    (f : Subscriber → Subscriber)
    → ((s : Subscriber) → (f s).id ≡ s.id)
    → (i j : ℕ) (subs : List Subscriber)
    → find_sub i (at_id j f subs)
      ≡ (if i == j then Option.map f (find_sub i subs) else find_sub i subs)
unfolding find_sub at_id
find_sub-at_id f k i j [] = ground arith
find_sub-at_id f k i j (s ∷ subs) = ground (arith, k s, find_sub-at_id f k i j subs)

find_sub-hit :
    (f : Subscriber → Subscriber)
    → ((s : Subscriber) → (f s).id ≡ s.id)
    → (i j : ℕ) (subs : List Subscriber) → (i == j) ≡ true
    → find_sub i (at_id j f subs) ≡ Option.map f (find_sub i subs)
find_sub-hit f k i j subs y = find_sub-at_id f k i j subs ∙ rw y refl

find_sub-miss :
    (f : Subscriber → Subscriber)
    → ((s : Subscriber) → (f s).id ≡ s.id)
    → (i j : ℕ) (subs : List Subscriber) → (i == j) ≡ false
    → find_sub i (at_id j f subs) ≡ find_sub i subs
find_sub-miss f k i j subs n = find_sub-at_id f k i j subs ∙ rw n refl

-- Numbers already given out are below the next one, so a subscription does not touch them.
find_sub-subscribe :
    (p : Plan) (h : Hub) (i : ℕ)
    → i < h.next_id
    → find_sub i (subscribe p h).0.subs ≡ find_sub i h.subs
unfolding find_sub subscribe
find_sub-subscribe p h i lt = ground arith

next_id-step : (go : Platform) (ev : HubEvent) (h : Hub) → h.next_id ≤ (hub_step go ev h).next_id
unfolding hub_step append subscribe cancel receive
next_id-step go (appended e) h = omega arith
next_id-step go (subscribed p) h = omega arith
next_id-step go (cancel_of j) h = omega arith
next_id-step go (receive_of j) h = omega arith

close-id : (s : Subscriber) → (close s).id ≡ s.id
unfolding close
close-id s = refl

take_one-id : (s : Subscriber) → (take_one s).id ≡ s.id
unfolding take_one
take_one-id s = refl

-- The state of a subscriber after events of its own.
abbrev pub after_events : Platform → List SubEvent → Option Subscriber → Option Subscriber
after_events go evs o = Option.map (λ s. (sub_run go evs s).0) o

after_events-cons :
    (go : Platform) (ev : SubEvent) (evs : List SubEvent) (o : Option Subscriber)
    → after_events go evs (Option.map (λ s. (sub_step go ev s).0) o) ≡ after_events go (ev ∷ evs) o
unfolding sub_run
after_events-cons go ev evs none = refl
after_events-cons go ev evs (some s) = refl

after_events-nil : (go : Platform) (o : Option Subscriber) → after_events go [] o ≡ o
unfolding sub_run
after_events-nil go none = refl
after_events-nil go (some s) = refl

-- One event of the hub, as the subscriber `i` sees it.
project_step :
    (go : Platform) (ev : HubEvent) (evs : List HubEvent) (h : Hub) (i : ℕ)
    → i < h.next_id
    → after_events go (project i evs) (find_sub i (hub_step go ev h).subs)
      ≡ after_events go (project i (ev ∷ evs)) (find_sub i h.subs)
unfolding project hub_step append cancel receive
project_step go (appended e) evs h i lt =
    ap (after_events go (project i evs)) (find_sub-offer go e i h.subs)
    ∙ after_events-cons go (offered e) (project i evs) (find_sub i h.subs)
project_step go (subscribed p) evs h i lt =
    ap (after_events go (project i evs)) (find_sub-subscribe p h i lt)
project_step go (cancel_of j) evs h i lt = elim (Bool-cases (i == j)) [
  | inl y ↦ rw y (
      ap (after_events go (project i evs)) (find_sub-hit close close-id i j h.subs y)
      ∙ after_events-cons go cancelled (project i evs) (find_sub i h.subs))
  | inr n ↦ rw n (ap (after_events go (project i evs)) (find_sub-miss close close-id i j h.subs n))
]
project_step go (receive_of j) evs h i lt = elim (Bool-cases (i == j)) [
  | inl y ↦ rw y (
      ap (after_events go (project i evs)) (find_sub-hit take_one take_one-id i j h.subs y)
      ∙ after_events-cons go received (project i evs) (find_sub i h.subs))
  | inr n ↦
      rw n (ap (after_events go (project i evs)) (find_sub-miss take_one take_one-id i j h.subs n))
]

-- Whatever the hub goes through, what a subscriber is afterwards depends on the entries and on its
-- own receives and cancellation alone: other subscribers, slow or cancelled, change nothing for it.
pub hub_run-find_sub :
    (go : Platform) (evs : List HubEvent) (h : Hub) (i : ℕ)
    → i < h.next_id
    → find_sub i (hub_run go evs h).subs ≡ after_events go (project i evs) (find_sub i h.subs)
unfolding hub_run
hub_run-find_sub go [] h i lt = unfold project in sym (after_events-nil go (find_sub i h.subs))
hub_run-find_sub go (ev ∷ evs) h i lt =
    hub_run-find_sub go evs (hub_step go ev h) i (omega (arith, next_id-step go ev h))
    ∙ project_step go ev evs h i lt
