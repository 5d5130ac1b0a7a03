-- ===== src/Graph/Extractor/Shape.antt =====
-- internal/graph/extractor.go: what edges can look like, and how much memory the groups take.
use Prim.Native.Nat.{bit_or}
use logdoc.Common.{
  ℕ, ◌≡◌, ◌≤◌, ◌⊎◌, refl, Bool, true, false, not, ◌&&◌, Option, none, some, List, [], ◌∷◌, arith,
  leb, Bool-cases, Option-cases, inl, inr, All, length,
}
use logdoc.Common.Text.{Text, is_empty, text_eq, text_eq_iff, bytes}
use logdoc.Common.Map.{lookup, insert, All-insert, All-lookup, length-insert_new, length-insert_old}
use logdoc.Model.{Time, Entry}
use logdoc.Graph.Edges.{Origin, origin_trace, origin_inferred, EdgeKey, edge_key_Eq, origin_string}
use logdoc.Graph.Extractor.{
  Extractor, EdgeState, GroupKind, GroupKey, GroupState, group_key_Eq, bump_edge_state, bump_edge,
  link_known, link_group, link_signal, link_peer, count_node, append, flush, evict_groups,
  live_groups,
}

-- An origin that has been observed: by traces, by fields, or by both.
abbrev IsObserved : Origin → Type 0
IsObserved o = (o ≡ 1) ⊎ ((o ≡ 2) ⊎ (o ≡ 3))

-- An edge joins two different services that both have a name.
pub record IsEdge (ke : EdgeKey × EdgeState) : Type 0 where
  pub from_named : is_empty ke.0.src ≡ false
  pub to_named : is_empty ke.0.dst ≡ false
  pub no_loop : text_eq ke.0.src ke.0.dst ≡ false
  pub observed : IsObserved ke.1.origin

abbrev HasLastApp : GroupKey × GroupState → Type 0
HasLastApp kg = is_empty kg.1.last_app ≡ false

pub record IsValid (x : Extractor) : Type 0 where
  pub edges : All IsEdge x.edges
  pub groups : All HasLastApp x.groups
  pub capped : length x.groups ≤ x.max_groups

IsObserved-bit_or : (o p : Origin) → IsObserved o → (p ≡ 1) ⊎ (p ≡ 2) → IsObserved (bit_or o p)
IsObserved-bit_or o p (inl a) (inl b) = rw (a, b) (inl refl)
IsObserved-bit_or o p (inl a) (inr b) = rw (a, b) (inr (inr refl))
IsObserved-bit_or o p (inr (inl a)) (inl b) = rw (a, b) (inr (inr refl))
IsObserved-bit_or o p (inr (inl a)) (inr b) = rw (a, b) (inr (inl refl))
IsObserved-bit_or o p (inr (inr a)) (inl b) = rw (a, b) (inr (inr refl))
IsObserved-bit_or o p (inr (inr a)) (inr b) = rw (a, b) (inr (inr refl))

IsObserved-bump :
    (s : Option EdgeState) (o : Origin) (is_err : Bool) (now : Time)
    → ((t : EdgeState) → s ≡ some t → IsObserved t.origin)
    → (o ≡ 1) ⊎ (o ≡ 2)
    → IsObserved (bump_edge_state s o is_err now).origin
unfolding bump_edge_state
IsObserved-bump none o is_err now h (inl a) = rw a (inl refl)
IsObserved-bump none o is_err now h (inr b) = rw b (inr (inl refl))
IsObserved-bump (some t) o is_err now h k = IsObserved-bit_or t.origin o (h t refl) k

bump_edge-IsValid :
    (k : EdgeKey) (o : Origin) (is_err : Bool) (now : Time) (x : Extractor)
    → is_empty k.src ≡ false
    → is_empty k.dst ≡ false
    → text_eq k.src k.dst ≡ false
    → (o ≡ 1) ⊎ (o ≡ 2)
    → IsValid x
    → IsValid (bump_edge k o is_err now x)
unfolding bump_edge
bump_edge-IsValid k o is_err now x a b c d v = record {
  edges =
      All-insert IsEdge k (bump_edge_state (lookup k x.edges) o is_err now) x.edges
        (record {
          from_named = a;
          to_named = b;
          no_loop = c;
          observed =
              IsObserved-bump (lookup k x.edges) o is_err now
                (λ t found. (All-lookup IsEdge k t x.edges v.edges found).observed) d;
        })
        v.edges;
  groups = v.groups;
  capped = v.capped;
}

-- Writing the group of an application, once the edge to it has been counted.
set_group-IsValid :
    (gk : GroupKey) (app : Text) (now : Time) (x : Extractor)
    → is_empty app ≡ false
    → length (insert gk (record { last_app = app; last_seen = now }) x.groups) ≤ x.max_groups
    → IsValid x
    → IsValid
        (record x { groups = insert gk (record { last_app = app; last_seen = now }) x.groups })
set_group-IsValid gk app now x a h v = record {
  edges = v.edges;
  groups =
      All-insert HasLastApp gk (record { last_app = app; last_seen = now }) x.groups a v.groups;
  capped = h;
}

groups-bump_edge :
    (k : EdgeKey) (o : Origin) (is_err : Bool) (now : Time) (x : Extractor)
    → ((bump_edge k o is_err now x).groups ≡ x.groups)
      × ((bump_edge k o is_err now x).max_groups ≡ x.max_groups)
unfolding bump_edge
groups-bump_edge k o is_err now x = (refl, refl)

link_known-IsValid :
    (gk : GroupKey) (g : GroupState) (app : Text) (o : Origin) (is_err : Bool) (now : Time)
    (x : Extractor)
    → is_empty app ≡ false
    → (o ≡ 1) ⊎ (o ≡ 2)
    → length (insert gk (record { last_app = app; last_seen = now }) x.groups) ≤ x.max_groups
    → IsValid x
    → IsValid (link_known gk g app o is_err now x)
unfolding link_known
link_known-IsValid gk g app o is_err now x a d h v =
    elim (Bool-cases (not (is_empty g.last_app) && not (text_eq g.last_app app))) [
      | inr quiet ↦ rw quiet (set_group-IsValid gk app now x a h v)
      | inl linked ↦ rw linked (
          set_group-IsValid gk app now (bump_edge (edge linked) o is_err now x) a
            (unfold bump_edge in h)
            (bump_edge-IsValid (edge linked) o is_err now x (ground arith) a (ground arith) d v))
    ]
  where
    edge : (not (is_empty g.last_app) && not (text_eq g.last_app app)) ≡ true → EdgeKey
    edge l = record { tenant_id = gk.tenant_id; src = g.last_app; dst = app }

link_group-IsValid :
    (gk : GroupKey) (app : Text) (o : Origin) (is_err : Bool) (now : Time) (x : Extractor)
    → is_empty app ≡ false
    → (o ≡ 1) ⊎ (o ≡ 2)
    → IsValid x
    → IsValid (link_group gk app o is_err now x)
unfolding link_group
link_group-IsValid gk app o is_err now x a d v = elim (Option-cases (lookup gk x.groups)) [
  | inl absent ↦ elim (Bool-cases (leb x.max_groups (length x.groups))) [
    | inl full ↦
        rw (absent, full) (record { edges = v.edges; groups = v.groups; capped = v.capped })
    | inr room ↦
        rw (absent, room)
          (link_known-IsValid gk (record { last_app = []; last_seen = 0 }) app o is_err now x a d
            (ground
              (arith, length-insert_new gk (record { last_app = app; last_seen = now }) x.groups))
            v)
  ]
  | inr (g, known) ↦ rw known (
      link_known-IsValid gk g app o is_err now x a d
        (ground (
          arith,
          v.capped,
          length-insert_old gk (record { last_app = app; last_seen = now }) g x.groups,
        ))
        v)
]

link_signal-IsValid :
    (kind : GroupKind) (id : Text) (e : Entry) (o : Origin) (is_err : Bool) (now : Time)
    (x : Extractor)
    → is_empty e.app ≡ false
    → (o ≡ 1) ⊎ (o ≡ 2)
    → IsValid x
    → IsValid (link_signal kind id e o is_err now x)
unfolding link_signal
link_signal-IsValid kind [] e o is_err now x a d v = v
link_signal-IsValid kind (c ∷ id) e o is_err now x a d v =
    link_group-IsValid (record { tenant_id = e.tenant_id; kind = kind; id = c ∷ id }) e.app o is_err
      now x a d v

text_eq_comm : (s t : Text) → text_eq s t ≡ text_eq t s
text_eq_comm s t = ground (arith, text_eq_iff s t, text_eq_iff t s)

link_peer-IsValid :
    (peer : Text) (e : Entry) (is_err : Bool) (now : Time) (x : Extractor)
    → is_empty e.app ≡ false
    → IsValid x
    → IsValid (link_peer peer e is_err now x)
unfolding link_peer
link_peer-IsValid peer e is_err now x a v =
    elim (Bool-cases (not (is_empty peer) && not (text_eq peer e.app))) [
      | inr quiet ↦ rw quiet v
      | inl named ↦ rw named (
          bump_edge-IsValid (record { tenant_id = e.tenant_id; src = e.app; dst = peer })
            origin_inferred is_err now x a (ground arith) (ground (arith, text_eq_comm e.app peer))
            (inr refl) v)
    ]

count_node-IsValid :
    (e : Entry) (is_err : Bool) (now : Time) (x : Extractor)
    → IsValid x
    → IsValid (count_node e is_err now x)
unfolding count_node
count_node-IsValid e is_err now x v = record {
  edges = v.edges;
  groups = v.groups;
  capped = v.capped;
}

append-IsValid : (e : Entry) (clock : Time) (x : Extractor) → IsValid x → IsValid (append e clock x)
unfolding append
append-IsValid e clock x v = elim (Bool-cases (is_empty e.app)) [
  | inl unnamed ↦ rw unnamed v
  | inr named ↦ rw named (
      link_peer-IsValid _ e _ _ _ named (
        link_signal-IsValid _ _ e origin_inferred _ _ _ named (inr refl) (
          link_signal-IsValid _ _ e origin_trace _ _ _ named (inl refl)
            (count_node-IsValid e _ _ x v))))
]

live_groups-kept :
    (ttl : ℕ) (now : Time) (gs : List (GroupKey × GroupState))
    → All HasLastApp gs
    → All HasLastApp (live_groups ttl now gs) × (length (live_groups ttl now gs) ≤ length gs)
unfolding live_groups
live_groups-kept ttl now [] h = (tt, omega arith)
live_groups-kept ttl now ((k, g) ∷ gs) h = ground (arith, live_groups-kept ttl now gs)

-- What happens to an extractor: an entry, a flush to the sink, an eviction of old groups.
pub data Event : Type 0 where
  appended : Entry → Time → Event
  flushed : Event
  evicted : Time → Event

pub step : Event → Extractor → Extractor
step (appended e clock) x = append e clock x
step flushed x = (flush x).0
step (evicted now) x = evict_groups now x

step-IsValid : (ev : Event) (x : Extractor) → IsValid x → IsValid (step ev x)
unfolding step
step-IsValid (appended e clock) x v = append-IsValid e clock x v
step-IsValid flushed x v =
    unfold flush in record { edges = tt; groups = v.groups; capped = v.capped }
step-IsValid (evicted now) x v =
    let kept = live_groups-kept x.group_ttl now x.groups v.groups in
    unfold evict_groups in
    record { edges = v.edges; groups = kept.0; capped = omega (arith, kept.1, v.capped) }

pub run_extractor : List Event → Extractor → Extractor
run_extractor [] x = x
run_extractor (ev ∷ evs) x = run_extractor evs (step ev x)

-- Whatever entries, flushes and evictions follow, every edge joins two different services that both
-- have a name and has an origin that was observed, and there are never more groups than the cap.
pub run_extractor-IsValid :
    (evs : List Event) (x : Extractor) → IsValid x → IsValid (run_extractor evs x)
unfolding run_extractor
run_extractor-IsValid [] x v = v
run_extractor-IsValid (ev ∷ evs) x v = run_extractor-IsValid evs (step ev x) (step-IsValid ev x v)

-- An observed origin has a name of its own.
origin_string_known :
    (o : Origin) → IsObserved o → text_eq (origin_string o) (bytes "unknown") ≡ false
unfolding origin_string text_eq
origin_string_known o (inl a) = rw a refl
origin_string_known o (inr (inl b)) = rw b refl
origin_string_known o (inr (inr c)) = rw c refl
