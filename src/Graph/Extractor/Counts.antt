-- ===== src/Graph/Extractor/Counts.antt =====
-- internal/graph/extractor.go: the counters of a node count the entries of its service.
use logdoc.Common.{
  ℕ, ◌+◌, ◌%◌, ◌^◌, ◌≡◌, refl, ◌∙◌, Bool, not, ◌&&◌, Option, none, some, List, [], ◌∷◌, arith, leb,
  ◌==◌, if◌then◌else◌, Bool-cases, inl, inr,
}
use logdoc.Common.Text.{Text, is_empty}
use logdoc.Common.Map.{lookup, lookup-insert}
use logdoc.Model.{Time, Entry, level_error}
use logdoc.Graph.Edges.{Origin, NodeKey, node_key_Eq, node_key_eq, node_key_eq_iff}
use logdoc.Graph.Extractor.{
  Extractor, NodeState, GroupKind, GroupKey, group_key_Eq, bump_node, bump_edge, link_known,
  link_group, link_signal, link_peer, count_node, append,
}

module _ (x : Extractor) where
  nodes-link_group :
      (gk : GroupKey) (app : Text) (o : Origin) (is_err : Bool) (now : Time)
      → (link_group gk app o is_err now x).nodes ≡ x.nodes
  unfolding link_group link_known bump_edge
  nodes-link_group gk app o is_err now = ground arith

  nodes-link_signal :
      (kind : GroupKind) (id : Text) (e : Entry) (o : Origin) (is_err : Bool) (now : Time)
      → (link_signal kind id e o is_err now x).nodes ≡ x.nodes
  unfolding link_signal
  nodes-link_signal kind [] e o is_err now = refl
  nodes-link_signal kind (c ∷ id) e o is_err now =
      nodes-link_group (record { tenant_id = e.tenant_id; kind = kind; id = c ∷ id }) e.app o is_err
        now

  nodes-link_peer :
      (peer : Text) (e : Entry) (is_err : Bool) (now : Time)
      → (link_peer peer e is_err now x).nodes ≡ x.nodes
  unfolding link_peer bump_edge
  nodes-link_peer peer e is_err now = ground arith

-- The time under which an entry is counted.
abbrev entry_time : Entry → Time → Time
entry_time e clock = if e.ts == 0 then clock else e.ts

nodes-append :
    (e : Entry) (clock : Time) (x : Extractor)
    → (append e clock x).nodes ≡ (
        if is_empty e.app
        then x.nodes
        else (count_node e (leb level_error e.lvl) (entry_time e clock) x).nodes)
unfolding append
nodes-append e clock x = elim (Bool-cases (is_empty e.app)) [
  | inl none_named ↦ rw none_named refl
  | inr named ↦ rw named (
      nodes-link_peer _ _ e _ _ ∙ nodes-link_signal _ _ _ e _ _ _ ∙ nodes-link_signal _ _ _ e _ _ _)
]

-- The counters of a key, 0 for a service that was not seen.
abbrev counters : Option NodeState → ℕ × ℕ
counters none = (0, 0)
counters (some n) = (n.count, n.errors)

pub node_counters : NodeKey → Extractor → ℕ × ℕ
node_counters k x = counters (lookup k x.nodes)

-- The entries of a service among some, and those of them at level ERROR or above.
abbrev of_service : NodeKey → Entry → Bool
of_service k e =
    not (is_empty e.app) && node_key_eq (record { tenant_id = e.tenant_id; app = e.app }) k

pub entries_of : NodeKey → List Entry → ℕ
entries_of k [] = 0
entries_of k (e ∷ es) = (if of_service k e then 1 else 0) + entries_of k es

pub errors_of : NodeKey → List Entry → ℕ
errors_of k [] = 0
errors_of k (e ∷ es) = (if of_service k e && leb level_error e.lvl then 1 else 0) + errors_of k es

-- Entries arrive one after the other, each with the wall-clock time of its arrival.
pub append_all : List (Entry × Time) → Extractor → Extractor
append_all [] x = x
append_all ((e, clock) ∷ es) x = append_all es (append e clock x)

abbrev pub entries : List (Entry × Time) → List Entry
entries [] = []
entries ((e, clock) ∷ es) = e ∷ entries es

append-counters :
    (k : NodeKey) (e : Entry) (clock : Time) (x : Extractor)
    → ((node_counters k (append e clock x)).0 % 2 ^ 64
        ≡ ((node_counters k x).0 + (if of_service k e then 1 else 0)) % 2 ^ 64)
      × ((node_counters k (append e clock x)).1 % 2 ^ 64
          ≡ ((node_counters k x).1 + (if of_service k e && leb level_error e.lvl then 1 else 0))
            % 2 ^ 64)
unfolding node_counters count_node bump_node
append-counters k e clock x = rw (nodes-append e clock x) (
    ground (
      arith,
      lookup-insert (record { tenant_id = e.tenant_id; app = e.app }) k
          (bump_node (lookup (record { tenant_id = e.tenant_id; app = e.app }) x.nodes)
            (leb level_error e.lvl) (entry_time e clock))
          x.nodes,
      node_key_eq_iff (record { tenant_id = e.tenant_id; app = e.app }) k,
    ))

-- However entries of many services are mixed, the counters of a service grow by the number of its
-- own entries, and of its entries at level ERROR or above, modulo their 64 bits.
pub append_all-node_counters :
    (k : NodeKey) (es : List (Entry × Time)) (x : Extractor)
    → ((node_counters k (append_all es x)).0 % 2 ^ 64
        ≡ ((node_counters k x).0 + entries_of k (entries es)) % 2 ^ 64)
      × ((node_counters k (append_all es x)).1 % 2 ^ 64
          ≡ ((node_counters k x).1 + errors_of k (entries es)) % 2 ^ 64)
unfolding append_all entries_of errors_of
append_all-node_counters k [] x = (omega arith, omega arith)
append_all-node_counters k ((e, clock) ∷ es) x =
    let one = append-counters k e clock x in
    let rest = append_all-node_counters k es (append e clock x) in
    (omega (arith, one.0, rest.0), omega (arith, one.1, rest.1))
