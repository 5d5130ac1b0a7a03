-- ===== src/Graph/Extractor.antt =====
-- internal/graph/extractor.go: the extraction of nodes and edges from entries.
pub mod Counts
pub mod Shape
use Prim.Native.Nat.{bit_or}
use logdoc.Common.{
  ℕ, zero, suc, ◌+◌, ◌*◌, ◌%◌, ◌^◌, ◌≡◌, ◌↔◌, Bool, true, false, not, ◌&&◌, Option, none, some,
  List, [], ◌∷◌, ◌++◌, ltb, leb, ◌==◌, if◌then◌else◌, length, map, Eq, arith, is_null,
}
use logdoc.Common.Int.{ℤ, or_default, second, minute}
use logdoc.Common.Text.{Text, bytes, is_empty, text_eq, text_Eq, text_eq_iff}
use logdoc.Common.Map.{lookup, insert}
use logdoc.Model.{Time, Fields, Entry, level_error}
use logdoc.Graph.Edges.{
  Origin, origin_trace, origin_inferred, NodeKey, EdgeKey, NodeAgg, EdgeAgg, node_key_Eq,
  edge_key_Eq,
}

abbrev trace_fields : List Text
trace_fields = bytes "trace_id" ∷ bytes "traceid" ∷ bytes "trace-id" ∷ []

abbrev corr_fields : List Text
corr_fields =
    bytes "correlation_id"
    ∷ bytes "corr_id"
    ∷ bytes "request_id"
    ∷ bytes "x_request_id"
    ∷ bytes "x-request-id"
    ∷ []

abbrev peer_fields : List Text
peer_fields =
    bytes "peer.service"
    ∷ bytes "peer_service"
    ∷ bytes "target"
    ∷ bytes "upstream"
    ∷ bytes "callee"
    ∷ []

-- uint64 counters wrap.
abbrev u64 : ℕ → ℕ
u64 n = n % 2 ^ 64

pub record NodeState : Type 0 where
  pub count : ℕ
  pub errors : ℕ
  pub last_seen : Time

pub record EdgeState : Type 0 where
  pub origin : Origin
  pub count : ℕ
  pub errors : ℕ
  pub last_seen : Time

pub data GroupKind : Type 0 where
  trace corr : GroupKind

pub record GroupKey : Type 0 where
  pub tenant_id : Text
  pub kind : GroupKind
  pub id : Text

abbrev same_kind : GroupKind → GroupKind → Bool
same_kind trace trace = true
same_kind trace corr = false
same_kind corr trace = false
same_kind corr corr = true

pub group_key_eq : GroupKey → GroupKey → Bool
group_key_eq a b = text_eq a.tenant_id b.tenant_id && (same_kind a.kind b.kind && text_eq a.id b.id)

pub group_key_eq_iff : (a b : GroupKey) → (group_key_eq a b ≡ true) ↔ (a ≡ b)
unfolding group_key_eq
group_key_eq_iff a b = ground (arith, text_eq_iff a.tenant_id b.tenant_id, text_eq_iff a.id b.id)

instance abbrev pub group_key_Eq : Eq GroupKey
group_key_Eq = record { beq = group_key_eq; beq_iff = group_key_eq_iff }

pub record GroupState : Type 0 where
  pub last_app : Text
  pub last_seen : Time

-- `Extractor`, with the options that its operations read.
pub record Extractor : Type 0 where
  pub nodes : List (NodeKey × NodeState)
  pub edges : List (EdgeKey × EdgeState)
  pub groups : List (GroupKey × GroupState)
  pub dropped : ℕ
  pub group_ttl : ℕ
  pub max_groups : ℕ

-- `NewExtractor`, with the defaults for what is not positive.
unfoldable pub new_extractor : ℤ → ℤ → Extractor
new_extractor group_ttl max_groups = record {
  nodes = [];
  edges = [];
  groups = [];
  dropped = 0;
  group_ttl = or_default (5 * minute) group_ttl;
  max_groups = or_default 100000 max_groups;
}

abbrev value_of : Option Text → Text
value_of none = []
value_of (some v) = v

-- The first of the names whose field is there and not empty.
unfoldable pub first_field : Fields → List Text → Text
first_field fields [] = []
first_field fields (n ∷ names) =
    let v = value_of (lookup n fields) in
    let rest = first_field fields names in if is_empty v then rest else v

abbrev later : Time → Time → Time
later now seen = if ltb seen now then now else seen

pub bump_node : Option NodeState → Bool → Time → NodeState
bump_node none is_err now = record {
  count = u64 (0 + 1);
  errors = (if is_err then u64 (0 + 1) else 0);
  last_seen = later now 0;
}
bump_node (some n) is_err now = record {
  count = u64 (n.count + 1);
  errors = (if is_err then u64 (n.errors + 1) else n.errors);
  last_seen = later now n.last_seen;
}

pub bump_edge_state : Option EdgeState → Origin → Bool → Time → EdgeState
bump_edge_state none origin is_err now = record {
  origin = bit_or 0 origin;
  count = u64 (0 + 1);
  errors = (if is_err then u64 (0 + 1) else 0);
  last_seen = later now 0;
}
bump_edge_state (some s) origin is_err now = record {
  origin = bit_or s.origin origin;
  count = u64 (s.count + 1);
  errors = (if is_err then u64 (s.errors + 1) else s.errors);
  last_seen = later now s.last_seen;
}

-- `bumpEdge`
pub bump_edge : EdgeKey → Origin → Bool → Time → Extractor → Extractor
bump_edge k origin is_err now x = record x {
  edges = insert k (bump_edge_state (lookup k x.edges) origin is_err now) x.edges;
}

-- `linkGroup` once the group is there: an edge from the application that was seen last in it.
pub link_known : GroupKey → GroupState → Text → Origin → Bool → Time → Extractor → Extractor
link_known gk g app origin is_err now x =
    let edge : EdgeKey = record { tenant_id = gk.tenant_id; src = g.last_app; dst = app } in
    let x' =
      if not (is_empty g.last_app) && not (text_eq g.last_app app)
      then bump_edge edge origin is_err now x
      else x in
    record x' { groups = insert gk (record { last_app = app; last_seen = now }) x'.groups }

-- A new group is refused when the cap is reached.
link_found : Option GroupState → GroupKey → Text → Origin → Bool → Time → Extractor → Extractor
link_found (some g) gk app origin is_err now x = link_known gk g app origin is_err now x
link_found none gk app origin is_err now x =
    if leb x.max_groups (length x.groups)
    then record x { dropped = u64 (x.dropped + 1) }
    else link_known gk (record { last_app = []; last_seen = 0 }) app origin is_err now x

-- `linkGroup`
pub link_group : GroupKey → Text → Origin → Bool → Time → Extractor → Extractor
unfolding link_found
link_group gk app origin is_err now x = link_found (lookup gk x.groups) gk app origin is_err now x

-- Nothing happens for an id that is empty.
pub link_signal : GroupKind → Text → Entry → Origin → Bool → Time → Extractor → Extractor
link_signal kind [] e origin is_err now x = x
link_signal kind (c ∷ id) e origin is_err now x =
    link_group (record { tenant_id = e.tenant_id; kind = kind; id = c ∷ id }) e.app origin is_err
      now x

pub link_peer : Text → Entry → Bool → Time → Extractor → Extractor
link_peer peer e is_err now x =
    if not (is_empty peer) && not (text_eq peer e.app)
    then bump_edge (record { tenant_id = e.tenant_id; src = e.app; dst = peer }) origin_inferred
        is_err now x
    else x

-- Every service that logs is a node.
pub count_node : Entry → Bool → Time → Extractor → Extractor
count_node e is_err now x =
    let k : NodeKey = record { tenant_id = e.tenant_id; app = e.app } in
    record x { nodes = insert k (bump_node (lookup k x.nodes) is_err now) x.nodes }

-- `Append` at the wall-clock time `clock`, which serves for an entry without a time.
unfoldable pub append : Entry → Time → Extractor → Extractor
append e clock x =
    let is_err = leb level_error e.lvl in
    let now = if e.ts == 0 then clock else e.ts in
    if is_empty e.app
    then x
    else link_peer (first_field e.fields peer_fields) e is_err now (
        link_signal corr (first_field e.fields corr_fields) e origin_inferred is_err now (
          link_signal trace (first_field e.fields trace_fields) e origin_trace is_err now
            (count_node e is_err now x)))

unfoldable pub node_aggs : List (NodeKey × NodeState) → List NodeAgg
node_aggs [] = []
node_aggs ((k, s) ∷ rest) =
    record { key = k; count = s.count; errors = s.errors; last_seen = s.last_seen } ∷ node_aggs rest

unfoldable pub edge_aggs : List (EdgeKey × EdgeState) → List EdgeAgg
edge_aggs [] = []
edge_aggs ((k, s) ∷ rest) =
    record {
      key = k;
      origin = s.origin;
      count = s.count;
      errors = s.errors;
      last_seen = s.last_seen;
    }
    ∷ edge_aggs rest

-- `flush`: what the sink is given, unless there is nothing, and the extractor with empty aggregates.
unfoldable pub flush : Extractor → Extractor × Option (List NodeAgg × List EdgeAgg)
flush x = (
  record x { nodes = []; edges = [] },
  if is_null x.nodes && is_null x.edges then none else some (node_aggs x.nodes, edge_aggs x.edges),
)

pub live_groups : ℕ → Time → List (GroupKey × GroupState) → List (GroupKey × GroupState)
live_groups ttl now [] = []
live_groups ttl now ((k, g) ∷ rest) =
    let more = live_groups ttl now rest in
    if ltb (g.last_seen + ttl) now then more else (k, g) ∷ more

-- `evictGroups`
pub evict_groups : Time → Extractor → Extractor
evict_groups now x = record x { groups = live_groups x.group_ttl now x.groups }
