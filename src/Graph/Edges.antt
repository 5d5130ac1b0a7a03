-- ===== src/Graph/Edges.antt =====
-- internal/graph/graph.go: origins, the keys of nodes and edges, and the aggregates of a flush.
use Prim.Native.Nat.{bit_and}
use logdoc.Common.{ℕ, ◌≡◌, ◌↔◌, Bool, true, not, ◌&&◌, arith, ◌==◌, if◌then◌else◌, Eq}
use logdoc.Common.Text.{Text, bytes, text_eq, text_eq_iff}
use logdoc.Model.{Time}

-- `Origin` is a bit mask in a uint8.
abbrev pub Origin : Type 0
Origin = ℕ

abbrev pub origin_trace : Origin
origin_trace = 1

abbrev pub origin_inferred : Origin
origin_inferred = 2

-- `Origin.String`
unfoldable pub origin_string : Origin → Text
origin_string o =
    if not (bit_and o origin_trace == 0) && not (bit_and o origin_inferred == 0)
    then bytes "both"
    else if not (bit_and o origin_trace == 0)
    then bytes "trace"
    else if not (bit_and o origin_inferred == 0)
    then bytes "inferred"
    else bytes "unknown"

pub record NodeKey : Type 0 where
  pub tenant_id : Text
  pub app : Text

pub record EdgeKey : Type 0 where
  pub tenant_id : Text
  pub src : Text
  pub dst : Text

pub node_key_eq : NodeKey → NodeKey → Bool
node_key_eq a b = text_eq a.tenant_id b.tenant_id && text_eq a.app b.app

pub node_key_eq_iff : (a b : NodeKey) → (node_key_eq a b ≡ true) ↔ (a ≡ b)
unfolding node_key_eq
node_key_eq_iff a b = ground (arith, text_eq_iff a.tenant_id b.tenant_id, text_eq_iff a.app b.app)

instance abbrev pub node_key_Eq : Eq NodeKey
node_key_Eq = record { beq = node_key_eq; beq_iff = node_key_eq_iff }

pub edge_key_eq : EdgeKey → EdgeKey → Bool
edge_key_eq a b = text_eq a.tenant_id b.tenant_id && (text_eq a.src b.src && text_eq a.dst b.dst)

pub edge_key_eq_iff : (a b : EdgeKey) → (edge_key_eq a b ≡ true) ↔ (a ≡ b)
unfolding edge_key_eq
edge_key_eq_iff a b =
    ground
      (arith, text_eq_iff a.tenant_id b.tenant_id, text_eq_iff a.src b.src, text_eq_iff a.dst b.dst)

instance abbrev pub edge_key_Eq : Eq EdgeKey
edge_key_Eq = record { beq = edge_key_eq; beq_iff = edge_key_eq_iff }

pub record NodeAgg : Type 0 where
  pub key : NodeKey
  pub count : ℕ
  pub errors : ℕ
  pub last_seen : Time

pub record EdgeAgg : Type 0 where
  pub key : EdgeKey
  pub origin : Origin
  pub count : ℕ
  pub errors : ℕ
  pub last_seen : Time
