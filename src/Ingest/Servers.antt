-- ===== src/Ingest/Servers.antt =====
-- internal/ingest/http.go and native.go: the handler of POST /api/v1/ingest, and what the native server
-- appends.
pub mod Tests
pub mod Atomic
use logdoc.Common.{
  ℕ, ◌+◌, Bool, Option, none, some, List, [], ◌∷◌, if◌then◌else◌, length, Result, ok, err, ◌>>=◌,
}
use logdoc.Common.Text.{Text, is_empty}
use logdoc.Common.Int.{ℤ, or_default}
use logdoc.Model.{Level, Time, Entry, Fields, default_tenant, parse_level}
use logdoc.Ingest.Runtime.{Runtime}
use logdoc.Ingest.Ldformat.{parse_ld_stream}
use logdoc.Ingest.Ldformat.Mapping.{entry_from_ld}

-- `jsonRecord`
pub record JsonRecord : Type 0 where
  pub msg : Text
  pub ts : Option Time
  pub app : Text
  pub src : Text
  pub lvl : Text
  pub pid : Text
  pub fields : Fields

-- The bodies of the answers with status 400.
pub data BadRequest : Type 0 where
  invalid_json empty_array : BadRequest
  msg_required : ℕ → BadRequest

pub data Reply : Type 0 where
  accepted : ℕ → Reply
  rejected : BadRequest → Reply

-- 32 MiB unless the limit is positive.
unfoldable pub body_limit : ℤ → ℕ
body_limit max_body_bytes = or_default 33554432 max_body_bytes

unfoldable pub record_entry : Time → JsonRecord → Entry
record_entry now rec = record {
  tenant_id = default_tenant;
  ts = elim (rec.ts) [ none ↦ now | some t ↦ t ];
  app = rec.app;
  src = rec.src;
  lvl = if is_empty rec.lvl then 1 else parse_level rec.lvl;
  pid = rec.pid;
  msg = rec.msg;
  fields = rec.fields;
}

-- The loop over the records, from number `i` on.
unfoldable pub entries_of : Time → ℕ → List JsonRecord → Result BadRequest (List Entry)
entries_of now i [] = ok []
entries_of now i (rec ∷ recs) =
    if is_empty rec.msg
    then err (msg_required i)
    else (entries_of now (i + 1) recs >>= (λ es. ok (record_entry now rec ∷ es)))

unfoldable pub answer : Result BadRequest (List Entry) → Reply × List Entry
answer (err e) = (rejected e, [])
answer (ok es) = (accepted (length es), es)

unfoldable pub handle_records : Time → Option (List JsonRecord) → Reply × List Entry
handle_records now none = (rejected invalid_json, [])
handle_records now (some []) = (rejected empty_array, [])
handle_records now (some (rec ∷ recs)) = answer (entries_of now 0 (rec ∷ recs))

-- The reply, and the entries that are appended; `decode` is Decode of encoding/json on a body that
-- fails behind a number of bytes.
unfoldable pub handle_ingest :
    (decode : ℕ → Text → Option (List JsonRecord)) → ℤ → Time → Text → Reply × List Entry
handle_ingest decode max_body_bytes now body =
    handle_records now (decode (body_limit max_body_bytes) body)

-- The entries of the events that are emitted.
unfoldable pub event_entries : Runtime → Text → Time → List Fields → List Entry
event_entries go ip now [] = []
event_entries go ip now (ev ∷ evs) =
    let rest = event_entries go ip now evs in
    elim (entry_from_ld go ev ip now) [ none ↦ rest | some e ↦ e ∷ rest ]

-- What the native server appends for a connection or a datagram, with one time for all its events.
unfoldable pub handle_stream : Runtime → Text → Time → Text → List Entry
handle_stream go ip now s = event_entries go ip now (parse_ld_stream s).events
