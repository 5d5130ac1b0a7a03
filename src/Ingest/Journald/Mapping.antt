-- ===== src/Ingest/Journald/Mapping.antt =====
-- internal/ingest/journald.go: one entry of the journal as an entry of the model.
use logdoc.Common.{
  ℕ, ◌+◌, ◌*◌, ◌/◌, ◌%◌, Bool, Option, none, some, List, [], ◌∷◌, ◌++◌, ltb, leb, if◌then◌else◌,
  any,
}
use logdoc.Common.Text.{Text, bytes, is_empty, text_eq, text_Eq}
use logdoc.Common.Map.{insert}
use logdoc.Common.Int.{ℤ, pos, negsuc}
use logdoc.Common.Decimal.{atoi}
use logdoc.Model.{Time, Entry, Fields, default_tenant}
use logdoc.Ingest.Runtime.{Runtime}
use logdoc.Ingest.Marks.{value_of}
use logdoc.Ingest.Syslog.Tables.{facility_name, severity_level, stamp_time}

unfoldable pub first_non_empty : Text → Text → Text
first_non_empty a b = if is_empty a then b else a

-- 6 unless PRIORITY is a number from 0 to 191.
unfoldable pub priority : Option ℤ → ℕ
priority none = 6
priority (some (negsuc n)) = 6
priority (some (pos n)) = if leb n 191 then n else 6

-- The nanoseconds from the zero time to 1970.
abbrev unix_epoch : ℕ
unix_epoch = 62135596800000000000

-- A positive number of microseconds since 1970.
unfoldable pub unix_micro : Option ℤ → Option Time
unix_micro none = none
unix_micro (some (negsuc n)) = none
unix_micro (some (pos n)) = if ltb 0 n then some (unix_epoch + n * 1000) else none

-- The time of SYSLOG_TIMESTAMP, or now.
unfoldable pub syslog_time : Runtime → Text → Time → Time
syslog_time go v now = if is_empty v then now else (elim (go.parse_rfc3339_nano v) [
  | some t ↦ t
  | none ↦ elim (go.parse_stamp v) [ none ↦ now | some st ↦ stamp_time go now st ]
])

unfoldable pub journal_time : Runtime → Fields → Time → Time
journal_time go fields now =
    elim (unix_micro (atoi (value_of (bytes "__REALTIME_TIMESTAMP") fields))) [
      | some t ↦ t
      | none ↦ syslog_time go (go.trim_space (value_of (bytes "SYSLOG_TIMESTAMP") fields)) now
    ]

-- The keys that are mapped, or that describe the transport.
unfoldable pub mapped_keys : List Text
mapped_keys =
    bytes "MESSAGE"
    ∷ bytes "PRIORITY"
    ∷ bytes "SYSLOG_IDENTIFIER"
    ∷ bytes "SYSLOG_PID"
    ∷ bytes "SYSLOG_TIMESTAMP"
    ∷ bytes "__REALTIME_TIMESTAMP"
    ∷ bytes "__MONOTONIC_TIMESTAMP"
    ∷ bytes "__CURSOR"
    ∷ bytes "__SEQNUM"
    ∷ bytes "__SEQNUM_ID"
    ∷ []

unfoldable pub is_mapped : Text → Bool
unfolding mapped_keys
is_mapped k = any (λ m. text_eq m k) mapped_keys

-- The loop over the other fields.
unfoldable pub copy_fields : Fields → Fields → Fields
unfolding is_mapped
copy_fields [] fields = fields
copy_fields ((k, v) ∷ rest) fields =
    copy_fields rest (if is_mapped k then fields else insert k v fields)

unfoldable pub app_of : Fields → Text
app_of fields =
    let app =
      first_non_empty (value_of (bytes "SYSLOG_IDENTIFIER") fields)
        (value_of (bytes "_COMM") fields) in
    if is_empty app then bytes "unknown" else app

unfoldable pub journal_entry : Runtime → Fields → Text → Time → Entry
journal_entry go fields msg now =
    let pri = priority (atoi (value_of (bytes "PRIORITY") fields)) in
    let fac = facility_name (pri / 8) in
    let app = app_of fields in
    record {
      tenant_id = default_tenant;
      ts = journal_time go fields now;
      app = app;
      src = bytes "journald." ++ (fac ++ (b'.' ∷ app));
      lvl = severity_level (pri % 8);
      pid = first_non_empty (value_of (bytes "SYSLOG_PID") fields) (value_of (bytes "_PID") fields);
      msg = msg;
      fields = copy_fields fields ((bytes "facility", fac) ∷ []);
    }

-- None without a message.
unfoldable pub entry_from_journal : Runtime → Fields → Time → Option Entry
entry_from_journal go fields now =
    let msg = value_of (bytes "MESSAGE") fields in
    if is_empty msg then none else some (journal_entry go fields msg now)
