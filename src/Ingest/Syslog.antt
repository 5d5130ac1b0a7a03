-- ===== src/Ingest/Syslog.antt =====
-- internal/ingest/syslog.go: one message as an entry.
pub mod Tests
pub mod Tables
pub mod Structured
pub mod Bodies
pub mod Frames
pub mod Marked
pub mod Written
pub mod Codes
pub mod Priority
use logdoc.Common.{
  ℕ, ◌+◌, ◌/◌, ◌%◌, Bool, true, false, ◌&&◌, ◌||◌, Option, none, some, List, [], ◌∷◌, ◌++◌, ltb,
  leb, ◌==◌, if◌then◌else◌, length, take, drop,
}
use logdoc.Common.Text.{Text, bytes, is_empty, has_prefix, cut_prefix}
use logdoc.Common.Int.{ℤ, pos, negsuc}
use logdoc.Common.Decimal.{atoi}
use logdoc.Model.{Time, Entry, Fields, default_tenant}
use logdoc.Ingest.Bytes.{cut_at}
use logdoc.Ingest.Runtime.{Runtime}
use logdoc.Ingest.Syslog.Tables.{facility_name, severity_level}
use logdoc.Ingest.Syslog.Bodies.{put_field, parse_5424, parse_3164}

-- bytes.TrimRight(_, "\r\n")
unfoldable pub trim_line_end : Text → Text
trim_line_end [] = []
trim_line_end (c ∷ s) =
    let rest = trim_line_end s in
    if is_empty rest && (c == b'\r' || c == b'\n') then [] else c ∷ rest

unfoldable pub pri_value : Option ℤ → Option ℕ
pri_value none = none
pri_value (some (negsuc n)) = none
pri_value (some (pos n)) = if leb n 191 then some n else none

-- The bytes behind <PRI>, and its number.
unfoldable pub parse_pri : Text → Option (Text × ℕ)
parse_pri b =
    if leb 3 (length b) && has_prefix b (bytes "<")
    then (elim (cut_at b'>' (take 5 b)) [
      | none ↦ none
      | some p ↦ if ltb (length p.0) 2 then none else (elim (pri_value (atoi (drop 1 p.0))) [
        | none ↦ none
        | some n ↦ some (drop (length p.0 + 1) b, n)
      ])
    ])
    else none

unfoldable pub remote_fields : Text → Fields
remote_fields ip = if is_empty ip then [] else (bytes "ip", ip) ∷ []

-- The entry of a message that is not understood.
unfoldable pub raw_entry : Text → Text → Time → Entry
raw_entry line ip now = record {
  tenant_id = default_tenant;
  ts = now;
  app = bytes "syslog";
  src = bytes "syslog";
  lvl = 1;
  pid = [];
  msg = line;
  fields = remote_fields ip;
}

unfoldable pub parse_body : Runtime → Text → Time → Entry → Entry
parse_body go rest now e = elim (cut_prefix (bytes "1 ") rest) [
  | some body ↦ parse_5424 go body e
  | none ↦ parse_3164 go now rest e
]

-- The application's name if the body left it empty, and the source.
unfoldable pub name_source : Text → Entry → Entry
name_source fac e =
    let app = (if is_empty e.app then bytes "syslog" else e.app) in
    record e { app = app; src = bytes "syslog." ++ (fac ++ (b'.' ∷ app)) }

unfoldable pub decode_message : Runtime → Text → ℕ → Time → Entry → Entry
decode_message go rest pri now e =
    let fac = facility_name (pri / 8) in
    let e₁ = record e { lvl = severity_level (pri % 8) } in
    name_source fac (parse_body go rest now (put_field (bytes "facility") fac e₁))

unfoldable pub entry_of_line : Runtime → Text → Text → Time → Entry
entry_of_line go line ip now = elim (parse_pri line) [
  | none ↦ raw_entry line ip now
  | some p ↦ decode_message go p.0 p.1 now (raw_entry line ip now)
]

unfoldable pub entry_from_syslog : Runtime → Text → Text → Time → Option Entry
entry_from_syslog go line ip now =
    if is_empty (go.trim_space (trim_line_end line))
    then none
    else some (entry_of_line go (trim_line_end line) ip now)
