-- ===== src/Ingest/Syslog/Bodies.antt =====
-- internal/ingest/syslog.go: the bodies of the two formats, `parse5424` and `parse3164`.
use logdoc.Common.{◌||◌, Option, none, some, [], ◌∷◌, ltb, leb, if◌then◌else◌, length, take, drop}
use logdoc.Common.Text.{Text, bytes, is_empty, text_eq, text_Eq, has_byte, cut_prefix}
use logdoc.Common.Map.{insert}
use logdoc.Model.{Time, Entry}
use logdoc.Ingest.Bytes.{cut_at, trim_left}
use logdoc.Ingest.Runtime.{Runtime}
use logdoc.Ingest.Syslog.Tables.{stamp_time}
use logdoc.Ingest.Syslog.Structured.{parse_sd}

-- `next`: the next token if there is one, and the text behind it.
unfoldable pub next_token : Text → Option Text × Text
next_token s = elim (trim_left b' ' s) [
  | [] ↦ (none, [])
  | c ∷ t ↦ elim (cut_at b' ' (c ∷ t)) [ none ↦ (some (c ∷ t), []) | some p ↦ (some p.0, p.1) ]
]

-- A token that is there, and not the nil value "-".
unfoldable pub given : Option Text → Option Text
given none = none
given (some tok) = if text_eq tok (bytes "-") then none else some tok

unfoldable pub put_field : Text → Text → Entry → Entry
put_field k v e = record e { fields = insert k v e.fields }

unfoldable pub set_time : (go : Runtime) → Option Text → Entry → Entry
set_time go none e = e
set_time go (some ts) e = elim (go.parse_rfc3339_nano ts) [
  | none ↦ e
  | some t ↦ record e { ts = t }
]

unfoldable pub set_field : Text → Option Text → Entry → Entry
set_field k none e = e
set_field k (some v) e = put_field k v e

unfoldable pub set_app : Option Text → Entry → Entry
set_app none e = e
set_app (some v) e = record e { app = v }

unfoldable pub set_pid : Option Text → Entry → Entry
set_pid none e = e
set_pid (some v) e = record e { pid = v }

unfoldable pub set_msg : Text → Entry → Entry
set_msg s e = if is_empty s then e else record e { msg = s }

-- strings.TrimPrefix
unfoldable pub trim_prefix : Text → Text → Text
trim_prefix p s = elim (cut_prefix p s) [ none ↦ s | some t ↦ t ]

-- The structured data, "-" or elements, and the text behind it.
unfoldable pub structured_data : Text → Entry → Text × Entry
structured_data s e = elim (cut_prefix (bytes "-") s) [
  | some t ↦ (t, e)
  | none ↦ let r = parse_sd s e.fields in (r.0, record e { fields = r.1 })
]

abbrev pub byte_order_mark : Text
byte_order_mark = 239 ∷ 187 ∷ 191 ∷ []

unfoldable pub parse_5424 : Runtime → Text → Entry → Entry
parse_5424 go s e =
    let ts = next_token s in
    let host = next_token ts.1 in
    let app = next_token host.1 in
    let pid = next_token app.1 in
    let msgid = next_token pid.1 in
    let e₁ = set_time go (given ts.0) e in
    let e₂ = set_field (bytes "host") (given host.0) e₁ in
    let e₃ = set_app (given app.0) e₂ in
    let e₄ = set_pid (given pid.0) e₃ in
    let e₅ = set_field (bytes "msgid") (given msgid.0) e₄ in
    let sd = structured_data (trim_left b' ' msgid.1) e₅ in
    set_msg (trim_prefix byte_order_mark (trim_left b' ' sd.0)) sd.1

-- The timestamp of the first 15 bytes, if it is one.
unfoldable pub take_stamp : Runtime → Time → Text → Entry → Text × Entry
take_stamp go now s e =
    if leb 15 (length s)
    then (elim (go.parse_stamp (take 15 s)) [
      | none ↦ (s, e)
      | some st ↦ (trim_left b' ' (drop 15 s), record e { ts = stamp_time go now st })
    ])
    else (s, e)

-- A first word without ':' and '[' is the host.
unfoldable pub take_host : Text → Entry → Text × Entry
take_host s e = elim (cut_at b' ' s) [
  | none ↦ (s, e)
  | some p ↦
      if is_empty p.0 || has_byte b':' p.0 || has_byte b'[' p.0
      then (s, e)
      else (trim_left b' ' p.1, put_field (bytes "host") p.0 e)
]

-- The process id of a tag: what stands between '[' and ']', if it is not empty.
unfoldable pub tag_pid : Text → Entry → Entry
tag_pid s e = elim (cut_at b']' s) [
  | none ↦ e
  | some p ↦ if is_empty p.0 then e else record e { pid = p.0 }
]

-- The tag without its process id, and the entry with it.
unfoldable pub split_tag : Text → Entry → Text × Entry
split_tag tag e = elim (cut_at b'[' tag) [ none ↦ (tag, e) | some p ↦ (p.0, tag_pid p.1 e) ]

unfoldable pub take_tag : Text → Entry → Text × Entry
take_tag s e = elim (cut_at b':' s) [
  | none ↦ (s, e)
  | some p ↦
      if is_empty p.0 || ltb 48 (length p.0)
      then (s, e)
      else let t = split_tag p.0 e in
        (if is_empty t.0 || has_byte b' ' t.0
          then (s, t.1)
          else (trim_left b' ' p.1, record t.1 { app = t.0 }))
]

unfoldable pub parse_3164 : Runtime → Time → Text → Entry → Entry
parse_3164 go now s e =
    let st = take_stamp go now s e in
    let h = take_host st.0 st.1 in let t = take_tag h.0 h.1 in set_msg t.0 t.1
