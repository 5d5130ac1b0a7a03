-- ===== src/Ingest/Syslog/Written.antt =====
-- internal/ingest/syslog.go: `EntryFromSyslog` on a line as RFC 5424 writes it.
use logdoc.Common.{
  ℕ, ◌/◌, ◌%◌, ◌≡◌, false, Option-cases, inl, inr, none, some, List, [], ◌∷◌, ◌++◌, refl, ap, arith,
  All, ◌==◌, ◌∙◌, if◌then◌else◌,
}
use logdoc.Common.Text.{Text, bytes, text_eq, text_Eq, has_byte, cut_prefix, is_empty}
use logdoc.Common.Map.{insert}
use logdoc.Model.{Entry, Fields, Time, default_tenant}
use logdoc.Ingest.Bytes.{cut_at-append, trim_left}
use logdoc.Ingest.Runtime.{Runtime}
use logdoc.Ingest.Syslog.Structured.Rendered.{
  Params, render_elements, put_elements, IsElement, parse_sd-render_elements,
}
use logdoc.Ingest.Syslog.Codes.{
  Facility, Severity, priority, keyword, level_of, priority_bound, facility_name-priority,
  severity_level-priority,
}
use logdoc.Common.Decimal.{itoa}
use logdoc.Ingest.Syslog.Tables.{facility_name, severity_level}
use logdoc.Ingest.Syslog.Priority.{parse_pri-itoa}
use logdoc.Ingest.Syslog.{
  entry_of_line, decode_message, parse_body, name_source, raw_entry, remote_fields,
}
use logdoc.Ingest.Syslog.Bodies.{
  next_token, given, put_field, set_time, set_field, set_app, set_pid, set_msg, trim_prefix,
  structured_data, parse_5424, byte_order_mark,
}

-- The five tokens of a header, the elements, of which there is one at least, and the message.
pub record Body : Type 0 where
  pub stamp : Text
  pub host : Text
  pub app : Text
  pub pid : Text
  pub msgid : Text
  pub first : Text × Params
  pub more : List (Text × Params)
  pub msg : Text

abbrev pub write_body : Body → Text
write_body b =
    b.stamp
    ++ (b' '
        ∷ (b.host
            ++ (b' '
                ∷ (b.app
                    ++ (b' '
                        ∷ (b.pid
                            ++ (b' '
                                ∷ (b.msgid
                                    ++ (b' '
                                        ∷ (render_elements (b.first ∷ b.more)
                                            ++ (b' ' ∷ b.msg)))))))))))

-- A token is not empty, holds no space, and is not the nil value.
abbrev pub IsToken : Text → Type 0
IsToken [] = ⊥
IsToken (c ∷ s) = (has_byte b' ' (c ∷ s) ≡ false) × (text_eq (c ∷ s) (bytes "-") ≡ false)

-- The message is not empty, and starts with neither a space nor the first byte of a byte order mark.
abbrev pub IsMessage : Text → Type 0
IsMessage [] = ⊥
IsMessage (c ∷ s) = ((c == b' ') ≡ false) × ((c == 239) ≡ false)

abbrev pub IsBody : Body → Type 0
IsBody b =
    IsToken b.stamp
    × IsToken b.host
    × IsToken b.app
    × IsToken b.pid
    × IsToken b.msgid
    × All IsElement (b.first ∷ b.more)
    × IsMessage b.msg

next_token-append : (tok r : Text) → IsToken tok → next_token (tok ++ (b' ' ∷ r)) ≡ (some tok, r)
unfolding next_token trim_left has_byte
next_token-append [] r h = absurd h
next_token-append (c ∷ tok) r h = ground (arith, cut_at-append b' ' (c ∷ tok) r h.0)

given-token : (tok : Text) → IsToken tok → given (some tok) ≡ some tok
unfolding given
given-token [] h = absurd h
given-token (c ∷ tok) h = ground arith

structured_data-elements :
    (first : Text × Params) (more : List (Text × Params)) (msg : Text) (e : Entry)
    → All IsElement (first ∷ more)
    → structured_data (trim_left b' ' (render_elements (first ∷ more) ++ (b' ' ∷ msg))) e
      ≡ (b' ' ∷ msg, record e { fields = put_elements (first ∷ more) e.fields })
unfolding structured_data trim_left cut_prefix
structured_data-elements first more msg e h =
    ap (λ (r : Text × Fields). (r.0, record e { fields = r.1 }))
      (parse_sd-render_elements (first ∷ more) (b' ' ∷ msg) e.fields h refl)

set_msg-message :
    (msg : Text) (e : Entry)
    → IsMessage msg
    → set_msg (trim_prefix byte_order_mark (trim_left b' ' (b' ' ∷ msg))) e ≡ record e { msg = msg }
unfolding set_msg trim_prefix trim_left cut_prefix
set_msg-message [] e h = absurd h
set_msg-message (c ∷ msg) e h = ground arith

-- The time of the stamp, or the one that there was.
abbrev pub stamp_or : Runtime → Text → Time → Time
stamp_or go stamp t = elim (go.parse_rfc3339_nano stamp) [ none ↦ t | some u ↦ u ]

set_time-stamp_or :
    (go : Runtime) (stamp : Text) (e : Entry)
    → set_time go (some stamp) e ≡ record e { ts = stamp_or go stamp e.ts }
unfolding set_time
set_time-stamp_or go stamp e = elim (Option-cases (go.parse_rfc3339_nano stamp)) [
  | inl q ↦ rw (set_time, stamp_or, q) refl
  | inr (t, q) ↦ rw (set_time, stamp_or, q) refl
]

-- The entry with all that the body says.
abbrev pub filled : Runtime → Body → Entry → Entry
filled go b e = record e {
  ts = stamp_or go b.stamp e.ts;
  app = b.app;
  pid = b.pid;
  msg = b.msg;
  fields =
      put_elements (b.first ∷ b.more)
        (insert (bytes "msgid") b.msgid (insert (bytes "host") b.host e.fields));
}

-- A body that is written as RFC 5424 says, with all five tokens, structured data and a message,
-- gives the entry its time, application, process id and message, and the fields "host", "msgid" and
-- those of the structured data; given that a token is not empty, holds no space and is not "-", that
-- the structured data is well formed, and that the message is not empty and starts with neither a
-- space nor the first byte of a byte order mark.
pub parse_5424-write_body :
    (go : Runtime) (b : Body) (e : Entry)
    → IsBody b
    → parse_5424 go (write_body b) e ≡ filled go b e
unfolding parse_5424 set_field set_app set_pid put_field
parse_5424-write_body go b e h =
    let s₅ = render_elements (b.first ∷ b.more) ++ (b' ' ∷ b.msg) in
    let s₄ = b.msgid ++ (b' ' ∷ s₅) in
    let s₃ = b.pid ++ (b' ' ∷ s₄) in
    let s₂ = b.app ++ (b' ' ∷ s₃) in
    let s₁ = b.host ++ (b' ' ∷ s₂) in
    rw
      (
        next_token-append b.stamp s₁ h.0,
        next_token-append b.host s₂ h.1,
        next_token-append b.app s₃ h.2,
        next_token-append b.pid s₄ h.3,
        next_token-append b.msgid s₅ h.4,
        given-token b.stamp h.0,
        given-token b.host h.1,
        given-token b.app h.2,
        given-token b.pid h.3,
        given-token b.msgid h.4,
        set_time-stamp_or go b.stamp e,
        structured_data-elements b.first b.more b.msg _ h.5,
        set_msg-message b.msg _ h.6,
      )
      refl

-- A whole line: the priority, the version 1, and the body.
abbrev pub write_line : Facility → Severity → Body → Text
write_line f s b = b'<' ∷ (itoa (priority f s) ++ (b'>' ∷ b'1' ∷ b' ' ∷ write_body b))

-- The entry that was made before the body is read.
abbrev prepared : ℕ → Text → Text → Time → Entry
prepared pri line ip now =
    put_field (bytes "facility") (facility_name (pri / 8))
      (record (raw_entry line ip now) { lvl = severity_level (pri % 8) })

read_line :
    (go : Runtime) (f : Facility) (s : Severity) (b : Body) (ip : Text) (now : Time)
    → IsBody b
    → entry_of_line go (write_line f s b) ip now
      ≡ name_source
          (facility_name (priority f s / 8))
          (filled go b (prepared (priority f s) (write_line f s b) ip now))
unfolding entry_of_line decode_message parse_body cut_prefix
read_line go f s b ip now h =
    let line = write_line f s b in
    let pri = priority f s in
    rw (entry_of_line, parse_pri-itoa pri (b'1' ∷ b' ' ∷ write_body b) (priority_bound f s))
      (ap (name_source (facility_name (pri / 8)))
        (parse_5424-write_body go b (prepared pri line ip now) h))

is_empty-IsToken : (tok : Text) → IsToken tok → is_empty tok ≡ false
is_empty-IsToken [] h = absurd h
is_empty-IsToken (c ∷ tok) h = refl

-- The field that names the sender, if it is known.
abbrev pub sent_by : Text → Fields
sent_by ip = if is_empty ip then [] else (bytes "ip", ip) ∷ []

-- A line that is written as RFC 5424 says, for any facility, severity and well-formed body, gives an
-- entry of the default tenant with the level of the severity, with the time of the stamp (that of
-- the arrival, if the stamp is no time), the application, process id and message of the body, with
-- the source "syslog." followed by the keyword of the facility, a dot and the application, and with
-- the fields "ip" (if the sender is known), "facility", "host", "msgid" and those of the structured
-- data. A body is well formed if its five tokens are not empty, hold no space and are not "-", its
-- structured data is well formed, and its message is not empty and starts with neither a space nor
-- the first byte of a byte order mark.
pub entry_of_line-write_line :
    (go : Runtime) (f : Facility) (s : Severity) (b : Body) (ip : Text) (now : Time)
    → IsBody b
    → entry_of_line go (write_line f s b) ip now ≡ record {
      tenant_id = default_tenant;
      ts = stamp_or go b.stamp now;
      app = b.app;
      src = bytes "syslog." ++ (keyword f ++ (b'.' ∷ b.app));
      lvl = level_of s;
      pid = b.pid;
      msg = b.msg;
      fields = put_elements (b.first ∷ b.more) (
          insert
            (bytes "msgid")
            b.msgid
            (insert (bytes "host") b.host (insert (bytes "facility") (keyword f) (sent_by ip))));
    }
unfolding name_source raw_entry remote_fields put_field
entry_of_line-write_line go f s b ip now h =
    read_line go f s b ip now h
    ∙ rw (facility_name-priority f s, severity_level-priority f s, is_empty-IsToken b.app h.2) refl
