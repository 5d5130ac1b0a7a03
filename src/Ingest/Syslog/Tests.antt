-- ===== src/Ingest/Syslog/Tests.antt =====
-- internal/ingest/syslog.go: the theorems on concrete messages and streams.
use logdoc.Common.{◌≡◌, refl, some, List, [], ◌∷◌, ◌++◌, map, arith}
use logdoc.Common.Text.{Text, bytes, has_prefix, cut_prefix, text_eq, text_Eq, has_byte}
use logdoc.Common.Map.{insert}
use logdoc.Common.Decimal.{atoi, digits_value, unsigned_value}
use logdoc.Model.{Entry, default_tenant}
use logdoc.Ingest.Runtime.{Runtime}
use logdoc.Samples.{plain_runtime}
use logdoc.Ingest.Marks.{IsMarked}
use logdoc.Ingest.Bytes.{cut_at, trim_left}
use logdoc.Ingest.Syslog.Tables.{
  facility_name, facility_names, get_elem?, severity_level, severity_to_level,
}
use logdoc.Ingest.Syslog.Structured.{
  param_name, parse_sd, read_elements, read_params, scan_value, split_id,
}
use logdoc.Ingest.Syslog.Structured.Rendered.{
  render_elements, put_elements, Params, parse_sd-render_elements,
}
use logdoc.Ingest.Syslog.Bodies.{
  parse_5424, set_msg, trim_prefix, structured_data, given, next_token, put_field, set_app,
  set_field, set_pid, set_time,
}
use logdoc.Ingest.Syslog.{
  entry_from_syslog, trim_line_end, entry_of_line, parse_pri, pri_value, decode_message,
  name_source, parse_body, raw_entry, remote_fields,
}
use logdoc.Ingest.Syslog.Written.{Body, write_line, stamp_or, sent_by, entry_of_line-write_line}
use logdoc.Ingest.Syslog.Codes.{auth, critical, keyword, level_of}
use logdoc.Ingest.Syslog.Marked.{entry_from_syslog-IsMarked, IsNamed}
use logdoc.Ingest.Syslog.Frames.{
  read_frame, read_count, read_frames, keep_message, unless_ended, stream_messages,
}
use logdoc.Ingest.Syslog.Frames.Stream.{Sent, counted, line, wires, received, stream_messages-wires}
use logdoc.Ingest.Syslog.Frames.Progress.{Conserves, read_frame-Conserves}

-- A clock that knows one time, and texts whose spaces on the left are trimmed.
abbrev runtime : Runtime
runtime = record plain_runtime { trim_space = trim_left b' '; parse_rfc3339_nano = λ s. some 1000 }

abbrev message : Text
message = bytes "<34>1 - host su - ID [a ip=\"x\"] no"

abbrev sender_ip : Text
sender_ip = bytes "10.0.0.7"

abbrev message_entry : Entry
message_entry = record {
  tenant_id = bytes "default";
  ts = 0;
  app = bytes "su";
  src = bytes "syslog.auth.su";
  lvl = 5;
  pid = [];
  msg = bytes "no";
  fields =
      (bytes "ip", sender_ip)
      ∷ (bytes "facility", bytes "auth")
      ∷ (bytes "host", bytes "host")
      ∷ (bytes "msgid", bytes "ID")
      ∷ (bytes "a.ip", bytes "x")
      ∷ [];
}

message_read : entry_from_syslog runtime message sender_ip 0 ≡ some message_entry
unfolding entry_from_syslog trim_left trim_line_end entry_of_line parse_pri has_prefix cut_at
    pri_value atoi decode_message name_source parse_body facility_name cut_prefix parse_5424 set_msg
    trim_prefix structured_data digits_value unsigned_value insert has_byte text_eq given next_token
    put_field set_app set_field set_pid set_time param_name parse_sd read_elements read_params
    scan_value split_id facility_names get_elem? severity_level severity_to_level raw_entry
    remote_fields
message_read = refl

entry_from_syslog-IsMarked_example : IsMarked sender_ip message_entry × IsNamed message_entry
unfolding trim_left
entry_from_syslog-IsMarked_example =
    entry_from_syslog-IsMarked runtime message sender_ip 0 {e = message_entry} refl message_read

abbrev elements : List (Text × Params)
elements =
    (bytes "a@1", (bytes "k", bytes "say \"]\"") ∷ (bytes "ip", bytes "\\") ∷ [])
    ∷ (bytes "b", [])
    ∷ []

parse_sd-render_elements_example :
    parse_sd (render_elements elements ++ bytes " text") []
    ≡ (bytes " text", put_elements elements [])
unfolding has_byte
parse_sd-render_elements_example =
    parse_sd-render_elements elements (bytes " text") []
      ((refl, refl, ((refl, refl), ((refl, refl), tt))), ((refl, refl, tt), tt)) refl

-- Three messages in both framings, the second empty.
abbrev sent : List Sent
sent = counted (bytes "12 ab\n") ∷ line [] ∷ line (bytes "<1>hello") ∷ []

stream_messages-wires_example : stream_messages (wires sent) ≡ map received sent
unfolding has_byte
stream_messages-wires_example =
    stream_messages-wires sent ((omega arith, omega arith), ((refl, tt), ((refl, refl), tt)))

-- A stream that ends within digits loses them.
digits_lost : stream_messages (bytes "404") ≡ []
unfolding stream_messages read_frames read_frame read_count keep_message unless_ended
digits_lost = refl

read_frame-Conserves_example : Conserves (bytes "2 ok<1>") (read_frame (bytes "2 ok<1>"))
read_frame-Conserves_example = read_frame-Conserves (bytes "2 ok<1>")

-- What a message over TCP says behind its priority and version.
abbrev body : Body
body = record {
  stamp = bytes "2003-10-11T22:14:15Z";
  host = bytes "host";
  app = bytes "su";
  pid = bytes "17";
  msgid = bytes "ID47";
  first = (bytes "a@1", (bytes "k", bytes "v\"") ∷ []);
  more = [];
  msg = bytes "failed - now";
}

entry_of_line-write_line_example :
    entry_of_line runtime (write_line auth critical body) sender_ip 9 ≡ record {
      tenant_id = default_tenant;
      ts = stamp_or runtime body.stamp 9;
      app = bytes "su";
      src = bytes "syslog.auth.su";
      lvl = 5;
      pid = bytes "17";
      msg = bytes "failed - now";
      fields = put_elements (body.first ∷ body.more) (
          insert (bytes "msgid") (bytes "ID47") (
            insert
              (bytes "host")
              (bytes "host")
              (insert (bytes "facility") (bytes "auth") (sent_by sender_ip))));
    }
unfolding has_byte text_eq keyword level_of
entry_of_line-write_line_example = entry_of_line-write_line runtime auth critical body sender_ip 9 (
  (refl, refl),
  (refl, refl),
  (refl, refl),
  (refl, refl),
  (refl, refl),
  ((refl, refl, ((refl, refl), tt)), tt),
  (refl, refl),
)
