-- ===== src/Ingest/Ldformat/Tests.antt =====
-- internal/ingest/ldformat.go: the theorems on concrete streams.
use logdoc.Common.{◌≡◌, refl, some, List, [], ◌∷◌, arith}
use logdoc.Common.Text.{bytes, text_eq, has_byte}
use logdoc.Common.Map.{lookup, insert}
use logdoc.Model.{Entry, Fields}
use logdoc.Samples.{plain_runtime}
use logdoc.Ingest.Marks.{IsMarked, value_of}
use logdoc.Ingest.Ldformat.{
  read_events, parse_ld_stream, parse_ld_event, skip_header, read_pairs, has_header, read_pair,
  read_key, emit, unless_failed, ending, empty_key,
}
use logdoc.Ingest.Ldformat.Mapping.{
  entry_from_ld, entry_of, entry_from_ld-IsMarked, event_time, parse_ld_level, level_digit,
  copy_pairs, is_reserved, reserved_keys, add_ip,
}
use logdoc.Ingest.Ldformat.Written.{Item, text, binary, write_events}
use logdoc.Ingest.Ldformat.Written.Events.{events_before, parse_ld_stream-write_events}

-- An event with a text pair and a binary one that holds newlines, and one more event.
abbrev events : List (List Item)
events =
    (text (bytes "app") (bytes "a=b") ∷ binary (bytes "msg") (bytes "x\n\ny") ∷ [])
    ∷ (text (bytes "msg") [] ∷ [])
    ∷ []

-- Behind the events, a key that is not allowed.
parse_ld_stream-write_events_example :
    parse_ld_stream (write_events events (bytes "=x"))
    ≡ events_before events (parse_ld_stream (bytes "=x"))
unfolding has_byte
parse_ld_stream-write_events_example = parse_ld_stream-write_events events (bytes "=x") (
  (((omega arith, omega arith, refl), refl), (((omega arith, omega arith, refl), omega arith), tt)),
  ((((omega arith, omega arith, refl), refl), tt), tt),
)

bad_behind : (parse_ld_stream (bytes "=x")).failure ≡ some empty_key
unfolding parse_ld_stream read_events parse_ld_event skip_header read_pairs has_header read_pair
    read_key emit unless_failed ending
bad_behind = refl

-- A client that claims another address.
abbrev event : Fields
event =
    (bytes "msg", bytes "hi")
    ∷ (bytes "ip", bytes "1.1.1.1")
    ∷ (bytes "lvl", bytes "4")
    ∷ (bytes "k", bytes "v")
    ∷ []

abbrev event_entry : Entry
event_entry = record {
  tenant_id = bytes "default";
  ts = 7;
  app = [];
  src = [];
  lvl = 4;
  pid = [];
  msg = bytes "hi";
  fields = (bytes "k", bytes "v") ∷ (bytes "ip", bytes "10.0.0.7") ∷ [];
}

event_read : entry_from_ld plain_runtime event (bytes "10.0.0.7") 7 ≡ some event_entry
unfolding entry_from_ld entry_of value_of lookup insert text_eq event_time parse_ld_level
    level_digit copy_pairs is_reserved reserved_keys add_ip
event_read = refl

entry_from_ld-IsMarked_example : IsMarked (bytes "10.0.0.7") event_entry
entry_from_ld-IsMarked_example =
    entry_from_ld-IsMarked plain_runtime event (bytes "10.0.0.7") 7 {e = event_entry} event_read
