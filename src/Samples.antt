-- ===== src/Samples.antt =====
-- Concrete values for the tests: a platform, entries and rules.
use logdoc.Ingest.Runtime.{Runtime}
use logdoc.Common.{ℕ, ◌+◌, ◌*◌, none, some, [], ◌∷◌, map, if◌then◌else◌, leb, ◌&&◌}
use logdoc.Common.Int.{pos, second}
use logdoc.Common.Text.{Text, bytes, contains}
use logdoc.Common.Platform.{Platform}
use logdoc.Model.{Level, Time, Fields, Entry}
use logdoc.Notify.Rule.{RuleConfig}

abbrev lower_byte : ℕ → ℕ
lower_byte c = if leb b'A' c && leb c b'Z' then c + 32 else c

-- Regular expressions that are plain texts, and no times.
abbrev pub plain : Platform
plain = record {
  Re = Text;
  compile_re = λ s. some s;
  match_string = λ re s. contains s re;
  to_lower = map lower_byte;
  trim_space = λ s. s;
  parse_rfc3339 = λ s. none;
}

abbrev entry_of : Text → Level → Text → Fields → Time → Entry
entry_of app lvl msg fields ts = record {
  tenant_id = bytes "default";
  ts = ts;
  app = app;
  src = bytes "main";
  lvl = lvl;
  pid = [];
  msg = msg;
  fields = fields;
}

abbrev pub failed : Entry
failed = entry_of (bytes "shop") 4 (bytes "Payment failed") ((bytes "trace_id", bytes "t1") ∷ []) 7

abbrev pub billed : Entry
billed = entry_of (bytes "bank") 1 (bytes "billed") ((bytes "trace_id", bytes "t1") ∷ []) 9

-- Two errors of the shop within 20 seconds, with a minute between fires, at most 3 of them.
abbrev pub two_errors : RuleConfig
two_errors = record {
  name = bytes "two";
  typ = bytes "error_threshold";
  app = bytes "shop";
  threshold = pos 2;
  window = pos (20 * second);
  cooldown = pos (60 * second);
  channels = [];
  condition = none;
  max_fires = some (pos 3);
}

-- A clock that reads no text, and texts as they are.
abbrev pub plain_runtime : Runtime
plain_runtime = record {
  trim_space = λ s. s;
  to_upper = λ s. s;
  parse_rfc3339_nano = λ s. none;
  Stamp = ℕ;
  parse_stamp = λ s. none;
  in_year_of = λ now st. now;
  year_before = λ t. t;
  week_after = λ t. t;
  parse_seconds = λ s. none;
  parse_appender = λ s. none;
}
