-- ===== src/Ingest/Runtime.antt =====
-- What internal/ingest takes from Go's `time`, `strings` and Unicode tables, as parameters of the model.
use logdoc.Common.{Option}
use logdoc.Common.Text.{Text}
use logdoc.Model.{Time}

pub record Runtime : Type 1 where
  -- strings.TrimSpace
  pub trim_space : Text → Text
  -- strings.ToUpper
  pub to_upper : Text → Text
  -- time.Parse(time.RFC3339Nano, _)
  pub parse_rfc3339_nano : Text → Option Time
  -- what time.Parse(time.Stamp, _) gives, which is a time of the year 0
  pub Stamp : Type 0
  pub parse_stamp : Text → Option Stamp
  -- _.AddDate(now.Year(), 0, 0)
  pub in_year_of : Time → Stamp → Time
  -- _.AddDate(-1, 0, 0)
  pub year_before : Time → Time
  -- _.AddDate(0, 0, 7)
  pub week_after : Time → Time
  -- time.ParseInLocation("060102150405", _, time.Local)
  pub parse_seconds : Text → Option Time
  -- time.ParseInLocation("060201150405.000", _, time.Local)
  pub parse_appender : Text → Option Time
