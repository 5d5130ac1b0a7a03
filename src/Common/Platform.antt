-- ===== src/Common/Platform.antt =====
-- What the program takes from Go's `regexp`, `time` and Unicode tables, as parameters of the model.
use Prim.Native.Nat.{ℕ}
use mathlib.Core.Bool.{Bool}
use mathlib.Core.Option.{Option}
use logdoc.Common.Text.{Text}

pub record Platform : Type 1 where
  pub Re : Type 0
  -- regexp.Compile, none for an error
  pub compile_re : Text → Option Re
  -- (*Regexp).MatchString
  pub match_string : Re → Text → Bool
  -- strings.ToLower
  pub to_lower : Text → Text
  -- strings.TrimSpace
  pub trim_space : Text → Text
  -- time.Parse(time.RFC3339, _) as nanoseconds from the zero time
  pub parse_rfc3339 : Text → Option ℕ
