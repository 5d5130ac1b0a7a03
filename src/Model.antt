-- ===== src/Model.antt =====
-- internal/model/entry.go: levels and log entries.
pub mod Levels
pub mod Tests
use logdoc.Common.{
  ℕ, ◌+◌, ◌-◌, ◌≤◌, ◌≡◌, Bool, true, false, ◌&&◌, Option, none, some, List, [], ◌∷◌, arith, ltb,
  leb, ◌==◌, if◌then◌else◌, length,
}
use logdoc.Common.Text.{Text, bytes}

-- `Level` is a uint8; the constants are 0 to 6.
abbrev pub Level : Type 0
Level = ℕ

abbrev level_debug : Level
level_debug = 0

abbrev level_info : Level
level_info = 1

abbrev level_log : Level
level_log = 2

abbrev level_warn : Level
level_warn = 3

abbrev pub level_error : Level
level_error = 4

abbrev level_severe : Level
level_severe = 5

abbrev level_panic : Level
level_panic = 6

unfoldable pub level_names : List Text
level_names =
    bytes "DEBUG"
    ∷ bytes "INFO"
    ∷ bytes "LOG"
    ∷ bytes "WARN"
    ∷ bytes "ERROR"
    ∷ bytes "SEVERE"
    ∷ bytes "PANIC"
    ∷ []

name_at : List Text → ℕ → Text
name_at [] i = bytes "INFO"
name_at (n ∷ ns) ℕ.zero = n
name_at (n ∷ ns) (ℕ.suc i) = name_at ns i

-- `Level.String`: out of range is "INFO".
unfoldable pub level_string : Level → Text
unfolding name_at level_names
level_string l = name_at level_names l

-- One byte of `equalFold`, in upper case.
pub upper_byte : ℕ → ℕ
upper_byte c = if leb b'a' c && leb c b'z' then c - 32 else c

fold_loop : Text → Text → Bool
unfolding upper_byte
fold_loop (a ∷ s) (b ∷ t) = upper_byte a == upper_byte b && fold_loop s t
fold_loop _ _ = true

unfoldable pub equal_fold : Text → Text → Bool
unfolding fold_loop
equal_fold a b = if length a == length b then fold_loop a b else false

find_level : Text → ℕ → List Text → Option Level
unfolding equal_fold
find_level s i [] = none
find_level s i (name ∷ names) =
    let rest = find_level s (i + 1) names in if equal_fold s name then some i else rest

or_info : Option Level → Level
or_info none = level_info
or_info (some l) = l

pub parse_level : Text → Level
unfolding find_level or_info level_names
parse_level s = or_info (find_level s 0 level_names)

abbrev pub default_tenant : Text
default_tenant = bytes "default"

-- Instants are counted in nanoseconds from Go's zero time, which is 0.
abbrev pub Time : Type 0
Time = ℕ

abbrev pub Fields : Type 0
Fields = List (Text × Text)

pub record Entry : Type 0 where
  pub tenant_id : Text
  pub ts : Time
  pub app : Text
  pub src : Text
  pub lvl : Level
  pub pid : Text
  pub msg : Text
  pub fields : Fields
