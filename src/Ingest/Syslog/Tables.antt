-- ===== src/Ingest/Syslog/Tables.antt =====
-- internal/ingest/syslog.go: facilities and severities, and the times without a year.
use logdoc.Common.{ℕ, zero, suc, Option, none, some, List, [], ◌∷◌, ltb, if◌then◌else◌}
use logdoc.Common.Text.{Text, bytes}
use logdoc.Model.{Level, Time}
use logdoc.Ingest.Runtime.{Runtime}

unfoldable pub get_elem? {ℓ} : {A : Type ℓ} → List A → ℕ → Option A
get_elem? [] i = none
get_elem? (x ∷ xs) zero = some x
get_elem? (x ∷ xs) (suc i) = get_elem? xs i

unfoldable pub facility_names : List Text
facility_names =
    bytes "kern"
    ∷ bytes "user"
    ∷ bytes "mail"
    ∷ bytes "daemon"
    ∷ bytes "auth"
    ∷ bytes "syslog"
    ∷ bytes "lpr"
    ∷ bytes "news"
    ∷ bytes "uucp"
    ∷ bytes "cron"
    ∷ bytes "authpriv"
    ∷ bytes "ftp"
    ∷ bytes "ntp"
    ∷ bytes "audit"
    ∷ bytes "alert"
    ∷ bytes "clock"
    ∷ bytes "local0"
    ∷ bytes "local1"
    ∷ bytes "local2"
    ∷ bytes "local3"
    ∷ bytes "local4"
    ∷ bytes "local5"
    ∷ bytes "local6"
    ∷ bytes "local7"
    ∷ []

-- The levels by severity, from emerg to debug.
unfoldable pub severity_to_level : List Level
severity_to_level = 6 ∷ 5 ∷ 5 ∷ 4 ∷ 3 ∷ 2 ∷ 1 ∷ 0 ∷ []

-- A facility beyond the table is "user".
unfoldable pub facility_name : ℕ → Text
unfolding facility_names get_elem?
facility_name f = elim (get_elem? facility_names f) [ none ↦ bytes "user" | some n ↦ n ]

-- The severity is the remainder of a division by 8, so that the index is always in range.
unfoldable pub severity_level : ℕ → Level
unfolding severity_to_level get_elem?
severity_level s = elim (get_elem? severity_to_level s) [ none ↦ 0 | some l ↦ l ]

-- A time without a year: in the year of now, or the one before if that is over a week ahead.
unfoldable pub stamp_time : (go : Runtime) → Time → go.Stamp → Time
stamp_time go now st =
    let t = go.in_year_of now st in if ltb (go.week_after now) t then go.year_before t else t
