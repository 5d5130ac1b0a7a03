-- ===== src/Ingest/Syslog/Codes.antt =====
-- RFC 5424, section 6.2.1: the facilities and severities, apart from the tables of
-- internal/ingest/syslog.go.
use logdoc.Common.{ℕ, ◌+◌, ◌*◌, ◌/◌, ◌%◌, ◌≡◌, ◌≤◌, ◌<◌, refl, ap, ◌∙◌, arith}
use logdoc.Common.Text.{Text, bytes}
use logdoc.Model.{Level}
use logdoc.Ingest.Syslog.Tables.{
  facility_name, facility_names, severity_level, severity_to_level, get_elem?,
}

pub data Facility : Type 0 where
  kern : Facility
  user : Facility
  mail : Facility
  daemon : Facility
  auth : Facility
  syslog : Facility
  lpr : Facility
  news : Facility
  uucp : Facility
  cron : Facility
  authpriv : Facility
  ftp : Facility
  ntp : Facility
  log_audit : Facility
  log_alert : Facility
  clock_daemon : Facility
  local0 : Facility
  local1 : Facility
  local2 : Facility
  local3 : Facility
  local4 : Facility
  local5 : Facility
  local6 : Facility
  local7 : Facility

-- The numerical code.
unfoldable pub facility_code : Facility → ℕ
facility_code kern = 0
facility_code user = 1
facility_code mail = 2
facility_code daemon = 3
facility_code auth = 4
facility_code syslog = 5
facility_code lpr = 6
facility_code news = 7
facility_code uucp = 8
facility_code cron = 9
facility_code authpriv = 10
facility_code ftp = 11
facility_code ntp = 12
facility_code log_audit = 13
facility_code log_alert = 14
facility_code clock_daemon = 15
facility_code local0 = 16
facility_code local1 = 17
facility_code local2 = 18
facility_code local3 = 19
facility_code local4 = 20
facility_code local5 = 21
facility_code local6 = 22
facility_code local7 = 23

-- The keyword, as a field of the entry and in its source.
unfoldable pub keyword : Facility → Text
keyword kern = bytes "kern"
keyword user = bytes "user"
keyword mail = bytes "mail"
keyword daemon = bytes "daemon"
keyword auth = bytes "auth"
keyword syslog = bytes "syslog"
keyword lpr = bytes "lpr"
keyword news = bytes "news"
keyword uucp = bytes "uucp"
keyword cron = bytes "cron"
keyword authpriv = bytes "authpriv"
keyword ftp = bytes "ftp"
keyword ntp = bytes "ntp"
keyword log_audit = bytes "audit"
keyword log_alert = bytes "alert"
keyword clock_daemon = bytes "clock"
keyword local0 = bytes "local0"
keyword local1 = bytes "local1"
keyword local2 = bytes "local2"
keyword local3 = bytes "local3"
keyword local4 = bytes "local4"
keyword local5 = bytes "local5"
keyword local6 = bytes "local6"
keyword local7 = bytes "local7"

pub data Severity : Type 0 where
  emergency : Severity
  alert : Severity
  critical : Severity
  error : Severity
  warning : Severity
  notice : Severity
  informational : Severity
  debug : Severity

-- The numerical code.
unfoldable pub severity_code : Severity → ℕ
severity_code emergency = 0
severity_code alert = 1
severity_code critical = 2
severity_code error = 3
severity_code warning = 4
severity_code notice = 5
severity_code informational = 6
severity_code debug = 7

-- The level of an entry, from PANIC for an emergency to DEBUG.
unfoldable pub level_of : Severity → Level
level_of emergency = 6
level_of alert = 5
level_of critical = 5
level_of error = 4
level_of warning = 3
level_of notice = 2
level_of informational = 1
level_of debug = 0

abbrev pub priority : Facility → Severity → ℕ
priority f s = facility_code f * 8 + severity_code s

facility_code_bound : (f : Facility) → facility_code f ≤ 23
unfolding facility_code
facility_code_bound kern = omega arith
facility_code_bound user = omega arith
facility_code_bound mail = omega arith
facility_code_bound daemon = omega arith
facility_code_bound auth = omega arith
facility_code_bound syslog = omega arith
facility_code_bound lpr = omega arith
facility_code_bound news = omega arith
facility_code_bound uucp = omega arith
facility_code_bound cron = omega arith
facility_code_bound authpriv = omega arith
facility_code_bound ftp = omega arith
facility_code_bound ntp = omega arith
facility_code_bound log_audit = omega arith
facility_code_bound log_alert = omega arith
facility_code_bound clock_daemon = omega arith
facility_code_bound local0 = omega arith
facility_code_bound local1 = omega arith
facility_code_bound local2 = omega arith
facility_code_bound local3 = omega arith
facility_code_bound local4 = omega arith
facility_code_bound local5 = omega arith
facility_code_bound local6 = omega arith
facility_code_bound local7 = omega arith

severity_code_bound : (s : Severity) → severity_code s < 8
unfolding severity_code
severity_code_bound emergency = omega arith
severity_code_bound alert = omega arith
severity_code_bound critical = omega arith
severity_code_bound error = omega arith
severity_code_bound warning = omega arith
severity_code_bound notice = omega arith
severity_code_bound informational = omega arith
severity_code_bound debug = omega arith

pub priority_bound : (f : Facility) (s : Severity) → priority f s ≤ 191
priority_bound f s = omega (arith, facility_code_bound f, severity_code_bound s)

-- The names of the code are the keywords.
name_of_code : (f : Facility) → facility_name (facility_code f) ≡ keyword f
unfolding facility_name facility_names get_elem? facility_code keyword
name_of_code kern = refl
name_of_code user = refl
name_of_code mail = refl
name_of_code daemon = refl
name_of_code auth = refl
name_of_code syslog = refl
name_of_code lpr = refl
name_of_code news = refl
name_of_code uucp = refl
name_of_code cron = refl
name_of_code authpriv = refl
name_of_code ftp = refl
name_of_code ntp = refl
name_of_code log_audit = refl
name_of_code log_alert = refl
name_of_code clock_daemon = refl
name_of_code local0 = refl
name_of_code local1 = refl
name_of_code local2 = refl
name_of_code local3 = refl
name_of_code local4 = refl
name_of_code local5 = refl
name_of_code local6 = refl
name_of_code local7 = refl

level_of_code : (s : Severity) → severity_level (severity_code s) ≡ level_of s
unfolding severity_level severity_to_level get_elem? severity_code level_of
level_of_code emergency = refl
level_of_code alert = refl
level_of_code critical = refl
level_of_code error = refl
level_of_code warning = refl
level_of_code notice = refl
level_of_code informational = refl
level_of_code debug = refl

pub facility_name-priority :
    (f : Facility) (s : Severity) → facility_name (priority f s / 8) ≡ keyword f
facility_name-priority f s =
    let e : priority f s / 8 ≡ facility_code f = omega (arith, severity_code_bound s) in
    ap facility_name e ∙ name_of_code f

pub severity_level-priority :
    (f : Facility) (s : Severity) → severity_level (priority f s % 8) ≡ level_of s
severity_level-priority f s =
    let e : priority f s % 8 ≡ severity_code s = omega (arith, severity_code_bound s) in
    ap severity_level e ∙ level_of_code s
