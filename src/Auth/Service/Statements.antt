-- ===== src/Auth/Service/Statements.antt =====
-- internal/auth/service.go: UpsertUser and DeleteUser statement by statement, as handlers that run at
-- once interleave them. The database has one connection, so that a statement is atomic; the service
-- has no mutex, so that a call is not. Each call carries the statements that fail in it. A call that
-- returns before its first statement (an unknown role, an empty login) has no steps.
pub mod Alone
pub mod Others
pub mod Rows
pub mod Admins
pub mod Counts
use logdoc.Common.{
  ℕ, ◌+◌, Bool, true, false, not, ◌&&◌, Option, none, some, List, [], ◌∷◌, ltb, leb, if◌then◌else◌,
  length,
}
use logdoc.Common.Text.{Text, is_empty, text_Eq}
use logdoc.Common.Map.{lookup, remove}
use logdoc.Model.{Time}
use logdoc.Auth.Store.{
  Role, is_admin, Account, Users, TokenRow, admin_count, upsert_user, delete_tokens_of,
}
use logdoc.Auth.Service.{
  Crypto, Faults, is_some, find_user, guard_user, count_admins, write_user, delete_tokens,
  delete_user,
}

-- What the calls share. The cached count is `added`, which starts as the count of `NewService` and
-- grows with each users.Add(1), less `taken`, which grows with each users.Add(-1).
pub record Shared : Type 0 where
  pub users : Users
  pub tokens : List TokenRow
  pub bootstrap_key : Text
  pub added : ℕ
  pub taken : ℕ

-- `UpsertUser` with the role parsed, and `DeleteUser`.
pub data Request : Type 0 where
  upserting : Text → Text → Role → Time → Request
  deleting : Text → Request

abbrev pub target : Request → Text
target (upserting login password r now) = login
target (deleting login) = login

-- Where a call stands: before getUser, the getUser and the adminCount of guardLastAdmin, the first
-- statement that writes (with whether the user was found), the deletion of the user, users.Add.
pub data Stage : Type 0 where
  finding guarding counting : Stage
  writing : Bool → Stage
  removing adding : Stage

-- After getUser; none if the call returns.
unfoldable pub after_find : Request → Bool → Bool → Option Stage
after_find (upserting login password r now) existed has_key =
    if not existed && ltb (length password) 8
    then none
    else if not (is_empty password) && ltb (length password) 8
    then none
    else if existed && not (is_admin r)
    then some (if has_key then writing true else guarding)
    else some (writing existed)
after_find (deleting login) existed has_key =
    if not existed then none else some (if has_key then writing true else guarding)

-- After the getUser of guardLastAdmin.
unfoldable pub after_guard : Option Account → Stage
after_guard none = writing true
after_guard (some a) = if is_admin a.role then counting else writing true

-- The hash of a password; an empty one keeps the old hash.
unfoldable pub hash_of : Crypto → Text → Option Text
hash_of c [] = some []
hash_of c (p ∷ ps) = c.hash_password (p ∷ ps)

unfoldable pub write : Crypto → Faults → Request → Bool → Shared → Shared × Option Stage
write c fails (upserting login password r now) existed sh = elim (hash_of c password) [
  | none ↦ (sh, none)
  | some hash ↦ if fails write_user then (sh, none) else (
    record sh { users = upsert_user login hash r now sh.users },
    if existed then none else some adding,
  )
]
write c fails (deleting login) existed sh =
    if fails delete_tokens
    then (sh, none)
    else (record sh { tokens = delete_tokens_of login sh.tokens }, some removing)

unfoldable pub delete_row : Faults → Request → Shared → Shared × Option Stage
delete_row fails (upserting login password r now) sh = (sh, none)
delete_row fails (deleting login) sh =
    if fails delete_user
    then (sh, none)
    else (record sh { users = remove login sh.users }, some adding)

-- users.Add
unfoldable pub tally : Request → Shared → Shared
tally (upserting login password r now) sh = record sh { added = sh.added + 1 }
tally (deleting login) sh = record sh { taken = sh.taken + 1 }

-- One statement of a call, and where the call stands then; none if it has returned.
unfoldable pub step : Crypto → Faults → Request → Stage → Shared → Shared × Option Stage
step c fails req finding sh = (
  sh,
  if fails find_user
      then none
      else after_find req (is_some (lookup (target req) sh.users))
          (not (is_empty sh.bootstrap_key)),
)
step c fails req guarding sh =
    (sh, if fails guard_user then none else some (after_guard (lookup (target req) sh.users)))
step c fails req counting sh = (
  sh,
  if fails count_admins
      then none
      else if leb (admin_count sh.users) 1
      then none
      else some (writing true),
)
step c fails req (writing existed) sh = write c fails req existed sh
step c fails req removing sh = delete_row fails req sh
step c fails req adding sh = (tally req sh, none)

-- A call in progress.
pub record Job : Type 0 where
  pub fails : Faults
  pub request : Request
  pub stage : Stage

-- The calls in progress, after one of them has come to a stage or returned.
abbrev pub moved : Job → Option Stage → List Job → List Job
moved j none jobs = jobs
moved j (some stage) jobs = record j { stage = stage } ∷ jobs

-- Any one of the calls in progress runs its next statement.
pub data Advance (c : Crypto) : Shared → List Job → Shared → List Job → Type 0 where
  here :
      (sh : Shared) (j : Job) (jobs : List Job)
      → Advance c sh
          (j ∷ jobs)
          (step c j.fails j.request j.stage sh).0
          (moved j (step c j.fails j.request j.stage sh).1 jobs)
  there :
      (j : Job) {sh sh' : Shared} {jobs jobs' : List Job}
      → Advance c sh jobs sh' jobs'
      → Advance c sh (j ∷ jobs) sh' (j ∷ jobs')

-- A history: calls start and advance in any order, where a call starts only beside calls that
-- `admits` allows.
pub data History (c : Crypto) (admits : Request → List Job → Type 0) (sh₀ : Shared)
    : Shared → List Job → Type 0 where
  idle : History c admits sh₀ sh₀ []
  starts :
      (fails : Faults) (req : Request) {sh : Shared} {jobs : List Job}
      → admits req jobs
      → History c admits sh₀ sh jobs
      → History c admits sh₀ sh (record { fails = fails; request = req; stage = finding } ∷ jobs)
  advances :
      {sh sh' : Shared} {jobs jobs' : List Job}
      → History c admits sh₀ sh jobs
      → Advance c sh jobs sh' jobs'
      → History c admits sh₀ sh' jobs'
