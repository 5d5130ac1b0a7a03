-- ===== src/Auth/Races.antt =====
-- internal/auth/service.go: calls that interleave, on concrete users.
use logdoc.Common.{◌+◌, ◌≡◌, refl, ap, true, false, some, List, [], ◌∷◌, arith, length}
use logdoc.Common.Text.{bytes, text_eq, text_Eq}
use logdoc.Common.Map.{lookup, insert, remove}
use logdoc.Auth.Store.{admin, admin_count, upsert_user, delete_tokens_of}
use logdoc.Auth.Store.Rows.{Unique}
use logdoc.Auth.Service.Statements.{
  Shared, Request, upserting, deleting, Stage, finding, guarding, counting, writing, removing,
  adding, Job, step, after_find, after_guard, hash_of, write, delete_row, tally, here, there,
  History, idle, starts, advances,
}
use logdoc.Auth.Service.Statements.Alone.{finish}
use logdoc.Auth.Service.Statements.Others.{HasAdmin}
use logdoc.Auth.Service.Statements.Admins.{AdmitsOne, History-HasAdmin}
use logdoc.Auth.Service.Statements.Counts.{AdmitsApart, ups, downs, History-Counted}
use logdoc.Auth.Tests.{clear_text, healthy, account_of}

abbrev shared : Shared
shared = record {
  users = (bytes "ann", account_of admin) ∷ (bytes "bob", account_of admin) ∷ [];
  tokens = [];
  bootstrap_key = [];
  added = 2;
  taken = 0;
}

abbrev delete_ann : Request
delete_ann = deleting (bytes "ann")

abbrev delete_bob : Request
delete_bob = deleting (bytes "bob")

abbrev create_cid : Request
create_cid = upserting (bytes "cid") (bytes "password") admin 7

-- Two deletions that overlap: both pass the guard, and no administrator is left.
guard_passed : step clear_text healthy delete_ann counting shared ≡ (shared, some (writing true))
unfolding step admin_count
guard_passed = refl

no_admin_left :
    admin_count
      (finish clear_text healthy delete_ann 3
        (some (writing true))
        (finish clear_text healthy delete_bob 6 (some finding) shared)).users
    ≡ 0
unfolding finish step after_find after_guard write delete_row tally admin_count lookup remove
    text_eq
no_admin_left = refl

-- Two creations of one user that overlap: the count is 4 for 3 users.
not_found : step clear_text healthy create_cid finding shared ≡ (shared, some (writing false))
unfolding step after_find lookup text_eq
not_found = refl

abbrev created_twice : Shared
created_twice =
    finish clear_text healthy create_cid 2 (some (writing false))
      (finish clear_text healthy create_cid 5 (some finding) shared)

count_drifts : (created_twice.added ≡ 4) × (length created_twice.users ≡ 3)
unfolding finish step after_find write tally hash_of lookup insert upsert_user text_eq
count_drifts = (refl, refl)

-- A deletion and a creation that overlap: the new user has been written, but not counted, and bob has
-- been deleted, but not taken off the count.
abbrev written : Shared
written = record shared {
  users =
      (bytes "ann", account_of admin)
      ∷ (bytes "bob", account_of admin)
      ∷ (bytes "cid", record { pass_hash = bytes "password"; role = admin; created_at = 7 })
      ∷ [];
}

abbrev later : Shared
later = record shared {
  users =
      (bytes "ann", account_of admin)
      ∷ (bytes "cid", record { pass_hash = bytes "password"; role = admin; created_at = 7 })
      ∷ [];
}

abbrev bob_at : Stage → Job
bob_at stage = record { fails = healthy; request = delete_bob; stage = stage }

abbrev cid_at : Stage → Job
cid_at stage = record { fails = healthy; request = create_cid; stage = stage }

abbrev jobs : List Job
jobs = cid_at adding ∷ bob_at adding ∷ []

-- Both have started, bob is found and then cid is not, and cid is written.
history_written :
    (admits : Request → List Job → Type 0)
    → admits delete_bob []
    → admits create_cid (bob_at finding ∷ [])
    → History clear_text admits shared written (cid_at adding ∷ bob_at guarding ∷ [])
unfolding step after_find write hash_of lookup insert upsert_user text_eq
history_written admits a b =
    let h₂ : History clear_text admits shared shared (cid_at finding ∷ bob_at finding ∷ []) =
      starts healthy create_cid b (starts healthy delete_bob a idle) in
    let h₃ : History clear_text admits shared shared (cid_at finding ∷ bob_at guarding ∷ []) =
      advances h₂ (there (cid_at finding) (here shared (bob_at finding) [])) in
    let h₄ : History clear_text admits shared shared
        (cid_at (writing false) ∷ bob_at guarding ∷ []) =
      advances h₃ (here shared (cid_at finding) (bob_at guarding ∷ [])) in
    advances h₄ (here shared (cid_at (writing false)) (bob_at guarding ∷ []))

-- Then bob passes the guard and is deleted.
history :
    (admits : Request → List Job → Type 0)
    → admits delete_bob []
    → admits create_cid (bob_at finding ∷ [])
    → History clear_text admits shared later jobs
unfolding step after_guard write delete_row lookup remove text_eq admin_count delete_tokens_of
history admits a b =
    let h₁ : History clear_text admits shared written (cid_at adding ∷ bob_at counting ∷ []) =
      advances (history_written admits a b)
        (there (cid_at adding) (here written (bob_at guarding) [])) in
    let h₂ : History clear_text admits shared written (cid_at adding ∷ bob_at (writing true) ∷ []) =
      advances h₁ (there (cid_at adding) (here written (bob_at counting) [])) in
    let h₃ : History clear_text admits shared written (cid_at adding ∷ bob_at removing ∷ []) =
      advances h₂ (there (cid_at adding) (here written (bob_at (writing true)) [])) in
    advances h₃ (there (cid_at adding) (here written (bob_at removing) []))

shared-Unique : Unique shared.users
unfolding lookup text_eq
shared-Unique = (refl, (refl, tt))

shared-HasAdmin : HasAdmin shared
unfolding admin_count
shared-HasAdmin _ = omega arith

History-HasAdmin_example : Unique later.users × HasAdmin later
History-HasAdmin_example =
    History-HasAdmin clear_text shared later jobs shared-Unique shared-HasAdmin
      (history AdmitsOne (λ r. tt) (λ r. absurd (cc r)))

History-Counted_example :
    Unique later.users × (later.added + ups jobs ≡ length later.users + later.taken + downs jobs)
unfolding text_eq
History-Counted_example =
    History-Counted clear_text shared later jobs shared-Unique refl
      (history AdmitsApart tt ((λ e. absurd (cc (ap (λ l. text_eq l (bytes "cid")) e))), tt))
