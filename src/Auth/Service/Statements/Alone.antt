-- ===== src/Auth/Service/Statements/Alone.antt =====
-- internal/auth/service.go: a call whose statements no other call comes between.
use logdoc.Common.{
  ℕ, zero, suc, ◌+◌, ◌≡◌, false, Option, none, some, [], ◌∷◌, arith, Option-cases, inl, inr,
}
use logdoc.Common.Text.{Text, is_empty, text_Eq}
use logdoc.Model.{Time}
use logdoc.Auth.Store.{Role}
use logdoc.Auth.Service.{
  Crypto, Faults, Service, guard_last_admin, write_account, with_hash, guarded, upsert_as,
  remove_user, delete_account,
}
use logdoc.Auth.Service.Statements.{
  Shared, Request, upserting, deleting, Stage, finding, after_find, after_guard, hash_of, write,
  delete_row, tally, step,
}

-- The next statements of a call, at most so many.
unfoldable pub finish : Crypto → Faults → Request → ℕ → Option Stage → Shared → Shared
finish c fails req zero o sh = sh
finish c fails req (suc n) none sh = sh
finish c fails req (suc n) (some stage) sh =
    let r = step c fails req stage sh in finish c fails req n r.1 r.0

-- What the statements of a service work on.
abbrev pub shared_of : Service → Shared
shared_of s = record {
  users = s.users;
  tokens = s.tokens;
  bootstrap_key = s.bootstrap_key;
  added = s.user_count;
  taken = 0;
}

-- The statements of a deletion, of which there are at most six, one after the other, leave the tables
-- that `delete_account` leaves.
pub finish-delete_account :
    (c : Crypto) (fails : Faults) (login : Text) (s : Service)
    → let after = finish c fails (deleting login) 6 (some finding) (shared_of s) in
      (after.users ≡ (delete_account fails login s).0.users)
      × (after.tokens ≡ (delete_account fails login s).0.tokens)
unfolding finish step after_find after_guard write delete_row tally delete_account remove_user
    guard_last_admin
finish-delete_account c fails login s = ground arith

-- So do those of an upsert, of which there are at most five, for a login that is not empty; the count
-- then is the one that `upsert_as` leaves.
pub finish-upsert_as :
    (c : Crypto) (fails : Faults) (login password : Text) (r : Role) (now : Time) (s : Service)
    → is_empty login ≡ false
    → let after = finish c fails (upserting login password r now) 5 (some finding) (shared_of s) in
      let atomic = (upsert_as c fails login password r now s).0 in
      (after.users ≡ atomic.users)
      × (after.tokens ≡ atomic.tokens)
      × (after.added ≡ atomic.user_count + after.taken)
unfolding finish step after_find after_guard write tally upsert_as guarded with_hash write_account
    guard_last_admin hash_of
finish-upsert_as c fails login [] r now s n = ground arith
finish-upsert_as c fails login (p ∷ ps) r now s n = elim (Option-cases (c.hash_password (p ∷ ps))) [
  | inl e ↦ ground arith
  | inr (hash, e) ↦ ground arith
]
