-- ===== src/Auth/Service/Credentials.antt =====
-- internal/auth/service.go: whom a credential stands for.
use logdoc.Common.{
  ◌≡◌, ◌≢◌, refl, true, false, not, ◌&&◌, Option, none, some, [], arith, Bool-cases, Option-cases,
  inl, inr, ok, subst,
}
use logdoc.Common.Text.{Text, is_empty, text_eq, text_Eq, text_eq_iff}
use logdoc.Common.Map.{lookup, lookup-remove}
use logdoc.Auth.Store.{admin, Account}
use logdoc.Auth.Service.{
  Crypto, Faults, Identity, Service, open_mode, login_of, identity_of, identify, guard_last_admin,
  remove_user, delete_account, find_user,
}

-- What the service knows of an identity when it hands it out: that nobody needs one, that it is
-- the bootstrap key, or the present role of a user.
pub data Vouched (s : Service) (cred : Text) (who : Identity) : Type 0 where
  nobody : open_mode s ≡ true → who.role ≡ admin → Vouched s cred who
  by_key : s.bootstrap_key ≢ [] → cred ≡ s.bootstrap_key → who.is_key ≡ true → Vouched s cred who
  as_user :
      {a : Account}
      → open_mode s ≡ false
      → lookup who.login s.users ≡ some a
      → who.role ≡ a.role
      → who.is_key ≡ false
      → Vouched s cred who

some_eq : {a b : Identity} → some a ≡ some b → a ≡ b
some_eq p = cc

module _ (c : Crypto) where
  identity_of-Vouched :
      (fails : Faults) (o : Option Text) (cred : Text) (s : Service) {who : Identity}
      → open_mode s ≡ false
      → identity_of c fails o s ≡ some who
      → Vouched s cred who
  unfolding identity_of
  identity_of-Vouched fails none cred s p h = absurd (cc)
  identity_of-Vouched fails (some login) cred s {who} p h = elim (Bool-cases (fails find_user)) [
    | inl down ↦ absurd (ground arith)
    | inr up ↦ elim (Option-cases (lookup login s.users)) [
      | inl e ↦ absurd (ground arith)
      | inr (a, e) ↦
          let same : record { login = login; role = a.role; is_key = false } ≡ who = ground arith in
          subst (Vouched s cred) same (as_user {a = a} p e refl refl)
    ]
  ]

  -- An identity is handed out only in open mode, for the bootstrap key, or for a user of the table
  -- with the role that stands there now.
  pub identify-Vouched :
      (fails : Faults) (cred : Text) (s : Service) (who : Identity)
      → identify c fails cred s ≡ some who
      → Vouched s cred who
  unfolding identify
  identify-Vouched fails cred s who h = elim (Bool-cases (open_mode s)) [
    | inl p ↦ nobody p (ground arith)
    | inr p ↦ elim (Bool-cases (is_empty cred)) [
      | inl q ↦ absurd (ground arith)
      | inr q ↦ elim (Bool-cases (not (is_empty s.bootstrap_key) && text_eq cred s.bootstrap_key)) [
        | inl k ↦
            by_key (ground arith) (ground (arith, text_eq_iff cred s.bootstrap_key)) (ground arith)
        | inr k ↦ identity_of-Vouched fails (login_of c fails cred s) cred s p (rw (p, q, k) at h)
      ]
    ]
  ]

delete_account-gone :
    (fails : Faults) (login : Text) (s : Service)
    → (delete_account fails login s).1 ≡ ok true
    → lookup login (delete_account fails login s).0.users ≡ none
unfolding delete_account remove_user
delete_account-gone fails login s h = elim (Option-cases (guard_last_admin fails login s)) [
  | inl g ↦ ground (arith, lookup-remove login login s.users, text_eq_iff login login)
  | inr (x, g) ↦ absurd (ground arith)
]

Vouched-deleted :
    (s : Service) (cred login : Text) (who : Identity)
    → Vouched s cred who
    → lookup login s.users ≡ none
    → open_mode s ≡ false
    → who.is_key ≡ false
    → who.login ≢ login
Vouched-deleted s cred login who (nobody p r) gone closed k e = cc
Vouched-deleted s cred login who (by_key b m y) gone closed k e = cc
Vouched-deleted s cred login who (as_user p l r n) gone closed k e = cc

-- Once a user is deleted, and the server is not in open mode, an identity that is handed out for any
-- credential, other than the identity of the bootstrap key, is not that user's.
pub identify-delete_account :
    (c : Crypto) (fails fails' : Faults) (login cred : Text) (s : Service) (who : Identity)
    → (delete_account fails login s).1 ≡ ok true
    → open_mode (delete_account fails login s).0 ≡ false
    → identify c fails' cred (delete_account fails login s).0 ≡ some who
    → who.is_key ≡ false
    → who.login ≢ login
identify-delete_account c fails fails' login cred s who done closed h k =
    Vouched-deleted (delete_account fails login s).0 cred login who
      (identify-Vouched c fails' cred (delete_account fails login s).0 who h)
      (delete_account-gone fails login s done) closed k
