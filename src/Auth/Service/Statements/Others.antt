-- ===== src/Auth/Service/Statements/Others.antt =====
-- internal/auth/service.go: what one statement of a call does to the administrators that others rely on.
use logdoc.Common.{
  ◌+◌, ◌≡◌, ◌≤◌, refl, Bool, true, false, not, Option, none, some, arith, if◌then◌else◌,
  Option-cases, Bool-cases, inl, inr, subst, sym,
}
use logdoc.Common.Text.{Text, is_empty, text_eq, text_eq_iff, text_Eq}
use logdoc.Common.Map.{lookup, remove, lookup-insert}
use logdoc.Model.{Time}
use logdoc.Auth.Store.{
  Role, admin, member, is_admin, Account, Users, admin_count, upsert_user, upserted,
  delete_tokens_of,
}
use logdoc.Auth.Store.Rows.{
  Unique, admins_of, Unique-insert, Unique-remove, admin_count-insert, admin_count-remove,
}
use logdoc.Auth.Service.{Crypto, Faults, is_some}
use logdoc.Auth.Service.Statements.{
  Shared, Request, upserting, deleting, target, Stage, finding, guarding, counting, writing,
  removing, adding, after_find, after_guard, hash_of, write, delete_row, tally, step, Job,
}

-- Somebody can administer: by the bootstrap key, or as a user.
abbrev pub HasAdmin : Shared → Type 0
HasAdmin sh = is_empty sh.bootstrap_key ≡ true → 1 ≤ admin_count sh.users

-- A deletion, or an upsert that makes a member.
abbrev pub removes : Request → Bool
removes (upserting login password r now) = not (is_admin r)
removes (deleting login) = true

abbrev pub IsHarmless : Job → Type 0
IsHarmless j = removes j.request ≡ false

-- Somebody else than the user can administer.
abbrev pub Others : Shared → Text → Type 0
Others sh login =
    is_empty sh.bootstrap_key ≡ true → admins_of (lookup login sh.users) + 1 ≤ admin_count sh.users

-- A call that has passed the guard relies on another administrator.
abbrev pub IsSafe : Shared → Request → Stage → Type 0
IsSafe sh req (writing existed) = removes req ≡ true → Others sh (target req)
IsSafe sh req removing = removes req ≡ true → Others sh (target req)
IsSafe sh req _ = Unit

abbrev pub IsSafeOption : Shared → Request → Option Stage → Type 0
IsSafeOption sh req none = Unit
IsSafeOption sh req (some stage) = IsSafe sh req stage

abbrev pub IsSafeJob : Shared → Job → Type 0
IsSafeJob sh j = IsSafe sh j.request j.stage

pub record Good (sh : Shared) : Type 0 where
  pub unique : Unique sh.users
  pub admins : HasAdmin sh

admins_of_le : (o : Option Account) → admins_of o ≤ 1
admins_of_le none = omega arith
admins_of_le (some a) = ground arith

admins_upserted :
    (o : Option Account) (hash : Text) (r : Role) (now : Time)
    → admins_of (some (upserted o hash r now)) ≡ (if is_admin r then 1 else 0)
admins_upserted none hash r now = refl
admins_upserted (some a) hash r now = refl

-- An upsert to an administrator takes no other administrator away.
Others-upsert_user :
    (users : Users) (login x hash : Text) (now : Time)
    → admins_of (lookup x users) + 1 ≤ admin_count users
    → admins_of (lookup x (upsert_user login hash admin now users)) + 1
      ≤ admin_count (upsert_user login hash admin now users)
unfolding upsert_user
Others-upsert_user users login x hash now h =
    let v = upserted (lookup login users) hash admin now in
    let e = admin_count-insert login v users in
    let a = admins_upserted (lookup login users) hash admin now in
    let l = lookup-insert login x v users in
    elim (Bool-cases (text_eq login x)) [
      | inl q ↦
          let same : login ≡ x = (text_eq_iff login x).0 q in
          let h' : admins_of (lookup login users) + 1 ≤ admin_count users =
            subst (λ k. admins_of (lookup k users) + 1 ≤ admin_count users) (sym same) h in
          rw (l, q) (omega (arith, e, a, h'))
      | inr q ↦ rw (l, q) (omega (arith, e, a, h, admins_of_le (lookup login users)))
    ]

-- An upsert leaves an administrator, if there is another one where it makes a member.
admin_count-upsert_user :
    (users : Users) (login hash : Text) (r : Role) (now : Time)
    → 1 ≤ admin_count users
    → (not (is_admin r) ≡ true → admins_of (lookup login users) + 1 ≤ admin_count users)
    → 1 ≤ admin_count (upsert_user login hash r now users)
unfolding upsert_user
admin_count-upsert_user users login hash admin now h o =
    let v = upserted (lookup login users) hash admin now in
    omega (
      arith,
      h,
      admin_count-insert login v users,
      admins_upserted (lookup login users) hash admin now,
      admins_of_le (lookup login users),
    )
admin_count-upsert_user users login hash member now h o =
    let v = upserted (lookup login users) hash member now in
    omega (
      arith,
      o refl,
      admin_count-insert login v users,
      admins_upserted (lookup login users) hash member now,
    )

Unique-upsert_user :
    (users : Users) (login hash : Text) (r : Role) (now : Time)
    → Unique users
    → Unique (upsert_user login hash r now users)
unfolding upsert_user
Unique-upsert_user users login hash r now u =
    Unique-insert login (upserted (lookup login users) hash r now) users u

module _ (c : Crypto) (fails : Faults) where
  write-Good :
      (req : Request) (existed : Bool) (sh : Shared)
      → Good sh
      → IsSafe sh req (writing existed)
      → Good (write c fails req existed sh).0
  unfolding write
  write-Good (upserting login pw r now) existed sh g s = elim (Option-cases (hash_of c pw)) [
    | inl e ↦ rw (write, e) g
    | inr (hash, e) ↦
        let done : Good (record sh { users = upsert_user login hash r now sh.users }) = record {
          unique = Unique-upsert_user sh.users login hash r now g.unique;
          admins = λ k. admin_count-upsert_user sh.users login hash r now (g.admins k) (λ m. s m k);
        } in
        rw (write, e) (ground arith)
  ]
  write-Good (deleting login) existed sh g s =
      let done : Good (record sh { tokens = delete_tokens_of login sh.tokens }) = record {
        unique = g.unique;
        admins = g.admins;
      } in
      ground arith

  delete_row-Good :
      (req : Request) (sh : Shared)
      → Good sh
      → IsSafe sh req removing
      → Good (delete_row fails req sh).0
  unfolding delete_row
  delete_row-Good (upserting login pw r now) sh g s = g
  delete_row-Good (deleting login) sh g s =
      let done : Good (record sh { users = remove login sh.users }) = record {
        unique = Unique-remove login sh.users g.unique;
        admins = λ k. omega (arith, s refl k, admin_count-remove login sh.users g.unique);
      } in
      ground arith

  pub step-Good :
      (req : Request) (stage : Stage) (sh : Shared)
      → Good sh
      → IsSafe sh req stage
      → Good (step c fails req stage sh).0
  unfolding step tally
  step-Good req finding sh g s = g
  step-Good req guarding sh g s = g
  step-Good req counting sh g s = g
  step-Good req (writing existed) sh g s = write-Good req existed sh g s
  step-Good req removing sh g s = delete_row-Good req sh g s
  step-Good (upserting login pw r now) adding sh g s = record {
    unique = g.unique;
    admins = g.admins;
  }
  step-Good (deleting login) adding sh g s = record { unique = g.unique; admins = g.admins }

  find-IsSafe :
      (req : Request) (sh : Shared)
      → Good sh
      → IsSafeOption sh req (
          after_find req (is_some (lookup (target req) sh.users)) (not (is_empty sh.bootstrap_key)))
  unfolding after_find
  find-IsSafe (upserting login pw r now) sh g = ground (arith, g.admins)
  find-IsSafe (deleting login) sh g = ground (arith, g.admins)

  pub step-IsSafe :
      (req : Request) (stage : Stage) (sh : Shared)
      → Good sh
      → IsSafe sh req stage
      → IsSafeOption (step c fails req stage sh).0 req (step c fails req stage sh).1
  unfolding step after_guard write delete_row
  step-IsSafe req finding sh g s = ground (arith, find-IsSafe req sh g)
  step-IsSafe req guarding sh g s = ground (arith, g.admins)
  step-IsSafe req counting sh g s = ground (arith, admins_of_le (lookup (target req) sh.users))
  step-IsSafe (upserting login pw r now) (writing existed) sh g s =
      elim (Option-cases (hash_of c pw)) [
        | inl e ↦ rw (step, write, e) tt
        | inr (hash, e) ↦ rw (step, write, e) (ground arith)
      ]
  step-IsSafe (deleting login) (writing existed) sh g s = ground arith
  step-IsSafe (upserting login pw r now) removing sh g s = ground arith
  step-IsSafe (deleting login) removing sh g s = ground arith
  step-IsSafe req adding sh g s = tt

  -- What a call that takes no administrator away does to what another one relies on.
  pub step-Others :
      (req : Request) (stage : Stage) (sh : Shared) (x : Text)
      → removes req ≡ false
      → Others sh x
      → Others (step c fails req stage sh).0 x
  unfolding step write delete_row tally
  step-Others req finding sh x n o = o
  step-Others req guarding sh x n o = o
  step-Others req counting sh x n o = o
  step-Others (upserting login pw admin now) (writing existed) sh x n o =
      elim (Option-cases (hash_of c pw)) [
        | inl e ↦ rw (step, write, e) o
        | inr (hash, e) ↦
            rw (step, write, e) (ground (arith, Others-upsert_user sh.users login x hash now))
      ]
  step-Others (upserting login pw member now) (writing existed) sh x n o = absurd (cc n)
  step-Others (deleting login) (writing existed) sh x n o = absurd (cc n)
  step-Others (upserting login pw r now) removing sh x n o = o
  step-Others (deleting login) removing sh x n o = absurd (cc n)
  step-Others (upserting login pw r now) adding sh x n o = o
  step-Others (deleting login) adding sh x n o = o

  pub IsSafe-mono :
      (sh sh' : Shared) (req : Request) (stage : Stage)
      → (removes req ≡ true → (x : Text) → Others sh x → Others sh' x)
      → IsSafe sh req stage
      → IsSafe sh' req stage
  IsSafe-mono sh sh' req finding f s = tt
  IsSafe-mono sh sh' req guarding f s = tt
  IsSafe-mono sh sh' req counting f s = tt
  IsSafe-mono sh sh' req (writing existed) f s = λ r. f r (target req) (s r)
  IsSafe-mono sh sh' req removing f s = λ r. f r (target req) (s r)
  IsSafe-mono sh sh' req adding f s = tt
