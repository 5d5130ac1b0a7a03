-- ===== src/Auth/Service/Statements/Rows.antt =====
-- internal/auth/service.go: what one statement of a call does to the number of users and to the count.
use logdoc.Common.{
  ℕ, ◌+◌, ◌≡◌, refl, true, false, Option, none, some, arith, Option-cases, inl, inr, length,
}
use logdoc.Common.Text.{Text, text_eq, text_Eq}
use logdoc.Common.Map.{lookup, lookup-insert, lookup-remove}
use logdoc.Auth.Store.{Users, upsert_user, upserted}
use logdoc.Auth.Store.Rows.{Unique, Unique-insert, Unique-remove, length-insert, length-remove}
use logdoc.Auth.Service.{Crypto, Faults, is_some}
use logdoc.Auth.Service.Statements.{
  Shared, Request, upserting, deleting, target, Stage, finding, guarding, counting, writing,
  removing, adding, after_find, after_guard, hash_of, write, delete_row, tally, step, Job,
}

-- What a call knows of its user still holds.
abbrev pub IsTrue : Users → Request → Stage → Type 0
IsTrue users req finding = Unit
IsTrue users (upserting login pw r now) (writing existed) = is_some (lookup login users) ≡ existed
IsTrue users (upserting login pw r now) guarding = is_some (lookup login users) ≡ true
IsTrue users (upserting login pw r now) counting = is_some (lookup login users) ≡ true
IsTrue users (upserting login pw r now) _ = Unit
IsTrue users (deleting login) adding = Unit
IsTrue users (deleting login) _ = is_some (lookup login users) ≡ true

abbrev pub IsTrueOption : Users → Request → Option Stage → Type 0
IsTrueOption users req none = Unit
IsTrueOption users req (some stage) = IsTrue users req stage

abbrev pub IsTrueJob : Users → Job → Type 0
IsTrueJob users j = IsTrue users j.request j.stage

-- The calls of users.Add that are still to come, upwards and downwards.
abbrev pub ups_at : Request → Stage → ℕ
ups_at (upserting login pw r now) adding = 1
ups_at _ _ = 0

abbrev pub downs_at : Request → Stage → ℕ
downs_at (deleting login) adding = 1
downs_at _ _ = 0

abbrev pub ups_of : Request → Option Stage → ℕ
ups_of req none = 0
ups_of req (some stage) = ups_at req stage

abbrev pub downs_of : Request → Option Stage → ℕ
downs_of req none = 0
downs_of req (some stage) = downs_at req stage

module _ (c : Crypto) (fails : Faults) where
  -- A statement changes the rows and the count by the same, or leaves a difference to its users.Add.
  pub step-rows :
      (req : Request) (stage : Stage) (sh : Shared)
      → Unique sh.users
      → IsTrue sh.users req stage
      → let after = step c fails req stage sh in
        after.0.added + length sh.users + ups_of req after.1 + downs_at req stage + sh.taken
        ≡ sh.added + length after.0.users + ups_at req stage + downs_of req after.1 + after.0.taken
  unfolding step write delete_row tally upsert_user after_find after_guard
  step-rows (upserting login pw r now) finding sh u k = ground arith
  step-rows (deleting login) finding sh u k = ground arith
  step-rows (upserting login pw r now) guarding sh u k = ground arith
  step-rows (deleting login) guarding sh u k = ground arith
  step-rows (upserting login pw r now) counting sh u k = ground arith
  step-rows (deleting login) counting sh u k = ground arith
  step-rows (upserting login pw r now) (writing existed) sh u k =
      elim (Option-cases (hash_of c pw)) [
        | inl e ↦ rw (step, write, e) (omega arith)
        | inr (hash, e) ↦
            rw (step, write, e)
              (ground
                (arith, length-insert login (upserted (lookup login sh.users) hash r now) sh.users))
      ]
  step-rows (deleting login) (writing existed) sh u k = ground arith
  step-rows (upserting login pw r now) removing sh u k = ground arith
  step-rows (deleting login) removing sh u k = ground (arith, length-remove login sh.users u)
  step-rows (upserting login pw r now) adding sh u k = omega arith
  step-rows (deleting login) adding sh u k = omega arith

  pub step-Unique :
      (req : Request) (stage : Stage) (sh : Shared)
      → Unique sh.users
      → Unique (step c fails req stage sh).0.users
  unfolding step write delete_row tally upsert_user
  step-Unique req finding sh u = u
  step-Unique req guarding sh u = u
  step-Unique req counting sh u = u
  step-Unique (upserting login pw r now) (writing existed) sh u =
      elim (Option-cases (hash_of c pw)) [
        | inl e ↦ rw (step, write, e) u
        | inr (hash, e) ↦
            rw (step, write, e)
              (ground
                (arith, Unique-insert login (upserted (lookup login sh.users) hash r now) sh.users))
      ]
  step-Unique (deleting login) (writing existed) sh u = ground arith
  step-Unique (upserting login pw r now) removing sh u = u
  step-Unique (deleting login) removing sh u = ground (arith, Unique-remove login sh.users)
  step-Unique (upserting login pw r now) adding sh u = u
  step-Unique (deleting login) adding sh u = u

  pub step-IsTrue :
      (req : Request) (stage : Stage) (sh : Shared)
      → IsTrue sh.users req stage
      → IsTrueOption (step c fails req stage sh).0.users req (step c fails req stage sh).1
  unfolding step write delete_row tally after_find after_guard
  step-IsTrue (upserting login pw r now) finding sh k = ground arith
  step-IsTrue (deleting login) finding sh k = ground arith
  step-IsTrue (upserting login pw r now) guarding sh k = ground arith
  step-IsTrue (deleting login) guarding sh k = ground arith
  step-IsTrue (upserting login pw r now) counting sh k = ground arith
  step-IsTrue (deleting login) counting sh k = ground arith
  step-IsTrue (upserting login pw r now) (writing existed) sh k =
      elim (Option-cases (hash_of c pw)) [
        | inl e ↦ rw (step, write, e) tt
        | inr (hash, e) ↦ rw (step, write, e) (ground arith)
      ]
  step-IsTrue (deleting login) (writing existed) sh k = ground arith
  step-IsTrue (upserting login pw r now) removing sh k = tt
  step-IsTrue (deleting login) removing sh k = ground arith
  step-IsTrue (upserting login pw r now) adding sh k = tt
  step-IsTrue (deleting login) adding sh k = tt

  -- A statement leaves the rows of other logins as they are.
  pub step-lookup :
      (req : Request) (stage : Stage) (sh : Shared) (x : Text)
      → text_eq (target req) x ≡ false
      → lookup x (step c fails req stage sh).0.users ≡ lookup x sh.users
  unfolding step write delete_row tally upsert_user
  step-lookup req finding sh x n = refl
  step-lookup req guarding sh x n = refl
  step-lookup req counting sh x n = refl
  step-lookup (upserting login pw r now) (writing existed) sh x n =
      elim (Option-cases (hash_of c pw)) [
        | inl e ↦ rw (step, write, e) refl
        | inr (hash, e) ↦
            rw (step, write, e)
              (ground (
                arith,
                lookup-insert login x (upserted (lookup login sh.users) hash r now) sh.users,
              ))
      ]
  step-lookup (deleting login) (writing existed) sh x n = ground arith
  step-lookup (upserting login pw r now) removing sh x n = refl
  step-lookup (deleting login) removing sh x n = ground (arith, lookup-remove login x sh.users)
  step-lookup (upserting login pw r now) adding sh x n = refl
  step-lookup (deleting login) adding sh x n = refl
