-- ===== src/Auth/Service/Statements/Counts.antt =====
-- internal/auth/service.go: the cached count of users when calls interleave.
use logdoc.Common.{
  ℕ, ◌+◌, ◌≡◌, ◌≢◌, refl, false, Option, none, some, List, [], ◌∷◌, arith, All, Option-cases,
  Bool-cases, inl, inr, sym, length,
}
use logdoc.Common.Text.{Text, text_eq, text_eq_iff, text_Eq}
use logdoc.Common.Map.{lookup}
use logdoc.Auth.Store.{Users}
use logdoc.Auth.Store.Rows.{Unique}
use logdoc.Auth.Service.{Crypto}
use logdoc.Auth.Service.Statements.{
  Shared, Request, upserting, deleting, target, Stage, finding, guarding, counting, writing,
  removing, adding, step, Job, moved, Advance, here, there, History, idle, starts, advances,
}
use logdoc.Auth.Service.Statements.Rows.{
  IsTrue, IsTrueJob, ups_at, downs_at, ups_of, downs_of, step-rows, step-Unique, step-IsTrue,
  step-lookup,
}

-- Beside a call no other call for its login is in progress.
abbrev IsApart : Text → Job → Type 0
IsApart login j = target j.request ≢ login

abbrev pub AdmitsApart : Request → List Job → Type 0
AdmitsApart req jobs = All (IsApart (target req)) jobs

abbrev Apart : List Job → Type 0
Apart [] = Unit
Apart (j ∷ jobs) = All (IsApart (target j.request)) jobs × Apart jobs

-- The calls of users.Add that are still to come, upwards and downwards.
pub ups : List Job → ℕ
ups [] = 0
ups (j ∷ jobs) = ups_at j.request j.stage + ups jobs

pub downs : List Job → ℕ
downs [] = 0
downs (j ∷ jobs) = downs_at j.request j.stage + downs jobs

Apart-one :
    (c : Crypto) (login : Text) {sh sh' : Shared} {jobs jobs' : List Job}
    → Advance c sh jobs sh' jobs'
    → All (IsApart login) jobs
    → All (IsApart login) jobs'
Apart-one c login (here sh j jobs) h = elim (Option-cases (step c j.fails j.request j.stage sh).1) [
  | inl e ↦ rw e h.1
  | inr (stage, e) ↦ rw e h
]
Apart-one c login (there j a) h = (h.0, Apart-one c login a h.1)

Apart-Advance :
    (c : Crypto) {sh sh' : Shared} {jobs jobs' : List Job}
    → Advance c sh jobs sh' jobs'
    → Apart jobs
    → Apart jobs'
Apart-Advance c (here sh j jobs) h = elim (Option-cases (step c j.fails j.request j.stage sh).1) [
  | inl e ↦ rw e h.1
  | inr (stage, e) ↦ rw e h
]
Apart-Advance c (there j a) h = (Apart-one c (target j.request) a h.0, Apart-Advance c a h.1)

apart_eq : (a b : Text) → a ≢ b → text_eq a b ≡ false
apart_eq a b n = elim (Bool-cases (text_eq a b)) [
  | inl q ↦ absurd (n ((text_eq_iff a b).0 q))
  | inr q ↦ q
]

-- What a call knows stays true while the row of its login stays as it is.
IsTrue-lookup :
    (users users' : Users) (req : Request) (stage : Stage)
    → lookup (target req) users' ≡ lookup (target req) users
    → IsTrue users req stage
    → IsTrue users' req stage
IsTrue-lookup users users' (upserting login pw r now) finding e k = tt
IsTrue-lookup users users' (upserting login pw r now) guarding e k = rw e k
IsTrue-lookup users users' (upserting login pw r now) counting e k = rw e k
IsTrue-lookup users users' (upserting login pw r now) (writing existed) e k = rw e k
IsTrue-lookup users users' (upserting login pw r now) removing e k = tt
IsTrue-lookup users users' (upserting login pw r now) adding e k = tt
IsTrue-lookup users users' (deleting login) finding e k = tt
IsTrue-lookup users users' (deleting login) guarding e k = rw e k
IsTrue-lookup users users' (deleting login) counting e k = rw e k
IsTrue-lookup users users' (deleting login) (writing existed) e k = rw e k
IsTrue-lookup users users' (deleting login) removing e k = rw e k
IsTrue-lookup users users' (deleting login) adding e k = tt

lookup-Advance :
    (c : Crypto) (login : Text) {sh sh' : Shared} {jobs jobs' : List Job}
    → Advance c sh jobs sh' jobs'
    → All (IsApart login) jobs
    → lookup login sh'.users ≡ lookup login sh.users
lookup-Advance c login (here sh j jobs) h =
    step-lookup c j.fails j.request j.stage sh login (apart_eq (target j.request) login h.0)
lookup-Advance c login (there j a) h = lookup-Advance c login a h.1

-- The calls beside one that advances.
All-beside :
    (c : Crypto) (j : Job) (sh : Shared) (jobs : List Job)
    → All (IsApart (target j.request)) jobs
    → All (IsTrueJob sh.users) jobs
    → All (IsTrueJob (step c j.fails j.request j.stage sh).0.users) jobs
All-beside c j sh [] h s = tt
All-beside c j sh (k ∷ jobs) h s = (
  IsTrue-lookup sh.users (step c j.fails j.request j.stage sh).0.users k.request k.stage
      (step-lookup c j.fails j.request j.stage sh (target k.request)
        (apart_eq (target j.request) (target k.request) (λ e. h.0 (sym e))))
      s.0,
  All-beside c j sh jobs h.1 s.1,
)

All-Advance :
    (c : Crypto) {sh sh' : Shared} {jobs jobs' : List Job}
    → Advance c sh jobs sh' jobs'
    → Apart jobs
    → All (IsTrueJob sh.users) jobs
    → All (IsTrueJob sh'.users) jobs'
All-Advance c (here sh j jobs) h s =
    let rest = All-beside c j sh jobs h.0 s.1 in
    let own = step-IsTrue c j.fails j.request j.stage sh s.0 in
    elim (Option-cases (step c j.fails j.request j.stage sh).1) [
      | inl e ↦ rw e rest
      | inr (stage, e) ↦ rw e (rw e at own, rest)
    ]
All-Advance c (there j {sh} {sh'} a) h s = (
  IsTrue-lookup sh.users sh'.users j.request j.stage (lookup-Advance c (target j.request) a h.0)
      s.0,
  All-Advance c a h.1 s.1,
)

-- The count, with what is still to be added and taken, is the number of rows.
abbrev Balanced : Shared → List Job → Type 0
Balanced sh jobs = sh.added + ups jobs ≡ length sh.users + sh.taken + downs jobs

ups-moved :
    (j : Job) (o : Option Stage) (jobs : List Job)
    → ups (moved j o jobs) ≡ ups_of j.request o + ups jobs
unfolding ups
ups-moved j none jobs = omega arith
ups-moved j (some stage) jobs = refl

downs-moved :
    (j : Job) (o : Option Stage) (jobs : List Job)
    → downs (moved j o jobs) ≡ downs_of j.request o + downs jobs
unfolding downs
downs-moved j none jobs = omega arith
downs-moved j (some stage) jobs = refl

-- What an advance adds to one side of the balance it adds to the other.
rows-Advance :
    (c : Crypto) {sh sh' : Shared} {jobs jobs' : List Job}
    → Advance c sh jobs sh' jobs'
    → Unique sh.users
    → All (IsTrueJob sh.users) jobs
    → sh'.added + ups jobs' + length sh.users + sh.taken + downs jobs
      ≡ sh.added + ups jobs + length sh'.users + sh'.taken + downs jobs'
unfolding ups downs
rows-Advance c (here sh j jobs) u s =
    let o = (step c j.fails j.request j.stage sh).1 in
    omega (
      arith,
      step-rows c j.fails j.request j.stage sh u s.0,
      ups-moved j o jobs,
      downs-moved j o jobs,
    )
rows-Advance c (there j a) u s = omega (arith, rows-Advance c a u s.1)

Unique-Advance :
    (c : Crypto) {sh sh' : Shared} {jobs jobs' : List Job}
    → Advance c sh jobs sh' jobs'
    → Unique sh.users
    → Unique sh'.users
Unique-Advance c (here sh j jobs) u = step-Unique c j.fails j.request j.stage sh u
Unique-Advance c (there j a) u = Unique-Advance c a u

record Inv (sh : Shared) (jobs : List Job) : Type 0 where
  unique : Unique sh.users
  apart : Apart jobs
  known_rows : All (IsTrueJob sh.users) jobs
  balanced : Balanced sh jobs

History-Inv :
    (c : Crypto) (sh₀ : Shared) {sh : Shared} {jobs : List Job}
    → Unique sh₀.users
    → sh₀.added ≡ length sh₀.users + sh₀.taken
    → History c AdmitsApart sh₀ sh jobs
    → Inv sh jobs
unfolding ups downs
History-Inv c sh₀ u e idle = record {
  unique = u;
  apart = tt;
  known_rows = tt;
  balanced = omega (arith, e);
}
History-Inv c sh₀ u e (starts fails (upserting login pw r now) a h) =
    let i = History-Inv c sh₀ u e h in
    record {
      unique = i.unique;
      apart = (a, i.apart);
      known_rows = (tt, i.known_rows);
      balanced = omega (arith, i.balanced);
    }
History-Inv c sh₀ u e (starts fails (deleting login) a h) =
    let i = History-Inv c sh₀ u e h in
    record {
      unique = i.unique;
      apart = (a, i.apart);
      known_rows = (tt, i.known_rows);
      balanced = omega (arith, i.balanced);
    }
History-Inv c sh₀ u e (advances h a) =
    let i = History-Inv c sh₀ u e h in
    record {
      unique = Unique-Advance c a i.unique;
      apart = Apart-Advance c a i.apart;
      known_rows = All-Advance c a i.apart i.known_rows;
      balanced = omega (arith, rows-Advance c a i.unique i.known_rows, i.balanced);
    }

-- However the statements of calls interleave and whichever of them fail: if no login stands twice at
-- first and the count is the number of users, then no login ever stands twice, and the count is the
-- number of users again, up to the users.Add that calls in progress have still to do, and so exactly
-- when no call is in progress; given that no two calls for one login are in progress at once.
pub History-Counted :
    (c : Crypto) (sh₀ sh : Shared) (jobs : List Job)
    → Unique sh₀.users
    → sh₀.added ≡ length sh₀.users + sh₀.taken
    → History c AdmitsApart sh₀ sh jobs
    → Unique sh.users × (sh.added + ups jobs ≡ length sh.users + sh.taken + downs jobs)
History-Counted c sh₀ sh jobs u e h = let i = History-Inv c sh₀ u e h in (i.unique, i.balanced)
