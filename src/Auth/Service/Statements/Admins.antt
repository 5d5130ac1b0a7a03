-- ===== src/Auth/Service/Statements/Admins.antt =====
-- internal/auth/service.go: what guardLastAdmin gives when calls interleave.
use logdoc.Common.{◌≡◌, true, List, [], ◌∷◌, All, Option-cases, Bool-cases, inl, inr}
use logdoc.Common.Text.{Text, text_Eq}
use logdoc.Auth.Store.Rows.{Unique}
use logdoc.Auth.Service.{Crypto}
use logdoc.Auth.Service.Statements.{
  Shared, Request, step, Job, Advance, here, there, History, idle, starts, advances,
}
use logdoc.Auth.Service.Statements.Others.{
  HasAdmin, removes, IsHarmless, Others, IsSafeJob, Good, step-Good, step-IsSafe, step-Others,
  IsSafe-mono,
}

-- Beside a call that removes an administrator, or may, no other such call is in progress.
abbrev pub AdmitsOne : Request → List Job → Type 0
AdmitsOne req jobs = removes req ≡ true → All IsHarmless jobs

-- At most one of the calls may remove an administrator.
abbrev One : List Job → Type 0
One [] = Unit
One (j ∷ jobs) = (removes j.request ≡ true → All IsHarmless jobs) × One jobs

All-IsHarmless :
    (c : Crypto) {sh sh' : Shared} {jobs jobs' : List Job}
    → Advance c sh jobs sh' jobs'
    → All IsHarmless jobs
    → All IsHarmless jobs'
All-IsHarmless c (here sh j jobs) h = elim (Option-cases (step c j.fails j.request j.stage sh).1) [
  | inl e ↦ rw e h.1
  | inr (stage, e) ↦ rw e h
]
All-IsHarmless c (there j a) h = (h.0, All-IsHarmless c a h.1)

One-Advance :
    (c : Crypto) {sh sh' : Shared} {jobs jobs' : List Job}
    → Advance c sh jobs sh' jobs'
    → One jobs
    → One jobs'
One-Advance c (here sh j jobs) h = elim (Option-cases (step c j.fails j.request j.stage sh).1) [
  | inl e ↦ rw e h.1
  | inr (stage, e) ↦ rw e h
]
One-Advance c (there j a) h = (λ r. All-IsHarmless c a (h.0 r), One-Advance c a h.1)

Others-Advance :
    (c : Crypto) (x : Text) {sh sh' : Shared} {jobs jobs' : List Job}
    → Advance c sh jobs sh' jobs'
    → All IsHarmless jobs
    → Others sh x
    → Others sh' x
Others-Advance c x (here sh j jobs) h o = step-Others c j.fails j.request j.stage sh x h.0 o
Others-Advance c x (there j a) h o = Others-Advance c x a h.1 o

Good-Advance :
    (c : Crypto) {sh sh' : Shared} {jobs jobs' : List Job}
    → Advance c sh jobs sh' jobs'
    → Good sh
    → All (IsSafeJob sh) jobs
    → Good sh'
Good-Advance c (here sh j jobs) g s = step-Good c j.fails j.request j.stage sh g s.0
Good-Advance c (there j a) g s = Good-Advance c a g s.1

-- The calls beside one that advances.
All-beside :
    (c : Crypto) (j : Job) (sh : Shared) (jobs : List Job)
    → (removes j.request ≡ true → All IsHarmless jobs)
    → All (IsSafeJob sh) jobs
    → All (IsSafeJob (step c j.fails j.request j.stage sh).0) jobs
All-beside c j sh [] h s = tt
All-beside c j sh (k ∷ jobs) h s = (
  IsSafe-mono c j.fails sh (step c j.fails j.request j.stage sh).0 k.request k.stage
      (λ r x o. elim (Bool-cases (removes j.request)) [
        | inl q ↦ absurd (cc (r, (h q).0))
        | inr q ↦ step-Others c j.fails j.request j.stage sh x q o
      ])
      s.0,
  All-beside c j sh jobs (λ q. (h q).1) s.1,
)

All-Advance :
    (c : Crypto) {sh sh' : Shared} {jobs jobs' : List Job}
    → Advance c sh jobs sh' jobs'
    → Good sh
    → One jobs
    → All (IsSafeJob sh) jobs
    → All (IsSafeJob sh') jobs'
All-Advance c (here sh j jobs) g h s =
    let rest = All-beside c j sh jobs h.0 s.1 in
    let own = step-IsSafe c j.fails j.request j.stage sh g s.0 in
    elim (Option-cases (step c j.fails j.request j.stage sh).1) [
      | inl e ↦ rw e rest
      | inr (stage, e) ↦ rw e (rw e at own, rest)
    ]
All-Advance c (there j {sh} {sh'} a) g h s = (
  IsSafe-mono c j.fails sh sh' j.request j.stage (λ r x o. Others-Advance c x a (h.0 r) o) s.0,
  All-Advance c a g h.1 s.1,
)

record Inv (sh : Shared) (jobs : List Job) : Type 0 where
  good : Good sh
  one : One jobs
  safe : All (IsSafeJob sh) jobs

History-Inv :
    (c : Crypto) (sh₀ : Shared) {sh : Shared} {jobs : List Job}
    → Good sh₀
    → History c AdmitsOne sh₀ sh jobs
    → Inv sh jobs
History-Inv c sh₀ g idle = record { good = g; one = tt; safe = tt }
History-Inv c sh₀ g (starts fails req a h) =
    let i = History-Inv c sh₀ g h in record { good = i.good; one = (a, i.one); safe = (tt, i.safe) }
History-Inv c sh₀ g (advances h a) =
    let i = History-Inv c sh₀ g h in
    record {
      good = Good-Advance c a i.good i.safe;
      one = One-Advance c a i.one;
      safe = All-Advance c a i.good i.one i.safe;
    }

-- However the statements of calls interleave and whichever of them fail: if no login stands twice at
-- first and somebody can administer, by the bootstrap key or as a user, then both hold at every
-- moment, given that beside a call that deletes a user or makes one a member no other such call is in
-- progress.
pub History-HasAdmin :
    (c : Crypto) (sh₀ sh : Shared) (jobs : List Job)
    → Unique sh₀.users
    → HasAdmin sh₀
    → History c AdmitsOne sh₀ sh jobs
    → Unique sh.users × HasAdmin sh
History-HasAdmin c sh₀ sh jobs u a h =
    let i = History-Inv c sh₀ (record { unique = u; admins = a }) h in
    (i.good.unique, i.good.admins)
