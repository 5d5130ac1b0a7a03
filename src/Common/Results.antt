-- ===== src/Common/Results.antt =====
-- Go's `(value, error)` results: a value, or an error.
use mathlib.Core.Path.{◌≡◌, refl}

pub data Result {ℓ} (E : Type ℓ) (A : Type ℓ) : Type ℓ where
  err : E → Result E A
  ok : A → Result E A

-- The next call gets the value, and an error is returned as it is.
infixl 5 ◌>>=◌
abbrev pub ◌>>=◌ {ℓ} : {E A B : Type ℓ} → (m : Result E A) → (next : A → Result E B) → Result E B
err failure >>= next = err failure
ok value >>= next = next value

module _ {ℓ} {E A B : Type ℓ} where
  -- Inversion of a successful bind.
  pub >>=-eq-ok :
      (m : Result E A) (f : A → Result E B) {b : B}
      → (m >>= f) ≡ ok b
      → (a : A) × (m ≡ ok a) × (f a ≡ ok b)
  >>=-eq-ok (err e) f h = cc
  >>=-eq-ok (ok a) f h = (a, refl, h)

module _ {ℓ} {E A : Type ℓ} where
  pub ok_eq : {a b : A} → ◌≡◌ {A = Result E A} (ok a) (ok b) → a ≡ b
  ok_eq p = cc
