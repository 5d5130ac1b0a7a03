-- ===== src/Common/Decimal/Printed.antt =====
-- Go's `strconv.Atoi` on what `strconv.Itoa` prints.
use Prim.Native.Nat.{ℕ, zero, suc, ◌+◌, ◌-◌, ◌*◌, ◌/◌, ◌%◌, ◌≤◌, ◌<◌}
use mathlib.Core.Path.{◌≡◌, refl, ap, subst, ◌∙◌}
use mathlib.Core.Bool.{true}
use mathlib.Core.Logic.{inl, inr}
use mathlib.Core.Option.{some}
use mathlib.Core.List.{[], ◌∷◌, ◌++◌}
use native.Mathlib.Omega.{arith}
use logdoc.Common.Tests.{ltb, Bool-cases}
use logdoc.Common.Lists.{all, length, length-append}
use logdoc.Common.Int.{pos, max_int64}
use logdoc.Common.Text.{Text}
use logdoc.Common.Decimal.{is_digit, digits_value, unsigned_value, atoi, digits, itoa}

-- Fuel beyond the number makes no difference.
digits_fuel : (f g n : ℕ) → n ≤ f → n ≤ g → digits f n ≡ digits g n
unfolding digits
digits_fuel zero zero n h k = refl
digits_fuel zero (suc g) n h k = ground arith
digits_fuel (suc f) zero n h k = ground arith
digits_fuel (suc f) (suc g) n h k = elim (Bool-cases (ltb n 10)) [
  | inl e ↦ ground arith
  | inr e ↦ ground (arith, digits_fuel f g (n / 10) (ground arith) (ground arith))
]

digits_long : (f n : ℕ) → 10 ≤ n → digits (suc f) n ≡ digits f (n / 10) ++ ((b'0' + n % 10) ∷ [])
unfolding digits
digits_long f n h = ground arith

digits_short : (f n : ℕ) → n < 10 → digits (suc f) n ≡ (b'0' + n) ∷ []
unfolding digits
digits_short f n h = ground arith

pub itoa_short : (n : ℕ) → n < 10 → itoa n ≡ (b'0' + n) ∷ []
unfolding itoa digits
itoa_short zero h = refl
itoa_short (suc n) h = digits_short n (suc n) h

-- A further digit stands behind those of the number.
pub itoa_digit : (n d : ℕ) → 0 < n → d < 10 → itoa (n * 10 + d) ≡ itoa n ++ ((b'0' + d) ∷ [])
unfolding itoa
itoa_digit zero d h k = absurd (omega arith)
itoa_digit (suc n) d h k =
    let q : (suc n * 10 + d) / 10 ≡ suc n = omega arith in
    let r : (suc n * 10 + d) % 10 ≡ d = omega arith in
    digits_fuel (suc n * 10 + d) (suc (n * 10 + 9 + d)) (suc n * 10 + d) (omega arith) (omega arith)
    ∙ digits_long (n * 10 + 9 + d) (suc n * 10 + d) (omega arith)
    ∙ ap (λ m. digits (n * 10 + 9 + d) m ++ ((b'0' + (suc n * 10 + d) % 10) ∷ [])) q
    ∙ ap (λ m. digits (n * 10 + 9 + d) (suc n) ++ ((b'0' + m) ∷ [])) r
    ∙ ap (λ t. t ++ ((b'0' + d) ∷ []))
        (digits_fuel (n * 10 + 9 + d) (suc n) (suc n) (omega arith) (omega arith))

digits_value_last :
    (a : ℕ) (s : Text) (d : ℕ) {n : ℕ}
    → d < 10
    → digits_value a s ≡ some n
    → digits_value a (s ++ ((b'0' + d) ∷ [])) ≡ some (n * 10 + d)
unfolding digits_value
digits_value_last a [] d {n} h e = ground arith
digits_value_last a (c ∷ s) d {n} h e =
    ground (arith, digits_value_last (a * 10 + (c - b'0')) s d {n = n} h)

digits_value-digits : (f n : ℕ) → n ≤ f → digits_value 0 (digits f n) ≡ some n
digits_value-digits zero n h = unfold digits in unfold digits_value in ground arith
digits_value-digits (suc f) n h = elim (Bool-cases (ltb n 10)) [
  | inl e ↦ rw (digits_short f n (ground arith)) (unfold digits_value in ground arith)
  | inr e ↦
      let q : n / 10 * 10 + n % 10 ≡ n = omega arith in
      rw (digits_long f n (ground arith)) (
        digits_value_last 0 (digits f (n / 10)) (n % 10) {n = n / 10} (omega arith)
          (digits_value-digits f (n / 10) (ground arith))
        ∙ ap some q)
]

all_last :
    (s : Text) (d : ℕ)
    → d < 10
    → all is_digit s ≡ true
    → all is_digit (s ++ ((b'0' + d) ∷ [])) ≡ true
all_last [] d h e = ground arith
all_last (c ∷ s) d h e = ground (arith, all_last s d h)

all-digits : (f n : ℕ) → all is_digit (digits f n) ≡ true
unfolding digits
all-digits zero n = ground arith
all-digits (suc f) n = ground (arith, all-digits f (n / 10), all_last (digits f (n / 10)) (n % 10))

pub all-itoa : (n : ℕ) → all is_digit (itoa n) ≡ true
unfolding itoa
all-itoa n = all-digits n n

abbrev pub tens : ℕ → ℕ
tens zero = 1
tens (suc k) = 10 * tens k

length-digits : (k f n : ℕ) → n < tens (suc k) → length (digits f n) ≤ suc k
unfolding digits
length-digits k zero n h = omega arith
length-digits zero (suc f) n h = ground arith
length-digits (suc k) (suc f) n h = ground (
  arith,
  length-digits k f (n / 10) (omega arith),
  length-append (digits f (n / 10)) ((b'0' + n % 10) ∷ []),
)

-- A number below a power of ten has no more digits than that.
pub length-itoa : (k n : ℕ) → n < tens (suc k) → length (itoa n) ≤ suc k
unfolding itoa
length-itoa k n h = length-digits k n n h

digits_nonempty : (f n : ℕ) → 1 ≤ length (digits f n)
unfolding digits
digits_nonempty zero n = omega arith
digits_nonempty (suc f) n = ground (arith, length-append (digits f (n / 10)) ((b'0' + n % 10) ∷ []))

pub itoa_nonempty : (n : ℕ) → 1 ≤ length (itoa n)
unfolding itoa
itoa_nonempty n = digits_nonempty n n

-- The first digit of a positive number is not 0; the number is the value of the digits behind it.
abbrev pub StartsWithDigit : ℕ → Text → Type 0
StartsWithDigit n t =
    (c : ℕ) × (s : Text) × (t ≡ c ∷ s)
    × (b'1' ≤ c)
    × (c ≤ b'9')
    × (digits_value (c - b'0') s ≡ some n)
    × (all is_digit s ≡ true)

first_last :
    (t : Text) (n d : ℕ)
    → d < 10
    → StartsWithDigit n t
    → StartsWithDigit (n * 10 + d) (t ++ ((b'0' + d) ∷ []))
first_last t n d h (c, s, e, lo, hi, v, ds) = (
  c,
  s ++ ((b'0' + d) ∷ []),
  ap (λ u. u ++ ((b'0' + d) ∷ [])) e,
  lo,
  hi,
  digits_value_last (c - b'0') s d {n = n} h v,
  all_last s d h ds,
)

digits-StartsWithDigit : (f n : ℕ) → 0 < n → n ≤ f → StartsWithDigit n (digits f n)
digits-StartsWithDigit zero n p h = absurd (omega arith)
digits-StartsWithDigit (suc f) n p h = elim (Bool-cases (ltb n 10)) [
  | inl e ↦
      let small : n < 10 = ground arith in
      (
        b'0' + n,
        [],
        digits_short f n small,
        omega arith,
        omega arith,
        (unfold digits_value in ap some (omega arith)),
        refl,
      )
  | inr e ↦
      let big : 10 ≤ n = ground arith in
      let q : n / 10 * 10 + n % 10 ≡ n = omega arith in
      let r =
        first_last (digits f (n / 10)) (n / 10) (n % 10) (omega arith)
          (digits-StartsWithDigit f (n / 10) (omega arith) (omega arith)) in
      rw (digits_long f n big)
        (subst (λ m. StartsWithDigit m (digits f (n / 10) ++ ((b'0' + n % 10) ∷ []))) q r)
]

pub itoa-StartsWithDigit : (n : ℕ) → 0 < n → StartsWithDigit n (itoa n)
unfolding itoa
itoa-StartsWithDigit n p = digits-StartsWithDigit n n p (omega arith)

atoi_first :
    (n c : ℕ) (s : Text)
    → b'1' ≤ c
    → c ≤ b'9'
    → digits_value (c - b'0') s ≡ some n
    → n ≤ max_int64
    → atoi (c ∷ s) ≡ some (pos n)
unfolding atoi unsigned_value digits_value
atoi_first n c s lo hi v h = ground arith

pub atoi-itoa : (n : ℕ) → n ≤ max_int64 → atoi (itoa n) ≡ some (pos n)
unfolding atoi unsigned_value digits_value itoa digits
atoi-itoa zero h = refl
atoi-itoa (suc n) h =
    let r = itoa-StartsWithDigit (suc n) (omega arith) in
    ap atoi r.2 ∙ atoi_first (suc n) r.0 r.1 r.3 r.4 r.5 h
