-- ===== src/Ingest/Bytes.antt =====
-- Reading of byte sequences, as the decoders of internal/ingest do it with `bytes`, `strings`,
-- `encoding/binary` and `bufio`: a reader is the bytes that are still to come.
use logdoc.Common.{
  ℕ, zero, suc, ◌+◌, ◌*◌, ◌≡◌, refl, true, false, Option, none, some, [], ◌∷◌, ◌++◌, arith, ◌==◌,
  length, Option-cases, inl, inr,
}
use logdoc.Common.Text.{Text, has_byte}

-- The bytes before the first `b`, and those behind it: IndexByte, and the two slices.
unfoldable pub cut_at : ℕ → Text → Option (Text × Text)
cut_at b [] = none
cut_at b (c ∷ s) = elim (c == b) [
  | true ↦ some ([], s)
  | false ↦ elim (cut_at b s) [ none ↦ none | some p ↦ some (c ∷ p.0, p.1) ]
]

-- io.ReadFull: the next `n` bytes and the rest, none if there are not so many.
unfoldable pub read_full : ℕ → Text → Option (Text × Text)
read_full zero s = some ([], s)
read_full (suc n) [] = none
read_full (suc n) (c ∷ s) = elim (read_full n s) [ none ↦ none | some p ↦ some (c ∷ p.0, p.1) ]

-- strings.TrimLeft of one byte.
unfoldable pub trim_left : ℕ → Text → Text
trim_left b [] = []
trim_left b (c ∷ s) = elim (c == b) [ true ↦ trim_left b s | false ↦ c ∷ s ]

unfoldable pub little_endian : Text → ℕ
little_endian [] = 0
little_endian (c ∷ s) = c + 256 * little_endian s

abbrev big_endian_from : ℕ → Text → ℕ
big_endian_from n [] = n
big_endian_from n (c ∷ s) = big_endian_from (n * 256 + c) s

unfoldable pub big_endian : Text → ℕ
big_endian s = big_endian_from 0 s

pub cut_at-append :
    (b : ℕ) (a r : Text) → has_byte b a ≡ false → cut_at b (a ++ (b ∷ r)) ≡ some (a, r)
unfolding cut_at has_byte
cut_at-append b [] r h = ground arith
cut_at-append b (c ∷ a) r h = ground (arith, cut_at-append b a r)

-- More bytes behind change nothing once the byte has been found.
pub cut_at_more :
    (b : ℕ) (s t : Text) {p : Text × Text}
    → cut_at b s ≡ some p
    → cut_at b (s ++ t) ≡ some (p.0, p.1 ++ t)
unfolding cut_at
cut_at_more b [] t {p} h = absurd (cc h)
cut_at_more b (c ∷ s) t {p} h = elim (Option-cases (cut_at b s)) [
  | inl e ↦ ground arith
  | inr (q, e) ↦ ground (arith, cut_at_more b s t {p = q} e)
]

pub length-cut_at :
    (b : ℕ) (s : Text) {p : Text × Text}
    → cut_at b s ≡ some p
    → length p.0 + length p.1 + 1 ≡ length s
unfolding cut_at
length-cut_at b [] {p} h = absurd (cc h)
length-cut_at b (c ∷ s) {p} h = elim (Option-cases (cut_at b s)) [
  | inl e ↦ ground arith
  | inr (q, e) ↦ ground (arith, length-cut_at b s {p = q} e)
]

pub read_full-append : (a r : Text) → read_full (length a) (a ++ r) ≡ some (a, r)
unfolding read_full
read_full-append [] r = refl
read_full-append (c ∷ a) r = ground (arith, read_full-append a r)

pub read_full_more :
    (n : ℕ) (s t : Text) {p : Text × Text}
    → read_full n s ≡ some p
    → read_full n (s ++ t) ≡ some (p.0, p.1 ++ t)
unfolding read_full
read_full_more zero s t {p} h = ground arith
read_full_more (suc n) [] t {p} h = absurd (cc h)
read_full_more (suc n) (c ∷ s) t {p} h = elim (Option-cases (read_full n s)) [
  | inl e ↦ ground arith
  | inr (q, e) ↦ ground (arith, read_full_more n s t {p = q} e)
]

pub length-read_full :
    (n : ℕ) (s : Text) {p : Text × Text}
    → read_full n s ≡ some p
    → (length p.0 ≡ n) × (n + length p.1 ≡ length s)
unfolding read_full
length-read_full zero s {p} h = ground arith
length-read_full (suc n) [] {p} h = absurd (cc h)
length-read_full (suc n) (c ∷ s) {p} h = elim (Option-cases (read_full n s)) [
  | inl e ↦ ground arith
  | inr (q, e) ↦ ground (arith, length-read_full n s {p = q} e)
]

-- The bytes around the one that is found are all of them.
pub cut_at-parts : (b : ℕ) (s : Text) {p : Text × Text} → cut_at b s ≡ some p → s ≡ p.0 ++ (b ∷ p.1)
unfolding cut_at
cut_at-parts b [] {p} h = absurd (cc h)
cut_at-parts b (c ∷ s) {p} h = elim (Option-cases (cut_at b s)) [
  | inl e ↦ ground arith
  | inr (q, e) ↦ ground (arith, cut_at-parts b s {p = q} e)
]

pub read_full-parts : (n : ℕ) (s : Text) {p : Text × Text} → read_full n s ≡ some p → s ≡ p.0 ++ p.1
unfolding read_full
read_full-parts zero s {p} h = ground arith
read_full-parts (suc n) [] {p} h = absurd (cc h)
read_full-parts (suc n) (c ∷ s) {p} h = elim (Option-cases (read_full n s)) [
  | inl e ↦ ground arith
  | inr (q, e) ↦ ground (arith, read_full-parts n s {p = q} e)
]
