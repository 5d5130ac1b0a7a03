-- ===== src/Ingest/Journald/Chunks.antt =====
-- internal/ingest/journald.go: datagrams may split the export stream anywhere.
pub mod Split
use mathlib.Core.List.{append_assoc}
use logdoc.Common.{
  ℕ, zero, suc, ◌≡◌, ◌≤◌, ◌<◌, ◌+◌, ◌⊎◌, Bool, true, false, Option, none, some, List, [], ◌∷◌, ◌++◌,
  refl, ◌∙◌, ap, sym, arith, length, length-append, ltb, leb, if◌then◌else◌, Option-cases,
  Bool-cases, inl, inr,
}
use logdoc.Common.Text.{Text, text_Eq}
use logdoc.Common.Map.{insert}
use logdoc.Model.{Fields}
use logdoc.Ingest.Bytes.{
  cut_at, cut_at_more, length-cut_at, read_full, read_full_more, length-read_full, little_endian,
}
use logdoc.Ingest.Journald.{
  Decoder, Fed, fed, Round, waits, resets, field, ends, sized_field, binary_field, line_round,
  next_round, complete, continue, drain, feed, max_journal_buf,
}

-- A bound on the buffer of the next round, 0 where there is none.
abbrev pub left : Round → ℕ
left waits = 0
left resets = 0
left (field k v rest) = length rest + 1
left (ends rest) = length rest + 1

left-sized_field : (name : Text) (n : ℕ) (s : Text) → left (sized_field name n s) ≤ length s
unfolding sized_field
left-sized_field name n s = elim (Option-cases (read_full n s)) [
  | inl e ↦ ground arith
  | inr (q, e) ↦ ground (arith, length-read_full n s {p = q} e)
]

left-binary_field : (name s : Text) → left (binary_field name s) ≤ length s
unfolding binary_field
left-binary_field name s = elim (Option-cases (read_full 8 s)) [
  | inl e ↦ ground arith
  | inr (p, e) ↦
      ground (arith, length-read_full 8 s {p = p} e, left-sized_field name (little_endian p.0) p.1)
]

left-line_round : (line rest : Text) → left (line_round line rest) ≤ length rest + 1
unfolding line_round
left-line_round [] rest = omega arith
left-line_round (c ∷ line) rest = ground (arith, left-binary_field (c ∷ line) rest)

pub left-next_round : (s : Text) → left (next_round s) ≤ length s
unfolding next_round
left-next_round s = elim (Option-cases (cut_at b'\n' s)) [
  | inl e ↦ ground arith
  | inr (p, e) ↦ ground (arith, length-cut_at b'\n' s {p = p} e, left-line_round p.0 p.1)
]

-- The round with further bytes behind those that are left.
abbrev pub with_more : Text → Round → Round
with_more t waits = waits
with_more t resets = resets
with_more t (field k v rest) = field k v (rest ++ t)
with_more t (ends rest) = ends (rest ++ t)

-- A round that does not wait is the same when there are more bytes behind.
abbrev pub IsSame : Text → Round → Round → Type 0
IsSame t r r₁ = (r ≡ waits) ⊎ (r₁ ≡ with_more t r)

sized_field_more :
    (name : Text) (n : ℕ) (s t : Text)
    → IsSame t (sized_field name n s) (sized_field name n (s ++ t))
unfolding sized_field
sized_field_more name n s t = elim (Option-cases (read_full n s)) [
  | inl e ↦ ground arith
  | inr (q, e) ↦ ground (arith, read_full_more n s t {p = q} e)
]

binary_field_more : (name s t : Text) → IsSame t (binary_field name s) (binary_field name (s ++ t))
unfolding binary_field
binary_field_more name s t = elim (Option-cases (read_full 8 s)) [
  | inl e ↦ ground arith
  | inr (p, e) ↦
      ground
        (arith, read_full_more 8 s t {p = p} e, sized_field_more name (little_endian p.0) p.1 t)
]

line_round_more :
    (line rest t : Text) → IsSame t (line_round line rest) (line_round line (rest ++ t))
unfolding line_round
line_round_more [] rest t = inr refl
line_round_more (c ∷ line) rest t = ground (arith, binary_field_more (c ∷ line) rest t)

pub next_round_more : (s t : Text) → IsSame t (next_round s) (next_round (s ++ t))
unfolding next_round
next_round_more s t = elim (Option-cases (cut_at b'\n' s)) [
  | inl e ↦ ground arith
  | inr (p, e) ↦ ground (arith, cut_at_more b'\n' s t {p = p} e, line_round_more p.0 p.1 t)
]

continue_cong :
    (g h : Text → Fields → Fed) (s : Text) (fields : Fields) (r : Round) (n : ℕ)
    → left r ≤ n
    → ((rest : Text) (fs : Fields) → length rest + 1 ≤ n → g rest fs ≡ h rest fs)
    → continue g s fields r ≡ continue h s fields r
unfolding continue
continue_cong g h s fields waits n b e = refl
continue_cong g h s fields resets n b e = refl
continue_cong g h s fields (field k v rest) n b e = e rest (insert k v fields) b
continue_cong g h s fields (ends rest) n b e = ap (complete fields) (e rest [] b)

drain_nothing : (n : ℕ) (fields : Fields) → drain n [] fields ≡ fed [] [] fields
unfolding drain next_round cut_at continue
drain_nothing zero fields = refl
drain_nothing (suc n) fields = refl

-- The loop of `feed` has come to an end after as many rounds as the buffer has bytes: further rounds
-- would change nothing.
pub drain_enough :
    (n k : ℕ) (s : Text) (fields : Fields)
    → length s ≤ n
    → drain (n + k) s fields ≡ drain n s fields
unfolding drain next_round cut_at continue
drain_enough zero k [] fields h = drain_nothing (0 + k) fields
drain_enough zero k (c ∷ s) fields h = absurd (omega arith)
drain_enough (suc n) k s fields h =
    let e : suc n + k ≡ suc (n + k) = omega arith in
    ap (λ m. drain m s fields) e
    ∙ continue_cong (λ rest fs. drain (n + k) rest fs) (λ rest fs. drain n rest fs) s fields
        (next_round s) (length s) (left-next_round s)
        (λ rest fs b. drain_enough n k rest fs (omega (arith, b, h)))

pub drain_any :
    (n m : ℕ) (s : Text) (fields : Fields)
    → length s ≤ n
    → length s ≤ m
    → drain n s fields ≡ drain m s fields
drain_any n m s fields h k =
    let e : n + m ≡ m + n = omega arith in
    sym (drain_enough n m s fields h) ∙ ap (λ i. drain i s fields) e ∙ drain_enough m n s fields k
