-- ===== src/Ingest/Ldformat/Progress.antt =====
-- internal/ingest/ldformat.go: every pair and every event takes bytes from the stream.
use logdoc.Common.{
  ℕ, zero, suc, ◌≡◌, ◌≤◌, ◌<◌, ◌+◌, ◌⊎◌, false, Option, none, some, [], ◌∷◌, refl, ◌∙◌, ap, arith,
  length, ltb, Option-cases, Bool-cases, inl, inr, Result, ok, err, ◌>>=◌,
}
use logdoc.Common.Text.{Text, text_Eq}
use logdoc.Model.{Fields}
use logdoc.Ingest.Bytes.{cut_at, length-cut_at, read_full, length-read_full, big_endian}
use logdoc.Ingest.Ldformat.{
  Key, LdError, read_key, key_after, read_exact, skip_newline, text_value, sized_value,
  binary_value, read_value, Pair, pair, max_value_len, read_pair, has_header, skip_header, Parsed,
  read_pairs, parse_ld_event, emit, unless_failed, read_events,
}

-- What a key leaves over, and what a value leaves over; 0 for an error.
abbrev key_left : Result LdError Key → ℕ
key_left (err e) = 0
key_left (ok k) = length k.rest + 1

abbrev value_left : Result LdError (Text × Text) → ℕ
value_left (err e) = 0
value_left (ok p) = length p.1

abbrev pair_left : Result LdError Pair → ℕ
pair_left (err e) = 0
pair_left (ok p) = length p.rest + 1

key_left-read_key : (n : ℕ) (s : Text) → key_left (read_key n s) ≤ length s
unfolding read_key key_after
key_left-read_key n [] = omega arith
key_left-read_key n (c ∷ s) = ground (arith, key_left-read_key (n + 1) s)

skip_newline-le : (s : Text) → length (skip_newline s) ≤ length s
unfolding skip_newline
skip_newline-le [] = omega arith
skip_newline-le (c ∷ s) = ground arith

read_exact-le : (n : ℕ) (s : Text) → value_left (read_exact n s) ≤ length s
unfolding read_exact
read_exact-le n s = elim (Option-cases (read_full n s)) [
  | inl e ↦ ground arith
  | inr (p, e) ↦ ground (arith, length-read_full n s {p = p} e)
]

value_left-bind :
    (m : Result LdError (Text × Text)) (f : Text × Text → Result LdError (Text × Text)) (n : ℕ)
    → ((p : Text × Text) → value_left (f p) ≤ length p.1)
    → value_left m ≤ n
    → value_left (m >>= f) ≤ n
value_left-bind (err e) f n h b = omega arith
value_left-bind (ok p) f n h b = omega (arith, h p, b)

pair_left-bind :
    (m : Result LdError Key) (f : Key → Result LdError Pair) (n : ℕ)
    → ((k : Key) → pair_left (f k) ≤ length k.rest + 1)
    → key_left m ≤ n
    → pair_left (m >>= f) ≤ n
pair_left-bind (err e) f n h b = omega arith
pair_left-bind (ok k) f n h b = omega (arith, h k, b)

pair_left-value :
    (name : Text) (m : Result LdError (Text × Text)) (n : ℕ)
    → value_left m ≤ n
    → pair_left (m >>= (λ v. ok (pair name v.0 v.1))) ≤ n + 1
pair_left-value name (err e) n b = omega arith
pair_left-value name (ok p) n b = omega (arith, b)

sized_value-le : (n : ℕ) (s : Text) → value_left (sized_value n s) ≤ length s
unfolding sized_value
sized_value-le n s = elim (Bool-cases (ltb max_value_len n)) [
  | inl e ↦ rw (sized_value, e) (omega arith)
  | inr e ↦
      rw (sized_value, e)
        (value_left-bind (read_exact n s) (λ p. ok (p.0, skip_newline p.1)) (length s)
          (λ p. skip_newline-le p.1) (read_exact-le n s))
]

binary_value-le : (s : Text) → value_left (binary_value s) ≤ length s
unfolding binary_value
binary_value-le s =
    value_left-bind (read_exact 4 s) (λ p. sized_value (big_endian p.0) p.1) (length s)
      (λ p. sized_value-le (big_endian p.0) p.1) (read_exact-le 4 s)

text_value-le : (s : Text) → value_left (text_value s) ≤ length s
unfolding text_value
text_value-le s = elim (Option-cases (cut_at b'\n' s)) [
  | inl e ↦ ground arith
  | inr (p, e) ↦ ground (arith, length-cut_at b'\n' s {p = p} e)
]

read_value-le : (k : Key) → value_left (read_value k) ≤ length k.rest
unfolding read_value
read_value-le k = ground (arith, text_value-le k.rest, binary_value-le k.rest)

pair_left-read_pair : (s : Text) → pair_left (read_pair s) ≤ length s
unfolding read_pair
pair_left-read_pair s =
    pair_left-bind (read_key 0 s) (λ k. read_value k >>= (λ v. ok (pair k.name v.0 v.1))) (length s)
      (λ k. pair_left-value k.name (read_value k) (length k.rest) (read_value-le k))
      (key_left-read_key 0 s)

-- An event that ended well, and did not start at a header, took a byte at least.
abbrev pub Advances : Text → Parsed → Type 0
Advances s p =
    p.failure ≡ none
    → (length p.rest ≤ length s) × (has_header s ≡ false → length p.rest < length s)

read_pairs-Advances : (n : ℕ) (s : Text) (ev : Fields) → Advances s (read_pairs n s ev)
unfolding read_pairs
read_pairs-Advances zero s ev h = absurd (cc h)
read_pairs-Advances (suc n) [] ev h = absurd (cc h)
read_pairs-Advances (suc n) (c ∷ s) ev h =
    grind (arith, read_pairs-Advances n, pair_left-read_pair (c ∷ s))

read_pairs_round :
    (n k : ℕ) (s : Text) (ev : Fields)
    → ((t : Text) (e : Fields) → length t < length s → read_pairs (n + k) t e ≡ read_pairs n t e)
    → read_pairs (suc (n + k)) s ev ≡ read_pairs (suc n) s ev
unfolding read_pairs
read_pairs_round n k [] ev ih = refl
read_pairs_round n k (c ∷ s) ev ih = grind (arith, ih, pair_left-read_pair (c ∷ s))

read_pairs_enough :
    (n k : ℕ) (s : Text) (ev : Fields) → length s < n → read_pairs (n + k) s ev ≡ read_pairs n s ev
read_pairs_enough zero k s ev h = absurd (omega arith)
read_pairs_enough (suc n) k s ev h =
    let e : suc n + k ≡ suc (n + k) = omega arith in
    ap (λ m. read_pairs m s ev) e
    ∙ read_pairs_round n k s ev (λ t f b. read_pairs_enough n k t f (omega (arith, b, h)))

skip_header-less :
    (s : Text)
    → (length (skip_header s) ≤ length s)
      × ((has_header (skip_header s) ≡ false) ⊎ (length (skip_header s) < length s))
unfolding skip_header has_header
skip_header-less [] = (omega arith, inl refl)
skip_header-less (a ∷ []) = (omega arith, inl refl)
skip_header-less (a ∷ b ∷ s) = ground arith

parse_ld_event-less :
    (s : Text) → (parse_ld_event s).failure ≡ none → length (parse_ld_event s).rest < length s
unfolding parse_ld_event
parse_ld_event-less s h =
    let t = skip_header s in
    let p = read_pairs-Advances (suc (length t)) t [] h in ground (arith, skip_header-less s, p)

-- The bytes of an event are fuel enough: with more fuel it is read as the same.
pub parse_ld_event_enough :
    (s : Text) (k : ℕ)
    → read_pairs (suc (length (skip_header s)) + k) (skip_header s) [] ≡ parse_ld_event s
unfolding parse_ld_event
parse_ld_event_enough s k =
    read_pairs_enough (suc (length (skip_header s))) k (skip_header s) [] (omega arith)

events_continued :
    (failure : Option LdError) (n k : ℕ) (rest : Text) (m : ℕ)
    → (failure ≡ none → length rest < m)
    → (length rest < m → read_events (n + k) rest ≡ read_events n rest)
    → unless_failed failure (read_events (n + k) rest) ≡ unless_failed failure (read_events n rest)
unfolding unless_failed
events_continued none n k rest m p ih = ih (p refl)
events_continued (some e) n k rest m p ih = refl

-- The loop over a stream has ended after as many events as there are bytes, and one: further rounds
-- would emit nothing more, and the stream would end the same way.
pub read_events_enough :
    (n k : ℕ) (s : Text) → length s < n → read_events (n + k) s ≡ read_events n s
unfolding read_events
read_events_enough zero k s h = absurd (omega arith)
read_events_enough (suc n) k s h =
    let p = parse_ld_event s in
    let e : suc n + k ≡ suc (n + k) = omega arith in
    ap (λ m. read_events m s) e
    ∙ ap (emit p.event) (
        events_continued p.failure n k p.rest (length s) (parse_ld_event-less s)
          (λ b. read_events_enough n k p.rest (omega (arith, b, h))))
