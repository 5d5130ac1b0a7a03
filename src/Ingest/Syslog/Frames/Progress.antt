-- ===== src/Ingest/Syslog/Frames/Progress.antt =====
-- internal/ingest/syslog.go: a frame that ends well takes bytes from the stream, and gives them all.
use mathlib.Core.List.{append_assoc}
use logdoc.Common.{
  ℕ, zero, suc, ◌≡◌, ◌≤◌, ◌<◌, ◌+◌, ◌-◌, ◌*◌, ◌⊎◌, true, [], ◌∷◌, ◌++◌, refl, ◌∙◌, ap, subst, arith,
  length, Option-cases, inl, inr,
}
use logdoc.Common.Text.{Text}
use logdoc.Common.Decimal.{itoa, is_digit}
use logdoc.Common.Decimal.Printed.{itoa_digit, itoa_short}
use logdoc.Ingest.Bytes.{
  cut_at, length-cut_at, cut_at-parts, read_full, length-read_full, read_full-parts,
}
use logdoc.Ingest.Syslog.Frames.{
  Frame, Ending, fine, eof, cut_short, read_line, read_counted, read_plain, read_count, read_frame,
  read_frames, keep_message, unless_ended,
}

-- A read that ended well left less than there was.
abbrev pub Shrinks : Text → Frame → Type 0
Shrinks s f = f.ending ≡ fine → length f.rest < length s

read_line-Shrinks : (s : Text) → Shrinks s (read_line s)
unfolding read_line
read_line-Shrinks s e = elim (Option-cases (cut_at b'\n' s)) [
  | inl q ↦ ground arith
  | inr (p, q) ↦ ground (arith, length-cut_at b'\n' s {p = p} q)
]

read_counted-Shrinks : (n : ℕ) (s : Text) → 1 ≤ n → Shrinks s (read_counted n s)
unfolding read_counted
read_counted-Shrinks n s h e = elim (Option-cases (read_full n s)) [
  | inl q ↦ ground arith
  | inr (p, q) ↦ ground (arith, length-read_full n s {p = p} q)
]

read_plain-Shrinks : (n c : ℕ) (s : Text) → Shrinks (c ∷ s) (read_plain n c s)
unfolding read_plain
read_plain-Shrinks n c s e = ground (arith, read_line-Shrinks s)

read_count-Shrinks : (n k : ℕ) (s : Text) → Shrinks s (read_count n k s)
unfolding read_count
read_count-Shrinks n k [] e = absurd (cc e)
read_count-Shrinks n k (c ∷ s) e = ground (
  arith,
  read_count-Shrinks (n * 10 + (c - b'0')) (k + 1) s,
  read_counted-Shrinks n s,
  read_plain-Shrinks n c s,
)

read_frame-Shrinks : (s : Text) → Shrinks s (read_frame s)
unfolding read_frame
read_frame-Shrinks [] e = absurd (cc e)
read_frame-Shrinks (c ∷ s) e =
    ground (arith, read_count-Shrinks (c - b'0') 1 s, read_line-Shrinks (c ∷ s))

continued :
    (how : Ending) (n k m : ℕ) (rest : Text)
    → ((how ≡ fine) → length rest < m)
    → (length rest < m → read_frames (n + k) rest ≡ read_frames n rest)
    → unless_ended how (read_frames (n + k) rest) ≡ unless_ended how (read_frames n rest)
unfolding unless_ended
continued fine n k m rest p ih = ih (p refl)
continued eof n k m rest p ih = refl
continued cut_short n k m rest p ih = refl

-- The loop over a stream has ended after as many rounds as there are bytes, and one: further rounds
-- would read nothing more.
pub read_frames_enough :
    (n k : ℕ) (s : Text) → length s < n → read_frames (n + k) s ≡ read_frames n s
unfolding read_frames
read_frames_enough zero k s h = absurd (omega arith)
read_frames_enough (suc n) k s h =
    let f = read_frame s in
    let e : suc n + k ≡ suc (n + k) = omega arith in
    ap (λ m. read_frames m s) e
    ∙ ap (keep_message f.msg) (
        continued f.ending n k (length s) f.rest (read_frame-Shrinks s)
          (λ less. read_frames_enough n k f.rest (omega (arith, less, h))))

-- What was read and what is to come are the bytes that there were, with the message as it is, with
-- a newline behind it, or with its length before it.
abbrev pub Conserves : Text → Frame → Type 0
Conserves s f =
    f.ending ≡ fine
    → (s ≡ f.msg ++ f.rest)
      ⊎ (s ≡ f.msg ++ (b'\n' ∷ f.rest))
      ⊎ (s ≡ itoa (length f.msg) ++ (b' ' ∷ (f.msg ++ f.rest)))

read_line-append-rest :
    (s : Text) → (read_line s).ending ≡ fine → s ≡ (read_line s).msg ++ (read_line s).rest
unfolding read_line
read_line-append-rest s e = elim (Option-cases (cut_at b'\n' s)) [
  | inl q ↦ ground arith
  | inr (p, q) ↦ ground (arith, cut_at-parts b'\n' s {p = p} q, append_assoc p.0 (b'\n' ∷ []) p.1)
]

read_counted-Conserves : (n : ℕ) (s : Text) → Conserves (itoa n ++ (b' ' ∷ s)) (read_counted n s)
unfolding read_counted
read_counted-Conserves n s e = elim (Option-cases (read_full n s)) [
  | inl q ↦ ground arith
  | inr (p, q) ↦ ground (arith, length-read_full n s {p = p} q, read_full-parts n s {p = p} q)
]

read_plain-Conserves : (n c : ℕ) (s : Text) → Conserves (itoa n ++ (c ∷ s)) (read_plain n c s)
unfolding read_plain
read_plain-Conserves n c s e = ground (
  arith,
  read_line-append-rest s,
  append_assoc (itoa n) (c ∷ (read_line s).msg) (read_line s).rest,
)

-- A digit of the count moves from what is to come to what was read.
next_digit :
    (n c : ℕ) (s : Text) (f : Frame)
    → 0 < n
    → is_digit c ≡ true
    → Conserves (itoa (n * 10 + (c - b'0')) ++ s) f
    → Conserves (itoa n ++ (c ∷ s)) f
next_digit n c s f h d k =
    let same : b'0' + (c - b'0') ≡ c = ground arith in
    let t : itoa (n * 10 + (c - b'0')) ++ s ≡ itoa n ++ (c ∷ s) =
      ap (λ u. u ++ s) (itoa_digit n (c - b'0') h (ground arith))
      ∙ append_assoc (itoa n) ((b'0' + (c - b'0')) ∷ []) s
      ∙ ap (λ m. itoa n ++ (m ∷ s)) same in
    subst (λ u. Conserves u f) t k

read_count-Conserves : (n k : ℕ) (s : Text) → 0 < n → Conserves (itoa n ++ s) (read_count n k s)
unfolding read_count
read_count-Conserves n k [] h e = absurd (cc e)
read_count-Conserves n k (c ∷ s) h e = ground (
  arith,
  next_digit n c s (read_count (n * 10 + (c - b'0')) (k + 1) s) h,
  read_count-Conserves (n * 10 + (c - b'0')) (k + 1) s,
  read_counted-Conserves n s,
  read_plain-Conserves n c s,
)

first_digit : (c : ℕ) → b'1' ≤ c → c ≤ b'9' → itoa (c - b'0') ≡ c ∷ []
first_digit c h k =
    let e : b'0' + (c - b'0') ≡ c = omega arith in
    itoa_short (c - b'0') (omega arith) ∙ ap (λ m. m ∷ []) e

-- A read that ends well loses nothing: what was read and what is to come are the bytes of the stream,
-- with the message as it stands there, with the newline behind it taken away, or with its length
-- in decimal and a space taken away before it.
pub read_frame-Conserves : (s : Text) → Conserves s (read_frame s)
unfolding read_frame
read_frame-Conserves [] e = absurd (cc e)
read_frame-Conserves (c ∷ s) e =
    ground
      (arith, first_digit c, read_count-Conserves (c - b'0') 1 s, read_line-append-rest (c ∷ s))
