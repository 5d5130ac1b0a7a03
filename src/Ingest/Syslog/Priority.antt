-- ===== src/Ingest/Syslog/Priority.antt =====
-- internal/ingest/syslog.go: `parsePRI` on a printed priority.
use logdoc.Common.{ℕ, ◌≡◌, ◌≤◌, true, false, some, [], ◌∷◌, ◌++◌, refl, arith, length, all}
use logdoc.Common.Text.{Text, has_byte, has_prefix}
use logdoc.Common.Int.{pos}
use logdoc.Common.Decimal.{itoa, is_digit, atoi}
use logdoc.Common.Decimal.Printed.{atoi-itoa, all-itoa, length-itoa, itoa_nonempty}
use logdoc.Ingest.Bytes.{cut_at}
use logdoc.Ingest.Syslog.{parse_pri, pri_value}

pub no_byte_in_digits :
    (b : ℕ) (s : Text) → is_digit b ≡ false → all is_digit s ≡ true → has_byte b s ≡ false
unfolding has_byte
no_byte_in_digits b [] h e = refl
no_byte_in_digits b (c ∷ s) h e = ground (arith, no_byte_in_digits b s h)

-- A text of one to three bytes without '>' is the number's.
parse_pri_short :
    (d rest : Text) {n : ℕ}
    → 1 ≤ length d
    → length d ≤ 3
    → has_byte b'>' d ≡ false
    → atoi d ≡ some (pos n)
    → n ≤ 191
    → parse_pri (b'<' ∷ (d ++ (b'>' ∷ rest))) ≡ some (rest, n)
unfolding parse_pri cut_at has_byte has_prefix pri_value
parse_pri_short [] rest {n} a b h e k = absurd (omega arith)
parse_pri_short (x ∷ []) rest {n} a b h e k = ground arith
parse_pri_short (x ∷ y ∷ []) rest {n} a b h e k = ground arith
parse_pri_short (x ∷ y ∷ z ∷ []) rest {n} a b h e k = ground arith
parse_pri_short (x ∷ y ∷ z ∷ w ∷ d) rest {n} a b h e k = absurd (omega arith)

-- A priority up to 191 in angle brackets is read back, with all that follows left over.
pub parse_pri-itoa :
    (n : ℕ) (rest : Text) → n ≤ 191 → parse_pri (b'<' ∷ (itoa n ++ (b'>' ∷ rest))) ≡ some (rest, n)
parse_pri-itoa n rest h =
    parse_pri_short (itoa n) rest (itoa_nonempty n) (length-itoa 2 n (omega arith))
      (no_byte_in_digits b'>' (itoa n) refl (all-itoa n)) (atoi-itoa n (omega arith)) h
