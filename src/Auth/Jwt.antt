-- ===== src/Auth/Jwt.antt =====
-- internal/auth/jwt.go: session tokens.
use logdoc.Common.{
  ℕ, ◌+◌, ◌/◌, ◌≡◌, ◌<◌, refl, Bool, true, false, not, ◌||◌, Option, none, some, [], ◌∷◌, ◌++◌,
  arith, leb, ltb, ◌&&◌, if◌then◌else◌, ◌==◌, subst,
}
use mathlib.Core.List.{append_assoc}
use logdoc.Common.Int.{second}
use logdoc.Common.Text.{Text, bytes, is_empty, text_eq, text_eq_iff, cut_prefix}
use logdoc.Model.{Time}
use logdoc.Auth.Store.{Role}

-- `claims`; `iat` and `exp` are seconds, a constant away from those of Unix.
pub record Claims : Type 0 where
  pub sub : Text
  pub role : Role
  pub iat : ℕ
  pub exp : ℕ

unfoldable pub has_dot : Text → Bool
has_dot [] = false
has_dot (c ∷ s) = c == b'.' || has_dot s

-- A byte of a character, behind its first.
abbrev is_tail : ℕ → Bool
is_tail b = leb 128 b && leb b 191

-- A character of three bytes, and one of four.
abbrev is_three : ℕ → ℕ → ℕ → Bool
is_three a b c =
    leb 224 a
    && leb a 239
    && is_tail b
    && is_tail c
    && (not (a == 224) || leb 160 b)
    && (not (a == 237) || leb b 159)

abbrev is_four : ℕ → ℕ → ℕ → ℕ → Bool
is_four a b c d =
    leb 240 a
    && leb a 244
    && is_tail b
    && is_tail c
    && is_tail d
    && (not (a == 240) || leb 144 b)
    && (not (a == 244) || leb b 143)

-- Valid UTF-8: no byte out of place, no character longer than it needs to be, no surrogate, and none
-- past U+10FFFF.
unfoldable pub is_utf8 : Text → Bool
is_utf8 [] = true
is_utf8 (a ∷ []) = ltb a 128
is_utf8 (a ∷ b ∷ []) =
    let ascii = is_utf8 (b ∷ []) in (ltb a 128 && ascii) || (leb 194 a && leb a 223 && is_tail b)
is_utf8 (a ∷ b ∷ c ∷ []) =
    let one = is_utf8 (b ∷ c ∷ []) in
    let two = is_utf8 (c ∷ []) in
    (ltb a 128 && one) || (leb 194 a && leb a 223 && is_tail b && two) || is_three a b c
is_utf8 (a ∷ b ∷ c ∷ d ∷ s) =
    let one = is_utf8 (b ∷ c ∷ d ∷ s) in
    let two = is_utf8 (c ∷ d ∷ s) in
    let three = is_utf8 (d ∷ s) in
    let four = is_utf8 s in
    (ltb a 128 && one)
    || (leb 194 a && leb a 223 && is_tail b && two)
    || (is_three a b c && three)
    || (is_four a b c d && four)

-- What the tokens take from other packages: base64.RawURLEncoding, HMAC-SHA256, and JSON.
pub record Signing : Type 0 where
  pub encode : Text → Text
  pub decode : Text → Option Text
  pub mac : Text → Text → Text
  pub write_claims : Claims → Text
  pub read_claims : Text → Option Claims
  -- the alphabet of base64 has no dot, and what is encoded can be read back; so can what is written
  -- as JSON, if the login is valid UTF-8 (encoding/json replaces any other byte)
  pub no_dot : (s : Text) → has_dot (encode s) ≡ false
  pub decode-encode : (s : Text) → decode (encode s) ≡ some s
  pub read-write : (c : Claims) → is_utf8 c.sub ≡ true → read_claims (write_claims c) ≡ some c

-- The text before the last dot and the text after it.
unfoldable pub split_last : Text → Option (Text × Text)
split_last [] = none
split_last (c ∷ s) = elim (split_last s) [
  | none ↦ if c == b'.' then some ([], s) else none
  | some p ↦ some (c ∷ p.0, p.1)
]

module _ (p : Signing) where
  abbrev pub jwt_header : Text
  jwt_header = p.encode (bytes "{\"alg\":\"HS256\",\"typ\":\"JWT\"}")

  -- `signJWT`: the token and its end.
  unfoldable pub sign_jwt : Time → Text → Text → Role → ℕ → Text × Time
  sign_jwt now secret login role ttl =
      let payload =
        p.write_claims
          (record { sub = login; role = role; iat = now / second; exp = (now + ttl) / second }) in
      let signing = jwt_header ++ (b'.' ∷ p.encode payload) in
      (signing ++ (b'.' ∷ p.encode (p.mac secret signing)), now + ttl)

  -- The claims of a token that is not over.
  unfoldable pub live_claims : Time → Option Claims → Option Text
  live_claims now none = none
  live_claims now (some c) =
      if is_empty c.sub then none else if leb c.exp (now / second) then none else some c.sub

  unfoldable pub read_payload : Time → Option Text → Option Text
  read_payload now none = none
  read_payload now (some payload) = live_claims now (p.read_claims payload)

  unfoldable pub read_encoded : Time → Option Text → Option Text
  read_encoded now none = none
  read_encoded now (some encoded) = read_payload now (p.decode encoded)

  -- A signature that decodes to the right code.
  abbrev pub is_signed : Text → Text → Option Text → Bool
  is_signed secret signing none = false
  is_signed secret signing (some sig) = text_eq (p.mac secret signing) sig

  unfoldable pub verify_parts : Time → Text → Option (Text × Text) → Option Text
  verify_parts now secret none = none
  verify_parts now secret (some parts) =
      if not (is_signed secret parts.0 (p.decode parts.1))
      then none
      else read_encoded now (cut_prefix (jwt_header ++ (b'.' ∷ [])) parts.0)

  -- `verifyJWT`
  unfoldable pub verify_jwt : Time → Text → Text → Option Text
  verify_jwt now secret token = verify_parts now secret (split_last token)

split_last_no_dot : (s : Text) → has_dot s ≡ false → split_last s ≡ none
unfolding split_last has_dot
split_last_no_dot [] h = refl
split_last_no_dot (c ∷ s) h = ground (arith, split_last_no_dot s)

split_last-append : (a b : Text) → has_dot b ≡ false → split_last (a ++ (b'.' ∷ b)) ≡ some (a, b)
unfolding split_last
split_last-append [] b h = rw (split_last, split_last_no_dot b h) refl
split_last-append (c ∷ a) b h = rw (split_last, split_last-append a b h) refl

cut_prefix-append : (p s : Text) → cut_prefix p (p ++ s) ≡ some s
unfolding cut_prefix
cut_prefix-append [] s = refl
cut_prefix-append (c ∷ p) s = ground (arith, cut_prefix-append p s)

-- Given that base64 and JSON read back what they wrote, a session token gives the login that it was
-- signed for, until the second in which it ends, for a login that is not empty and is valid UTF-8.
pub verify_jwt-sign_jwt :
    (p : Signing) (now now' : Time) (secret login : Text) (role : Role) (ttl : ℕ)
    → is_empty login ≡ false
    → is_utf8 login ≡ true
    → now' / second < (now + ttl) / second
    → verify_jwt p now' secret (sign_jwt p now secret login role ttl).0 ≡ some login
unfolding verify_jwt sign_jwt verify_parts read_encoded read_payload live_claims
verify_jwt-sign_jwt p now now' secret login role ttl named valid before =
    let c : Claims = record {
      sub = login;
      role = role;
      iat = now / second;
      exp = (now + ttl) / second;
    } in
    let payload = p.write_claims c in
    let signing = jwt_header p ++ (b'.' ∷ p.encode payload) in
    let cut : cut_prefix (jwt_header p ++ (b'.' ∷ [])) signing ≡ some (p.encode payload) =
      subst (λ l. cut_prefix (jwt_header p ++ (b'.' ∷ [])) l ≡ some (p.encode payload))
        (append_assoc (jwt_header p) (b'.' ∷ []) (p.encode payload))
        (cut_prefix-append (jwt_header p ++ (b'.' ∷ [])) (p.encode payload)) in
    let same : text_eq (p.mac secret signing) (p.mac secret signing) ≡ true =
      (text_eq_iff (p.mac secret signing) (p.mac secret signing)).1 refl in
    let late : leb ((now + ttl) / second) (now' / second) ≡ false = ground arith in
    rw
      (
        split_last-append signing (p.encode (p.mac secret signing))
            (p.no_dot (p.mac secret signing)),
        p.decode-encode (p.mac secret signing),
        same,
        cut,
        p.decode-encode payload,
        p.read-write c valid,
        named,
        late,
      )
      refl
