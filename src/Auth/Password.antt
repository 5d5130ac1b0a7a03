-- ===== src/Auth/Password.antt =====
-- internal/auth/password.go: password hashes.
use logdoc.Common.{
  ℕ, suc, zero, ◌≡◌, refl, ap, ◌∙◌, Bool, true, false, not, ◌||◌, Option, none, some, List, [], ◌∷◌,
  ◌++◌, arith, if◌then◌else◌, ◌==◌, Option-cases, inl, inr, length, subst,
}
use logdoc.Common.Int.{ℤ, pos, negsuc}
use logdoc.Common.Decimal.{atoi}
use logdoc.Common.Text.{has_byte, Text, bytes, text_eq, text_eq_iff}

abbrev pub pbkdf2_iters : ℕ
pbkdf2_iters = 600000

abbrev pub pbkdf2_key_len : ℕ
pbkdf2_key_len = 32

-- What the hashes take from other packages: base64.RawStdEncoding, and PBKDF2 with SHA-256.
pub record Hashing : Type 0 where
  pub encode : Text → Text
  pub decode : Text → Option Text
  -- the password, the salt, the iterations, the length of the key; none for an error
  pub key : Text → Text → ℕ → ℕ → Option Text
  -- the alphabet of base64 has no colon, and what is encoded can be read back
  pub no_colon : (s : Text) → has_byte b':' (encode s) ≡ false
  pub decode-encode : (s : Text) → decode (encode s) ≡ some s
  -- a key has the length that was asked for
  pub length-key : (pw salt : Text) (n l : ℕ) (k : Text) → key pw salt n l ≡ some k → length k ≡ l

abbrev cons_head : ℕ → List Text → List Text
cons_head c [] = (c ∷ []) ∷ []
cons_head c (w ∷ ws) = (c ∷ w) ∷ ws

-- strings.Split
unfoldable pub split_on : ℕ → Text → List Text
split_on b [] = [] ∷ []
split_on b (c ∷ s) = let rest = split_on b s in if c == b then [] ∷ rest else cons_head c rest

module _ (h : Hashing) where
  -- The text of a hash.
  unfoldable pub hash_text : Text → Text → Text
  hash_text salt k =
      bytes "pbkdf2"
      ++ (b':'
          ∷ (bytes "sha256"
              ++ (b':' ∷ (bytes "600000" ++ (b':' ∷ (h.encode salt ++ (b':' ∷ h.encode k)))))))

  -- `hashPassword`, given the random salt, if there is one.
  unfoldable pub hash_password : Option Text → Text → Option Text
  hash_password none password = none
  hash_password (some salt) password = elim (h.key password salt pbkdf2_iters pbkdf2_key_len) [
    | none ↦ none
    | some k ↦ some (hash_text salt k)
  ]

  abbrev same_key : Option Text → Text → Bool
  same_key none want = false
  same_key (some got) want = text_eq got want

  abbrev check_key : Text → ℕ → Option Text → Option Text → Bool
  check_key password iters none want = false
  check_key password iters (some salt) none = false
  check_key password iters (some salt) (some want) =
      same_key (h.key password salt iters (length want)) want

  abbrev check_iters : Text → Option ℤ → Option Text → Option Text → Bool
  check_iters password none salt want = false
  check_iters password (some (pos zero)) salt want = false
  check_iters password (some (pos (suc n))) salt want = check_key password (suc n) salt want
  check_iters password (some (negsuc n)) salt want = false

  unfoldable pub check_parts : Text → List Text → Bool
  check_parts password (a ∷ (b ∷ (c ∷ (d ∷ (e ∷ []))))) =
      if not (text_eq a (bytes "pbkdf2")) || not (text_eq b (bytes "sha256"))
      then false
      else check_iters password (atoi c) (h.decode d) (h.decode e)
  check_parts password _ = false

  -- `verifyPassword`
  unfoldable pub verify_password : Text → Text → Bool
  verify_password hash password = check_parts password (split_on b':' hash)

split_on-append :
    (b : ℕ) (a s : Text) → has_byte b a ≡ false → split_on b (a ++ (b ∷ s)) ≡ a ∷ split_on b s
unfolding split_on has_byte
split_on-append b [] s n = ground arith
split_on-append b (c ∷ a) s n = ground (arith, split_on-append b a s)

split_on_last : (b : ℕ) (a : Text) → has_byte b a ≡ false → split_on b a ≡ a ∷ []
unfolding split_on has_byte
split_on_last b [] n = refl
split_on_last b (c ∷ a) n = ground (arith, split_on_last b a)

module _ (h : Hashing) where
  split-hash_text :
      (salt k : Text)
      → split_on b':' (hash_text h salt k)
        ≡ bytes "pbkdf2" ∷ bytes "sha256" ∷ bytes "600000" ∷ h.encode salt ∷ h.encode k ∷ []
  unfolding hash_text has_byte
  split-hash_text salt k =
      split_on-append b':' (bytes "pbkdf2") _ refl
      ∙ ap (λ l. bytes "pbkdf2" ∷ l)
          (split_on-append b':' (bytes "sha256") _ refl
            ∙ ap (λ l. bytes "sha256" ∷ l)
                (split_on-append b':' (bytes "600000") _ refl
                  ∙ ap (λ l. bytes "600000" ∷ l)
                      (split_on-append b':' (h.encode salt) _ (h.no_colon salt)
                        ∙ ap (λ l. h.encode salt ∷ l)
                            (split_on_last b':' (h.encode k) (h.no_colon k)))))

  iters_read : atoi (bytes "600000") ≡ some (pos pbkdf2_iters)
  unfolding atoi
  iters_read = refl

  hash_password-made :
      (salt : Option Text) (password hash : Text)
      → hash_password h salt password ≡ some hash
      → (s : Text) × (k : Text) × (h.key password s pbkdf2_iters pbkdf2_key_len ≡ some k)
        × (hash_text h s k ≡ hash)
  unfolding hash_password
  hash_password-made none password hash e = absurd (cc)
  hash_password-made (some s) password hash e =
      elim (Option-cases (h.key password s pbkdf2_iters pbkdf2_key_len)) [
        | inl p ↦ absurd (ground arith)
        | inr (k, p) ↦ (s, k, p, ground arith)
      ]

  verify-hash_text :
      (s k password : Text)
      → h.key password s pbkdf2_iters pbkdf2_key_len ≡ some k
      → verify_password h (hash_text h s k) password ≡ true
  unfolding verify_password check_parts text_eq
  verify-hash_text s k password e =
      let whole : h.key password s pbkdf2_iters (length k) ≡ some k =
        ap (h.key password s pbkdf2_iters) (h.length-key password s pbkdf2_iters pbkdf2_key_len k e)
        ∙ e in
      let same : text_eq k k ≡ true = (text_eq_iff k k).1 refl in
      rw (split-hash_text s k, iters_read, h.decode-encode s, h.decode-encode k, whole) same

-- Given that base64 reads back what it wrote and that a key has the length asked for, a password
-- verifies against every hash that was made of it.
pub verify_password-hash_password :
    (h : Hashing) (salt : Option Text) (password hash : Text)
    → hash_password h salt password ≡ some hash
    → verify_password h hash password ≡ true
verify_password-hash_password h salt password hash e =
    let (s, k, made, whole) = hash_password-made h salt password hash e in
    subst (λ t. verify_password h t password ≡ true) whole (verify-hash_text h s k password made)
