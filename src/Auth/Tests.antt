-- ===== src/Auth/Tests.antt =====
-- internal/auth: the theorems about the service on concrete values.
use logdoc.Common.{
  ℕ, zero, suc, ◌+◌, ◌-◌, ◌*◌, ◌≡◌, ◌≢◌, refl, ap, true, false, Option, none, some, List, [], ◌∷◌,
  ◌++◌, arith, ok, length, replicate, length-replicate,
}
use logdoc.Common.Int.{second, pos}
use logdoc.Common.Text.{has_byte, Text, bytes, text_eq, has_prefix}
use logdoc.Common.Map.{lookup, insert, remove}
use logdoc.Auth.Store.{
  Role, admin, member, Account, Users, TokenRow, admin_count, parse_role, upsert_user, token_user,
  delete_tokens_of,
}
use logdoc.Auth.Jwt.{Claims, Signing, has_dot, is_utf8, sign_jwt, verify_jwt, verify_jwt-sign_jwt}
use logdoc.Auth.Password.{
  Hashing, hash_text, hash_password, verify_password, verify_password-hash_password,
}
use logdoc.Auth.Service.{
  Crypto, Faults, Identity, Service, new_service, open_mode, guard_last_admin, identify,
  identity_of, login_of, delete_account, remove_user, upsert, upsert_as, guarded, with_hash,
  write_account,
}
use logdoc.Auth.Service.Credentials.{Vouched, identify-Vouched, identify-delete_account}

-- Texts that hide nothing.
abbrev pub clear_text : Crypto
clear_text = record {
  hash_password = λ p. some p;
  verify_password = λ h p. text_eq h p;
  token_hash = λ t. t;
  sign_jwt = λ secret login r until. login;
  verify_jwt = λ secret cred. some cred;
}

abbrev pub healthy : Faults
healthy _ = false

abbrev pub account_of : Role → Account
account_of r = record { pass_hash = bytes "password"; role = r; created_at = 5 }

abbrev users : Users
users = (bytes "ann", account_of admin) ∷ (bytes "bob", account_of member) ∷ []

abbrev tokens : List TokenRow
tokens =
    record {
      id = 1;
      user_login = bytes "bob";
      name = bytes "token";
      hash = bytes "ldt_b";
      created_at = 6;
    }
    ∷ record {
      id = 2;
      user_login = bytes "ann";
      name = bytes "token";
      hash = bytes "ldt_a";
      created_at = 6;
    }
    ∷ []

abbrev service : Service
service = new_service users tokens 3 (bytes "secret") [] (pos 0)

abbrev ann : Identity
ann = record { login = bytes "ann"; role = admin; is_key = false }

by_token : identify clear_text healthy (bytes "ldt_a") service ≡ some ann
unfolding identify open_mode new_service identity_of login_of has_prefix token_user text_eq lookup
by_token = refl

identify-Vouched_example : Vouched service (bytes "ldt_a") ann
identify-Vouched_example = identify-Vouched clear_text healthy (bytes "ldt_a") service ann by_token

bob_deleted : (delete_account healthy (bytes "bob") service).1 ≡ ok true
unfolding delete_account remove_user guard_last_admin new_service lookup text_eq
bob_deleted = refl

still_closed : open_mode (delete_account healthy (bytes "bob") service).0 ≡ false
unfolding open_mode delete_account remove_user guard_last_admin new_service lookup text_eq
still_closed = refl

ann_stays :
    identify clear_text healthy (bytes "ldt_a") (delete_account healthy (bytes "bob") service).0
    ≡ some ann
unfolding identify open_mode delete_account remove_user guard_last_admin new_service identity_of
    login_of has_prefix token_user delete_tokens_of text_eq lookup remove
ann_stays = refl

identify-delete_account_example : ann.login ≢ bytes "bob"
identify-delete_account_example =
    identify-delete_account clear_text healthy healthy (bytes "bob") (bytes "ldt_a") service ann
      bob_deleted still_closed ann_stays refl

-- In open mode the first user may be a member; then the server is closed, and nobody administers it.
abbrev locked : Service
locked =
    (upsert clear_text healthy (bytes "bob") (bytes "password") (bytes "member") 7
      (new_service [] [] 1 (bytes "secret") [] (pos 0))).0

locked_out : (open_mode locked ≡ false) × (admin_count locked.users ≡ 0)
unfolding open_mode upsert upsert_as guarded with_hash write_account upsert_user new_service
    parse_role text_eq lookup insert admin_count
locked_out = (refl, refl)

-- Texts of numbers from 1000 on, none of them a dot or a colon.
abbrev doubled : Text → Text
doubled [] = []
doubled (c ∷ s) = (c + 1000) ∷ doubled s

halved : Text → Text
halved [] = []
halved (c ∷ s) = (c - 1000) ∷ halved s

halved-doubled : (s : Text) → halved (doubled s) ≡ s
unfolding halved
halved-doubled [] = refl
halved-doubled (c ∷ s) = ground (arith, halved-doubled s)

no_dot_doubled : (s : Text) → has_dot (doubled s) ≡ false
unfolding has_dot
no_dot_doubled [] = refl
no_dot_doubled (c ∷ s) = ground (arith, no_dot_doubled s)

no_colon_doubled : (s : Text) → has_byte b':' (doubled s) ≡ false
unfolding has_byte
no_colon_doubled [] = refl
no_colon_doubled (c ∷ s) = ground (arith, no_colon_doubled s)

abbrev role_byte : Role → ℕ
role_byte admin = 0
role_byte member = 1

abbrev role_of : ℕ → Role
role_of zero = admin
role_of (suc n) = member

abbrev written : Claims → Text
written c = role_byte c.role ∷ c.iat ∷ c.exp ∷ c.sub

abbrev read : Text → Option Claims
read (r ∷ (i ∷ (e ∷ s))) = some (record { sub = s; role = role_of r; iat = i; exp = e })
read _ = none

role_of-role_byte : (r : Role) → role_of (role_byte r) ≡ r
role_of-role_byte admin = refl
role_of-role_byte member = refl

abbrev signing : Signing
signing = record {
  encode = doubled;
  decode = λ s. some (halved s);
  mac = λ secret s. secret;
  write_claims = written;
  read_claims = read;
  no_dot = no_dot_doubled;
  decode-encode = λ s. ap some (halved-doubled s);
  read-write = λ c h. ap (λ r. some (record c { role = r })) (role_of-role_byte c.role);
}

-- A login with characters of one to four bytes, and three texts that no character starts with.
valid_login :
    is_utf8 (bytes "a" ++ (195 ∷ 169 ∷ 226 ∷ 130 ∷ 172 ∷ 240 ∷ 159 ∷ 152 ∷ 128 ∷ [])) ≡ true
unfolding is_utf8
valid_login = refl

not_valid :
    (is_utf8 (255 ∷ []) ≡ false)
    × (is_utf8 (192 ∷ 128 ∷ []) ≡ false)
    × (is_utf8 (237 ∷ 160 ∷ 128 ∷ []) ≡ false)
unfolding is_utf8
not_valid = (refl, refl, refl)

verify_jwt-sign_jwt_example :
    verify_jwt signing
      (9 * second)
      (bytes "key")
      (sign_jwt signing (5 * second) (bytes "key") (bytes "ann") admin (60 * second)).0
    ≡ some (bytes "ann")
unfolding is_utf8
verify_jwt-sign_jwt_example =
    verify_jwt-sign_jwt signing (5 * second) (9 * second) (bytes "key") (bytes "ann") admin
      (60 * second) refl refl (omega arith)

-- A key of as many bytes as were asked for.
some_key : Text → Text → ℕ → ℕ → Option Text
some_key pw salt n l = some (replicate l n)

length-some_key :
    (pw salt : Text) (n l : ℕ) (k : Text) → some_key pw salt n l ≡ some k → length k ≡ l
unfolding some_key
length-some_key pw salt n l k e = ground (arith, length-replicate l n)

abbrev hashing : Hashing
hashing = record {
  encode = doubled;
  decode = λ s. some (halved s);
  key = some_key;
  no_colon = no_colon_doubled;
  decode-encode = λ s. ap some (halved-doubled s);
  length-key = length-some_key;
}

abbrev hashed : Text
hashed = hash_text hashing (bytes "salt") (replicate 32 600000)

made : hash_password hashing (some (bytes "salt")) (bytes "password") ≡ some hashed
unfolding hash_password some_key
made = refl

verify_password-hash_password_example : verify_password hashing hashed (bytes "password") ≡ true
verify_password-hash_password_example =
    verify_password-hash_password hashing (some (bytes "salt")) (bytes "password") hashed made
