-- ===== src/Auth/Service.antt =====
-- internal/auth/service.go: the identity behind a credential, and the management of users and tokens.
pub mod Credentials
pub mod Statements
use logdoc.Common.{
  ℕ, ◌+◌, ◌-◌, ◌*◌, ◌≡◌, Bool, true, false, not, ◌&&◌, ◌||◌, Option, none, some, List, [], ◌∷◌,
  ◌++◌, Result, ok, err, ltb, leb, if◌then◌else◌, ◌==◌, length,
}
use logdoc.Common.Int.{ℤ, or_default, minute}
use logdoc.Common.Text.{Text, bytes, is_empty, text_eq, text_Eq, has_prefix}
use logdoc.Common.Map.{lookup, remove}
use logdoc.Model.{Time}
use logdoc.Auth.Store.{
  Role, admin, member, parse_role, is_admin, Account, Users, TokenRow, User, Token, admin_count,
  upsert_user, delete_tokens_of, token_user, list_tokens, delete_token_row,
}

-- What the service uses of password.go and jwt.go, and the hash of a token by SHA-256: the functions
-- of `Auth.Password` with a random salt, and of `Auth.Jwt` at the time of the call.
pub record Crypto : Type 0 where
  -- none for a failure
  pub hash_password : Text → Option Text
  pub verify_password : Text → Text → Bool
  pub token_hash : Text → Text
  pub sign_jwt : Text → Text → Role → ℕ → Text
  pub verify_jwt : Text → Text → Option Text

-- The statements of the database, by the call that runs them.
pub data Statement : Type 0 where
  find_user guard_user count_admins write_user delete_tokens delete_user find_token : Statement
  insert_token delete_token select_tokens : Statement

-- Which statements fail during a call.
abbrev pub Faults : Type 0
Faults = Statement → Bool

pub data AuthError : Type 0 where
  db_failed unknown_role login_required short_password hash_failed last_admin : AuthError
  no_such_user no_such_token unauthorized rand_failed : AuthError

-- `Identity`
pub record Identity : Type 0 where
  pub login : Text
  pub role : Role
  pub is_key : Bool

-- `Service` with its store, where one call runs at a time (see Auth.Service.Statements for calls that
-- overlap). `user_count` is the cached number of users.
pub record Service : Type 0 where
  pub users : Users
  pub tokens : List TokenRow
  pub next_token : ℕ
  pub secret : Text
  pub bootstrap_key : Text
  pub session_ttl : ℕ
  pub user_count : ℕ

-- `NewService`, on the tables as they are.
unfoldable pub new_service : Users → List TokenRow → ℕ → Text → Text → ℤ → Service
new_service users tokens next_token secret bootstrap_key ttl = record {
  users = users;
  tokens = tokens;
  next_token = next_token;
  secret = secret;
  bootstrap_key = bootstrap_key;
  session_ttl = or_default (24 * 60 * minute) ttl;
  user_count = length users;
}

abbrev token_prefix : Text
token_prefix = bytes "ldt_"

-- `Open`
unfoldable pub open_mode : Service → Bool
open_mode s = is_empty s.bootstrap_key && s.user_count == 0

-- `guardLastAdmin`: the error, if there is one.
unfoldable pub guard_last_admin : Faults → Text → Service → Option AuthError
guard_last_admin fails login s =
    if not (is_empty s.bootstrap_key)
    then none
    else if fails guard_user
    then some db_failed
    else elim (lookup login s.users) [
      | none ↦ none
      | some a ↦
          if not (is_admin a.role)
          then none
          else if fails count_admins
          then some db_failed
          else if leb (admin_count s.users) 1
          then some last_admin
          else none
    ]

abbrev pub is_some : Option Account → Bool
is_some none = false
is_some (some a) = true

-- `UpsertUser` from the statement that writes.
unfoldable pub write_account :
    Faults → Text → Text → Role → Time → Service → Service × Result AuthError User
write_account fails login hash r now s = if fails write_user then (s, err db_failed) else (
  record s {
    users = upsert_user login hash r now s.users;
    user_count = (if is_some (lookup login s.users) then s.user_count else s.user_count + 1);
  },
  ok (record { login = login; role = r; created_at = now }),
)

module _ (c : Crypto) where
  -- `UpsertUser` from the hash of the password.
  unfoldable pub with_hash :
      Faults → Text → Text → Role → Time → Service → Service × Result AuthError User
  with_hash fails login [] r now s = write_account fails login [] r now s
  with_hash fails login (p ∷ ps) r now s = elim (c.hash_password (p ∷ ps)) [
    | none ↦ (s, err hash_failed)
    | some h ↦ write_account fails login h r now s
  ]

  -- `UpsertUser` after the guard of the last administrator.
  unfoldable pub guarded :
      Option AuthError
      → Faults
      → Text
      → Text
      → Role
      → Time
      → Service
      → Service × Result AuthError User
  guarded (some e) fails login password r now s = (s, err e)
  guarded none fails login password r now s = with_hash fails login password r now s

  -- `UpsertUser` for a role that parsed.
  unfoldable pub upsert_as :
      Faults → Text → Text → Role → Time → Service → Service × Result AuthError User
  upsert_as fails login password r now s =
      if is_empty login
      then (s, err login_required)
      else if fails find_user
      then (s, err db_failed)
      else if not (is_some (lookup login s.users)) && ltb (length password) 8
      then (s, err short_password)
      else if not (is_empty password) && ltb (length password) 8
      then (s, err short_password)
      else guarded
          (if is_some (lookup login s.users) && not (is_admin r)
            then guard_last_admin fails login s
            else none)
          fails login password r now s

  -- `UpsertUser`
  unfoldable pub upsert :
      Faults → Text → Text → Text → Time → Service → Service × Result AuthError User
  upsert fails login password role now s = elim (parse_role role) [
    | none ↦ (s, err unknown_role)
    | some r ↦ upsert_as fails login password r now s
  ]

  -- The user whom a credential names, by a personal token or by a session.
  unfoldable pub login_of : Faults → Text → Service → Option Text
  login_of fails cred s =
      if has_prefix cred token_prefix
      then (if fails find_token then none else token_user (c.token_hash cred) s.tokens)
      else c.verify_jwt s.secret cred

  unfoldable pub identity_of : Faults → Option Text → Service → Option Identity
  identity_of fails none s = none
  identity_of fails (some login) s = if fails find_user then none else elim (lookup login s.users) [
    | none ↦ none
    | some a ↦ some (record { login = login; role = a.role; is_key = false })
  ]

  -- `Identify`
  unfoldable pub identify : Faults → Text → Service → Option Identity
  identify fails cred s =
      if open_mode s
      then some (record { login = []; role = admin; is_key = false })
      else if is_empty cred
      then none
      else if not (is_empty s.bootstrap_key) && text_eq cred s.bootstrap_key
      then some (record { login = []; role = admin; is_key = true })
      else identity_of fails (login_of fails cred s) s

  -- `Login`: the session token, its identity and its end.
  unfoldable pub log_in :
      Faults → Text → Text → Time → Service → Result AuthError (Text × Identity × Time)
  log_in fails login password now s =
      if fails find_user then err db_failed else elim (lookup login s.users) [
        | none ↦ err unauthorized
        | some a ↦
            if not (c.verify_password a.pass_hash password)
            then err unauthorized
            else ok (
              c.sign_jwt s.secret login a.role (now + s.session_ttl),
              record { login = login; role = a.role; is_key = false },
              now + s.session_ttl,
            )
      ]

  -- `hash TEXT NOT NULL UNIQUE`
  abbrev is_taken : Option Text → Bool
  is_taken none = false
  is_taken (some login) = true

  -- `CreateToken`, given the hexadecimal text of the random bytes, if there were any.
  pub create_token :
      Faults
      → Text
      → Text
      → Option Text
      → Time
      → Service
      → Service × Result AuthError (Text × Token)
  create_token fails login name none now s = (s, err rand_failed)
  create_token fails login name (some hex) now s =
      let name' = if is_empty name then bytes "token" else name in
      let plaintext = token_prefix ++ hex in
      let row : TokenRow = record {
        id = s.next_token;
        user_login = login;
        name = name';
        hash = c.token_hash plaintext;
        created_at = now;
      } in
      if fails insert_token || is_taken (token_user (c.token_hash plaintext) s.tokens)
      then (s, err db_failed)
      else (
        record s { tokens = s.tokens ++ row ∷ []; next_token = s.next_token + 1 },
        ok (plaintext, record { id = s.next_token; name = name'; created_at = now }),
      )

-- `DeleteUser` after the guard: the tokens go first, in a statement of their own. The count is at
-- least 1 here, as the user is there.
unfoldable pub remove_user :
    Option AuthError → Faults → Text → Service → Service × Result AuthError Bool
remove_user (some e) fails login s = (s, err e)
remove_user none fails login s =
    if fails delete_tokens
    then (s, err db_failed)
    else let s' = record s { tokens = delete_tokens_of login s.tokens } in
      if fails delete_user
      then (s', err db_failed)
      else (record s' { users = remove login s.users; user_count = s.user_count - 1 }, ok true)

-- `DeleteUser`
unfoldable pub delete_account : Faults → Text → Service → Service × Result AuthError Bool
delete_account fails login s =
    if fails find_user
    then (s, err db_failed)
    else if not (is_some (lookup login s.users))
    then (s, err no_such_user)
    else remove_user (guard_last_admin fails login s) fails login s

-- `ListTokens`
unfoldable pub tokens_of : Faults → Text → Service → Result AuthError (List Token)
tokens_of fails login s =
    if fails select_tokens then err db_failed else ok (list_tokens login s.tokens)

-- `DeleteToken`
pub revoke_token : Faults → Text → ℕ → Service → Service × Result AuthError Bool
revoke_token fails login id s =
    if fails delete_token
    then (s, err db_failed)
    else let (rest, gone) = delete_token_row login id s.tokens in
      if gone then (record s { tokens = rest }, ok true) else (s, err no_such_token)
