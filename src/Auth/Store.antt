-- ===== src/Auth/Store.antt =====
-- internal/auth/store.go: the tables of users and tokens.
pub mod Rows
use logdoc.Common.{
  ℕ, ◌+◌, ◌-◌, ◌≡◌, Bool, true, false, not, ◌&&◌, Option, none, some, List, [], ◌∷◌, ◌++◌, Result,
  ok, err, ltb, leb, if◌then◌else◌, ◌==◌, length, suc, zero,
}
use logdoc.Common.Text.{Text, bytes, is_empty, text_eq, text_Eq}
use logdoc.Common.Map.{lookup, insert, remove}
use logdoc.Model.{Time}

pub data Role : Type 0 where
  admin member : Role

-- `parseRole`
unfoldable pub parse_role : Text → Option Role
parse_role s =
    if text_eq s (bytes "admin")
    then some admin
    else if text_eq s (bytes "member")
    then some member
    else none

abbrev pub is_admin : Role → Bool
is_admin admin = true
is_admin member = false

-- A row of `users`, without its key, the login.
pub record Account : Type 0 where
  pub pass_hash : Text
  pub role : Role
  pub created_at : Time

abbrev pub Users : Type 0
Users = List (Text × Account)

-- A row of `tokens`.
pub record TokenRow : Type 0 where
  pub id : ℕ
  pub user_login : Text
  pub name : Text
  pub hash : Text
  pub created_at : Time

-- `User` and `Token`, as they are returned.
pub record User : Type 0 where
  pub login : Text
  pub role : Role
  pub created_at : Time

pub record Token : Type 0 where
  pub id : ℕ
  pub name : Text
  pub created_at : Time

-- `adminCount`
unfoldable pub admin_count : Users → ℕ
admin_count [] = 0
admin_count ((login, a) ∷ us) =
    let rest = admin_count us in if is_admin a.role then suc rest else rest

-- The row of an upsert: an empty hash keeps the one that is there, and the time stays.
abbrev pub upserted : Option Account → Text → Role → Time → Account
upserted none hash role now = record { pass_hash = hash; role = role; created_at = now }
upserted (some a) hash role now = record a {
  pass_hash = (if not (is_empty hash) then hash else a.pass_hash);
  role = role;
}

-- `upsertUser`
unfoldable pub upsert_user : Text → Text → Role → Time → Users → Users
upsert_user login hash role now us = insert login (upserted (lookup login us) hash role now) us

-- `DELETE FROM tokens WHERE user_login = ?`
unfoldable pub delete_tokens_of : Text → List TokenRow → List TokenRow
delete_tokens_of login [] = []
delete_tokens_of login (t ∷ ts) =
    let rest = delete_tokens_of login ts in if text_eq t.user_login login then rest else t ∷ rest

-- `tokenUser`
unfoldable pub token_user : Text → List TokenRow → Option Text
token_user hash [] = none
token_user hash (t ∷ ts) = if text_eq t.hash hash then some t.user_login else token_user hash ts

-- `listTokens`: the ids grow from row to row, so the rows are in the order of their ids.
unfoldable pub list_tokens : Text → List TokenRow → List Token
list_tokens login [] = []
list_tokens login (t ∷ ts) =
    let rest = list_tokens login ts in
    if text_eq t.user_login login
    then record { id = t.id; name = t.name; created_at = t.created_at } ∷ rest
    else rest

-- `deleteToken`: the rows that stay, and if a row went.
unfoldable pub delete_token_row : Text → ℕ → List TokenRow → List TokenRow × Bool
delete_token_row login id [] = ([], false)
delete_token_row login id (t ∷ ts) =
    let (rest, gone) = delete_token_row login id ts in
    if text_eq t.user_login login && t.id == id then (rest, true) else (t ∷ rest, gone)
