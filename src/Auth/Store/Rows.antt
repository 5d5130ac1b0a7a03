-- ===== src/Auth/Store/Rows.antt =====
-- internal/auth/store.go: what statements do to the number of users and of administrators.
use logdoc.Common.{
  ℕ, ◌+◌, ◌≡◌, refl, Option, none, some, [], ◌∷◌, arith, if◌then◌else◌, length, Bool-cases, inl,
  inr,
}
use logdoc.Common.Text.{Text, text_eq, text_Eq, text_eq_iff}
use logdoc.Common.Map.{lookup, insert, remove, lookup-insert, lookup-remove}
use logdoc.Auth.Store.{Account, Users, admin_count, is_admin}

-- No login stands twice.
abbrev pub Unique : Users → Type 0
Unique [] = Unit
Unique ((login, a) ∷ us) = (lookup login us ≡ none) × Unique us

abbrev pub known : Option Account → ℕ
known none = 0
known (some a) = 1

abbrev pub admins_of : Option Account → ℕ
admins_of none = 0
admins_of (some a) = if is_admin a.role then 1 else 0

pub Unique-insert : (k : Text) (v : Account) (us : Users) → Unique us → Unique (insert k v us)
unfolding insert lookup
Unique-insert k v [] u = (refl, tt)
Unique-insert k v ((j, w) ∷ us) u = elim (Bool-cases (text_eq j k)) [
  | inl same ↦ rw same (ground (arith, text_eq_iff j k), u.1)
  | inr other ↦ rw other (
    ground (arith, lookup-insert k j v us, text_eq_iff j k, text_eq_iff k j),
    Unique-insert k v us u.1,
  )
]

pub Unique-remove : (k : Text) (us : Users) → Unique us → Unique (remove k us)
unfolding remove
Unique-remove k [] u = tt
Unique-remove k ((j, w) ∷ us) u = elim (Bool-cases (text_eq j k)) [
  | inl same ↦ rw same (Unique-remove k us u.1)
  | inr other ↦ rw other (ground (arith, lookup-remove k j us), Unique-remove k us u.1)
]

remove_absent : (k : Text) (us : Users) → lookup k us ≡ none → remove k us ≡ us
unfolding remove lookup
remove_absent k [] h = refl
remove_absent k ((j, w) ∷ us) h = ground (arith, remove_absent k us)

pub length-insert :
    (k : Text) (v : Account) (us : Users)
    → length (insert k v us) + known (lookup k us) ≡ length us + 1
unfolding insert lookup
length-insert k v [] = refl
length-insert k v ((j, w) ∷ us) = ground (arith, length-insert k v us)

pub length-remove :
    (k : Text) (us : Users) → Unique us → length (remove k us) + known (lookup k us) ≡ length us
unfolding remove lookup
length-remove k [] u = refl
length-remove k ((j, w) ∷ us) u =
    ground (arith, length-remove k us, remove_absent k us, text_eq_iff j k)

pub admin_count-insert :
    (k : Text) (v : Account) (us : Users)
    → admin_count (insert k v us) + admins_of (lookup k us) ≡ admin_count us + admins_of (some v)
unfolding insert lookup admin_count
admin_count-insert k v [] = omega arith
admin_count-insert k v ((j, w) ∷ us) = ground (arith, admin_count-insert k v us)

pub admin_count-remove :
    (k : Text) (us : Users)
    → Unique us
    → admin_count (remove k us) + admins_of (lookup k us) ≡ admin_count us
unfolding remove lookup admin_count
admin_count-remove k [] u = refl
admin_count-remove k ((j, w) ∷ us) u =
    ground (arith, admin_count-remove k us, remove_absent k us, text_eq_iff j k)
