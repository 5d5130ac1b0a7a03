-- ===== src/Model/Levels.antt =====
-- internal/model/entry.go: how level names are compared, parsed and printed.
use logdoc.Common.{
  ℕ, zero, suc, ◌+◌, ◌-◌, ◌≤◌, ◌≡◌, ◌↔◌, refl, sym, ◌∙◌, ap, Bool, true, false, Option, none, some,
  List, [], ◌∷◌, map, arith, length, any, Bool-cases, Option-cases, inl, inr,
}
use logdoc.Common.Text.{Text}
use logdoc.Model.{
  Level, level_names, level_string, upper_byte, equal_fold, find_level, or_info, parse_level,
  name_at,
}

-- Two names compare as equal exactly when their upper-case forms are the same bytes.
equal_fold_iff : (a b : Text) → (equal_fold a b ≡ true) ↔ (map upper_byte a ≡ map upper_byte b)
unfolding equal_fold
equal_fold_iff [] [] = ground arith
equal_fold_iff [] (y ∷ t) = ground arith
equal_fold_iff (x ∷ s) [] = ground arith
equal_fold_iff (x ∷ s) (y ∷ t) = ground (arith, equal_fold_iff s t)

pub equal_fold_cong : (s t n : Text) → equal_fold s t ≡ true → equal_fold s n ≡ equal_fold t n
equal_fold_cong s t n h = ground (arith, equal_fold_iff s t, equal_fold_iff s n, equal_fold_iff t n)

find_level_cong :
    (s t : Text) (i : ℕ) (names : List Text)
    → equal_fold s t ≡ true
    → find_level s i names ≡ find_level t i names
unfolding find_level
find_level_cong s t i [] h = refl
find_level_cong s t i (n ∷ ns) h =
    ground (arith, equal_fold_cong s t n h, find_level_cong s t (i + 1) ns h)

parse_level_cong : (s t : Text) → equal_fold s t ≡ true → parse_level s ≡ parse_level t
parse_level_cong s t h = unfold parse_level in ap or_info (find_level_cong s t 0 level_names h)

parse_level-level_string_self : (l : Level) → l ≤ 6 → parse_level (level_string l) ≡ l
unfolding parse_level level_string
parse_level-level_string_self zero h = refl
parse_level-level_string_self (suc zero) h = refl
parse_level-level_string_self (suc (suc zero)) h = refl
parse_level-level_string_self (suc (suc (suc zero))) h = refl
parse_level-level_string_self (suc (suc (suc (suc zero)))) h = refl
parse_level-level_string_self (suc (suc (suc (suc (suc zero))))) h = refl
parse_level-level_string_self (suc (suc (suc (suc (suc (suc zero)))))) h = refl
parse_level-level_string_self (suc (suc (suc (suc (suc (suc (suc l))))))) h = absurd (omega arith)

-- For each of the seven levels, its name in any mixture of cases parses back to it.
pub parse_level-level_string :
    (l : Level) (s : Text) → l ≤ 6 → equal_fold s (level_string l) ≡ true → parse_level s ≡ l
parse_level-level_string l s h e =
    parse_level_cong s (level_string l) e ∙ parse_level-level_string_self l h

find_level-le :
    (s : Text) (i : ℕ) (names : List Text) {l : Level}
    → find_level s i names ≡ some l
    → l + 1 ≤ i + length names
unfolding find_level
find_level-le s i [] h = ground arith
find_level-le s i (n ∷ ns) {l} h = ground (arith, find_level-le s (i + 1) ns {l = l})

or_info-le : (o : Option Level) → ((l : Level) → o ≡ some l → l ≤ 6) → or_info o ≤ 6
unfolding or_info
or_info-le none h = omega arith
or_info-le (some l) h = h l refl

-- Whatever the text, the parsed level is one of the seven.
pub parse_level-le : (s : Text) → parse_level s ≤ 6
unfolding parse_level
parse_level-le s =
    or_info-le (find_level s 0 level_names) (λ l e. omega (arith, find_level-le s 0 level_names e))

find_level-none :
    (s : Text) (i : ℕ) (names : List Text)
    → find_level s i names ≡ none
    → any (λ n. equal_fold s n) names ≡ false
unfolding find_level
find_level-none s i [] h = refl
find_level-none s i (n ∷ ns) h = ground (arith, find_level-none s (i + 1) ns)

name_at_later :
    (n : Text) (ns : List Text) (i l : ℕ)
    → i + 1 ≤ l
    → name_at (n ∷ ns) (l - i) ≡ name_at ns (l - (i + 1))
unfolding name_at
name_at_later n ns i l h =
    let e : l - i ≡ suc (l - (i + 1)) = omega arith in ap (name_at (n ∷ ns)) e

name_at_first : (n : Text) (ns : List Text) (i : ℕ) → name_at (n ∷ ns) (i - i) ≡ n
unfolding name_at
name_at_first n ns i = let e : i - i ≡ 0 = omega arith in ap (name_at (n ∷ ns)) e

find_level-some :
    (s : Text) (i : ℕ) (names : List Text) {l : Level}
    → find_level s i names ≡ some l
    → (i ≤ l) × (equal_fold s (name_at names (l - i)) ≡ true)
find_level-some s i [] {l} h = unfold find_level in cc h
find_level-some s i (n ∷ ns) {l} h = elim (Bool-cases (equal_fold s n)) [
  | inl e ↦ found (unfold find_level in rw e at h) e
  | inr e ↦ later (find_level-some s (i + 1) ns {l = l} (unfold find_level in rw e at h))
]
  where
    found :
        some i ≡ some l
        → equal_fold s n ≡ true
        → (i ≤ l) × (equal_fold s (name_at (n ∷ ns) (l - i)) ≡ true)
    found p e =
        let q : i ≡ l = ground arith in
        rw (← q) (omega arith, ap (equal_fold s) (name_at_first n ns i) ∙ e)

    later :
        (i + 1 ≤ l) × (equal_fold s (name_at ns (l - (i + 1))) ≡ true)
        → (i ≤ l) × (equal_fold s (name_at (n ∷ ns) (l - i)) ≡ true)
    later p = (omega arith, ap (equal_fold s) (name_at_later n ns i l p.0) ∙ p.1)

-- What a text is compared with: one of the seven names, in any case.
abbrev pub is_level_name : Text → Bool
is_level_name s = any (λ n. equal_fold s n) level_names

equal_fold_comm : (s t : Text) → equal_fold s t ≡ equal_fold t s
equal_fold_comm s t = ground (arith, equal_fold_iff s t, equal_fold_iff t s)

not_info : (s : Text) → is_level_name s ≡ false → equal_fold s (level_string 1) ≡ false
unfolding level_string
not_info s h = ground arith

is_level_name-level_string :
    (s : Text) (l : Level) → l ≤ 6 → equal_fold s (level_string l) ≡ true → is_level_name s ≡ true
unfolding level_string
is_level_name-level_string s zero h e = ground arith
is_level_name-level_string s (suc zero) h e = ground arith
is_level_name-level_string s (suc (suc zero)) h e = ground arith
is_level_name-level_string s (suc (suc (suc zero))) h e = ground arith
is_level_name-level_string s (suc (suc (suc (suc zero)))) h e = ground arith
is_level_name-level_string s (suc (suc (suc (suc (suc zero))))) h e = ground arith
is_level_name-level_string s (suc (suc (suc (suc (suc (suc zero)))))) h e = ground arith
is_level_name-level_string s (suc (suc (suc (suc (suc (suc (suc l))))))) h e = absurd (omega arith)

parse_level-found :
    (s : Text) (o : Option Level) → find_level s 0 level_names ≡ o → parse_level s ≡ or_info o
parse_level-found s o e = unfold parse_level in ap or_info e

level_string_of_found :
    (s : Text) (l : Level)
    → find_level s 0 level_names ≡ some l
    → equal_fold s (level_string l) ≡ true
level_string_of_found s l e =
    let e' : l - 0 ≡ l = omega arith in
    unfold level_string in
    ap (λ k. equal_fold s (name_at level_names k)) (sym e')
    ∙ (find_level-some s 0 level_names {l = l} e).1

found_small : (s : Text) (l : Level) → find_level s 0 level_names ≡ some l → l ≤ 6
unfolding level_names
found_small s l e = omega (arith, find_level-le s 0 level_names e)

pub print_parse_level : (s : Text) → equal_fold (level_string (parse_level s)) s ≡ is_level_name s
print_parse_level s = elim (Option-cases (find_level s 0 level_names)) [
  | inl e ↦
      rw (parse_level-found s none e)
        (rw (equal_fold_comm) (unfold or_info in cc (not_info s (unknown e), unknown e)))
  | inr (l, e) ↦ rw (parse_level-found s (some l) e) (
      unfold or_info in
      cc (
        equal_fold_comm (level_string l) s,
        level_string_of_found s l e,
        is_level_name-level_string s l (found_small s l e) (level_string_of_found s l e),
      ))
]
  where
    unknown : find_level s 0 level_names ≡ none → is_level_name s ≡ false
    unknown e = find_level-none s 0 level_names e
