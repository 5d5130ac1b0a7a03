-- ===== src/Pipeline/Names/Agree.antt =====
-- internal/pipeline/pipeline.go against internal/model/entry.go: the three readings of a level name.
use logdoc.Common.{
  zero, suc, ◌≡◌, ◌≤◌, refl, ◌∙◌, true, none, some, List, [], ◌∷◌, arith, if◌then◌else◌,
}
use logdoc.Common.Text.{Text}
use logdoc.Model.{Level, level_string, equal_fold, parse_level, level_names}
use logdoc.Model.Levels.{is_level_name, parse_level-level_string, equal_fold_cong}
use logdoc.Pipeline.Names.{strict_among, parse_level_strict, equal_fold_any, parse_level_loose}

strict_among_sound :
    (s : Text) (ls : List Level) {l : Level}
    → strict_among s ls ≡ some l
    → equal_fold s (level_string l) ≡ true
unfolding strict_among
strict_among_sound s [] h = absurd (cc)
strict_among_sound s (m ∷ ls) {l} h = ground (arith, strict_among_sound s ls {l = l})

strict_sound :
    (s : Text) {l : Level} → parse_level_strict s ≡ some l → equal_fold s (level_string l) ≡ true
unfolding parse_level_strict
strict_sound s {l} h = strict_among_sound s (0 ∷ 1 ∷ 2 ∷ 3 ∷ 4 ∷ 5 ∷ 6 ∷ []) {l = l} h

pub parse_level_loose-le : (s : Text) {l : Level} → parse_level_loose s ≡ some l → l ≤ 6
unfolding parse_level_loose
parse_level_loose-le s {l} h = ground arith

pub parse_level_strict-le : (s : Text) {l : Level} → parse_level_strict s ≡ some l → l ≤ 6
unfolding parse_level_strict strict_among
parse_level_strict-le s {l} h = ground arith

-- The strict reading gives the level that the model's reading gives, and fails for a text that is
-- not one of the seven names.
pub parse_level_strict-parse_level :
    (s : Text) → parse_level_strict s ≡ (if is_level_name s then some (parse_level s) else none)
unfolding parse_level_strict strict_among level_string level_names
parse_level_strict-parse_level s = ground (
  arith,
  parse_level-level_string 0 s,
  parse_level-level_string 1 s,
  parse_level-level_string 2 s,
  parse_level-level_string 3 s,
  parse_level-level_string 4 s,
  parse_level-level_string 5 s,
  parse_level-level_string 6 s,
)

equal_fold_any_cong :
    (s t : Text) (names : List Text)
    → equal_fold s t ≡ true
    → equal_fold_any s names ≡ equal_fold_any t names
unfolding equal_fold_any
equal_fold_any_cong s t [] h = refl
equal_fold_any_cong s t (n ∷ names) h =
    ground (arith, equal_fold_cong s t n h, equal_fold_any_cong s t names h)

parse_level_loose_cong :
    (s t : Text) → equal_fold s t ≡ true → parse_level_loose s ≡ parse_level_loose t
unfolding parse_level_loose
parse_level_loose_cong s t h = simp (λ (names : List Text). equal_fold_any_cong s t names h)

parse_level_loose-level_string : (l : Level) → l ≤ 6 → parse_level_loose (level_string l) ≡ some l
unfolding parse_level_loose equal_fold_any level_string level_names equal_fold
parse_level_loose-level_string zero h = refl
parse_level_loose-level_string (suc zero) h = refl
parse_level_loose-level_string (suc (suc zero)) h = refl
parse_level_loose-level_string (suc (suc (suc zero))) h = refl
parse_level_loose-level_string (suc (suc (suc (suc zero)))) h = refl
parse_level_loose-level_string (suc (suc (suc (suc (suc zero))))) h = refl
parse_level_loose-level_string (suc (suc (suc (suc (suc (suc zero)))))) h = refl
parse_level_loose-level_string (suc (suc (suc (suc (suc (suc (suc l))))))) h = absurd (omega arith)

-- A name that is read strictly is read loosely as the same level.
pub parse_level_loose-strict :
    (s : Text) (l : Level) → parse_level_strict s ≡ some l → parse_level_loose s ≡ some l
parse_level_loose-strict s l h =
    parse_level_loose_cong s (level_string l) (strict_sound s h)
    ∙ parse_level_loose-level_string l (parse_level_strict-le s h)
