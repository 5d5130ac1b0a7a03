-- ===== src/Pipeline/Names.antt =====
-- internal/pipeline/pipeline.go: the spellings of levels. Its `equalFold` is the code of
-- internal/model/entry.go again.
pub mod Agree
use logdoc.Common.{ℕ, ◌≡◌, Bool, true, false, Option, none, some, List, [], ◌∷◌, if◌then◌else◌, any}
use logdoc.Common.Text.{Text, bytes}
use logdoc.Model.{Level, level_string, equal_fold}

-- The loop over the levels, from those that are left.
unfoldable pub strict_among : Text → List Level → Option Level
strict_among s [] = none
strict_among s (l ∷ ls) =
    let rest = strict_among s ls in if equal_fold s (level_string l) then some l else rest

-- `parseLevelStrict`
unfoldable pub parse_level_strict : Text → Option Level
parse_level_strict s = strict_among s (0 ∷ 1 ∷ 2 ∷ 3 ∷ 4 ∷ 5 ∷ 6 ∷ [])

-- `equalFoldAny`
pub equal_fold_any : Text → List Text → Bool
equal_fold_any s [] = false
equal_fold_any s (n ∷ names) =
    let rest = equal_fold_any s names in if equal_fold s n then true else rest

-- `parseLevelLoose`
pub parse_level_loose : Text → Option Level
parse_level_loose s =
    if equal_fold_any s
      (bytes "trace" ∷ bytes "debug" ∷ bytes "fine" ∷ bytes "finer" ∷ bytes "finest" ∷ [])
    then some 0
    else if equal_fold_any s (bytes "info" ∷ bytes "informational" ∷ [])
    then some 1
    else if equal_fold_any s (bytes "log" ∷ bytes "notice" ∷ [])
    then some 2
    else if equal_fold_any s (bytes "warn" ∷ bytes "warning" ∷ [])
    then some 3
    else if equal_fold_any s (bytes "error" ∷ bytes "err" ∷ [])
    then some 4
    else if equal_fold_any s (bytes "severe" ∷ bytes "critical" ∷ bytes "crit" ∷ bytes "alert" ∷ [])
    then some 5
    else if equal_fold_any s
        (bytes "panic" ∷ bytes "fatal" ∷ bytes "emerg" ∷ bytes "emergency" ∷ [])
    then some 6
    else none
