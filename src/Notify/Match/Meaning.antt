-- ===== src/Notify/Match/Meaning.antt =====
-- internal/notify/match.go: what a condition means, read off the tree, and that the compiled
-- predicate decides just that.
pub mod Nodes
pub mod Compiled
use logdoc.Common.{
  fun_ext, ℕ, ◌≡◌, refl, ap, ◌∙◌, sym, Bool, true, false, not, ◌&&◌, ◌||◌, Option, none, some, List,
  [], ◌∷◌, ◌++◌, leb, if◌then◌else◌, Result, ok, err, ◌>>=◌, arith, ◌==◌, ◌+◌, Bool-cases, inl, inr,
}
use logdoc.Common.Text.{Text, is_empty, text_eq, text_Eq, has_prefix, has_suffix, contains}
use logdoc.Common.Map.{lookup}
use logdoc.Common.Platform.{Platform}
use logdoc.Model.{Level, level_string, equal_fold, parse_level, Entry}
use logdoc.Model.Levels.{is_level_name, print_parse_level}
use logdoc.Notify.Match.{
  Cond, Simple, Match, Matches, node, nil, cons, MatchError, MatchFunc, cond_ops,
  parse_level_strict, run_all, run_any, pred_if_set, compile_lvl, and_pred, or_pred, conjunction,
  cond_test, compile_ops, compile_cond, compile_msg, regex_pred, compile_regex, field_test,
  compile_field, compile_fields, compile_simple, compile_match, compile_matches, then_preds,
  op_if_set,
}

abbrev pub unless_empty : Text → Bool → Bool
unless_empty [] b = true
unless_empty (c ∷ s) b = b

abbrev set_count : Text → ℕ
set_count [] = 0
set_count (c ∷ s) = 1

abbrev pub one_operator : Cond → Bool
one_operator c =
    set_count c.contains + set_count c.starts + set_count c.ends + set_count c.equals == 1

abbrev pub is_nil : Matches → Bool
is_nil nil = true
is_nil (cons m ms) = false

abbrev pub is_none {ℓ} : {A : Type ℓ} → Option A → Bool
is_none none = true
is_none (some a) = false

abbrev pub is_null {ℓ} : {A : Type ℓ} → List A → Bool
is_null [] = true
is_null (a ∷ l) = false

-- No simple condition is set.
abbrev pub is_blank : Simple → Bool
is_blank c =
    is_empty c.app
    && (is_empty c.src
        && (is_empty c.pid
            && (is_empty c.lvl && (is_none c.msg && (is_empty c.regex && is_null c.fields)))))

module _ (go : Platform) where
  open go use {to_lower, compile_re, match_string}

  -- Every operator that is set holds of the text, on lower-cased texts unless the case counts.
  abbrev fold_case : Bool → Text → Text
  fold_case true s = s
  fold_case false s = to_lower s

  pub holds_cond : Cond → Text → Bool
  holds_cond c s =
      unless_empty c.contains (contains (fold s) (fold c.contains))
      && (unless_empty c.starts (has_prefix (fold s) (fold c.starts))
          && (unless_empty c.ends (has_suffix (fold s) (fold c.ends))
              && unless_empty c.equals (text_eq (fold s) (fold c.equals))))
    where
      fold : Text → Text
      fold = fold_case c.case_sensitive

  abbrev pub valid_msg : Option Cond → Bool
  valid_msg none = true
  valid_msg (some c) = one_operator c

  pub holds_msg : Option Cond → Text → Bool
  unfolding holds_cond
  holds_msg none s = true
  holds_msg (some c) s = holds_cond c s

  abbrev pub valid_re : Option go.Re → Bool
  valid_re none = false
  valid_re (some re) = true

  abbrev pub holds_re : Option go.Re → Text → Bool
  holds_re none s = false
  holds_re (some re) s = match_string re s

  abbrev pub valid_fields : List (Text × Cond) → Bool
  valid_fields [] = true
  valid_fields ((key, c) ∷ rest) = one_operator c && valid_fields rest

  -- A field condition wants the field to be there.
  pub holds_fields : List (Text × Cond) → Entry → Bool
  unfolding holds_cond
  holds_fields [] e = true
  holds_fields ((key, c) ∷ rest) e =
      field_test (holds_cond c) (lookup key e.fields) && holds_fields rest e

  pub valid_simple : Simple → Bool
  valid_simple c =
      unless_empty c.lvl (is_level_name c.lvl)
      && (valid_msg c.msg
          && (unless_empty c.regex (valid_re (compile_re c.regex)) && valid_fields c.fields))

  pub holds_simple : Simple → Entry → Bool
  unfolding holds_msg holds_fields
  holds_simple c e =
      unless_empty c.app (text_eq e.app c.app)
      && (unless_empty c.src (text_eq e.src c.src)
          && (unless_empty c.pid (text_eq e.pid c.pid)
              && (unless_empty c.lvl (leb (parse_level c.lvl) e.lvl)
                  && (holds_msg c.msg e.msg
                      && (unless_empty c.regex (holds_re (compile_re c.regex) e.msg)
                          && holds_fields c.fields e)))))

  mutual
    -- A tree is valid if every level name, regular expression and comparison in it is, and no node
    -- is empty.
    pub valid : Match → Bool
    valid (node c ands ors) =
        (valid_simple c && (valid_all ands && valid_all ors))
        && not (is_blank c && (is_nil ands && is_nil ors))

    pub valid_all : Matches → Bool
    valid_all nil = true
    valid_all (cons m ms) = valid m && valid_all ms

  mutual
    -- Everything set on a node holds: each `and` child, and one of the `or` children if it has any.
    pub holds : Match → Entry → Bool
    holds (node c ands ors) e =
        holds_simple c e && (all_hold ands e && (is_nil ors || any_holds ors e))

    pub all_hold : Matches → Entry → Bool
    all_hold nil e = true
    all_hold (cons m ms) e = holds m e && all_hold ms e

    pub any_holds : Matches → Entry → Bool
    any_holds nil e = false
    any_holds (cons m ms) e = holds m e || any_holds ms e
