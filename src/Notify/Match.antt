-- ===== src/Notify/Match.antt =====
-- internal/notify/match.go: the composite condition of a rule, and its compilation to a predicate.
pub mod Meaning
use logdoc.Common.{
  ℕ, ◌≡◌, Bool, true, false, not, ◌&&◌, ◌||◌, Option, none, some, List, [], ◌∷◌, ◌++◌, leb,
  if◌then◌else◌, Result, ok, err, ◌>>=◌, ltb, length,
}
use logdoc.Common.Text.{Text, is_empty, text_eq, text_Eq, has_prefix, has_suffix, contains}
use logdoc.Common.Map.{lookup}
use logdoc.Common.Platform.{Platform}
use logdoc.Model.{Level, level_string, equal_fold, parse_level, Entry}

-- One string comparison.
pub record Cond : Type 0 where
  pub contains : Text
  pub starts : Text
  pub ends : Text
  pub equals : Text
  pub case_sensitive : Bool

-- The simple conditions that stand on one node.
pub record Simple : Type 0 where
  pub app : Text
  pub src : Text
  pub pid : Text
  pub lvl : Text
  pub msg : Option Cond
  pub regex : Text
  pub fields : List (Text × Cond)

-- A node: its simple conditions, its `and` children, its `or` children.
mutual
  pub data Match : Type 0 where
    node : Simple → Matches → Matches → Match

  pub data Matches : Type 0 where
    nil : Matches
    cons : Match → Matches → Matches

pub data MatchError : Type 0 where
  want_one_operator bad_regex empty_condition : MatchError
  unknown_level : Text → MatchError

abbrev pub MatchFunc : Type 0
MatchFunc = Entry → Bool

-- One operator of a condition: its operand and its test of a text against an operand.
pub record Operator : Type 0 where
  pub val : Text
  pub test : Text → Text → Bool

abbrev pub op_if_set : Text → (Text → Text → Bool) → List Operator
op_if_set [] test = []
op_if_set (c ∷ s) test = record { val = c ∷ s; test = test } ∷ []

pub cond_ops : Cond → List Operator
cond_ops c =
    op_if_set c.contains contains
    ++ (op_if_set c.starts has_prefix
        ++ (op_if_set c.ends has_suffix ++ op_if_set c.equals text_eq))

-- `parseLevelStrict`. strings.EqualFold folds all of Unicode, but a name that parsed is ASCII, and
-- no letter of INFO has another form outside ASCII, so the comparison of the model says the same.
unfoldable pub parse_level_strict : Text → Result MatchError Level
parse_level_strict s =
    let l = parse_level s in if equal_fold (level_string l) s then ok l else err (unknown_level s)

-- The closure that runs every predicate, and the one that wants one of them.
pub run_all : List MatchFunc → MatchFunc
run_all [] e = true
run_all (p ∷ ps) e = p e && run_all ps e

pub run_any : List MatchFunc → MatchFunc
run_any [] e = false
run_any (p ∷ ps) e = p e || run_any ps e

abbrev pub pred_if_set : Text → (Entry → Text) → List MatchFunc
pred_if_set [] get = []
pred_if_set (c ∷ s) get = (λ e. text_eq (get e) (c ∷ s)) ∷ []

pub compile_lvl : Text → Result MatchError (List MatchFunc)
unfolding parse_level_strict
compile_lvl [] = ok []
compile_lvl (c ∷ s) = do least ← parse_level_strict (c ∷ s); ok ((λ e. leb least e.lvl) ∷ [])

pub and_pred : List MatchFunc → List MatchFunc
and_pred [] = []
and_pred (k ∷ kids) = run_all (k ∷ kids) ∷ []

pub or_pred : List MatchFunc → List MatchFunc
or_pred [] = []
or_pred (k ∷ kids) = run_any (k ∷ kids) ∷ []

pub conjunction : List MatchFunc → Result MatchError MatchFunc
conjunction [] = err empty_condition
conjunction (p ∷ ps) = ok (run_all (p ∷ ps))

-- The predicates of two parts, in order; the first failure is the result.
pub then_preds :
    Result MatchError (List MatchFunc)
    → Result MatchError (List MatchFunc)
    → Result MatchError (List MatchFunc)
then_preds r q = do ps ← r; qs ← q; ok (ps ++ qs)

-- A field that is absent does not match, whatever the condition.
abbrev pub field_test : (Text → Bool) → Option Text → Bool
field_test f none = false
field_test f (some v) = f v

module _ (go : Platform) where
  open go use {to_lower, compile_re, match_string}

  -- The predicate of the only operator, on lower-cased texts unless the case counts.
  pub cond_test : Operator → Bool → Text → Bool
  cond_test o true s = o.test s o.val
  cond_test o false s = o.test (to_lower s) (to_lower o.val)

  pub compile_ops : List Operator → Bool → Result MatchError (Text → Bool)
  compile_ops [] cs = err want_one_operator
  compile_ops (o ∷ []) cs = ok (cond_test o cs)
  compile_ops (o ∷ (o' ∷ os)) cs = err want_one_operator

  -- `Cond.compile`
  pub compile_cond : Cond → Result MatchError (Text → Bool)
  compile_cond c = compile_ops (cond_ops c) c.case_sensitive

  pub compile_msg : Option Cond → Result MatchError (List MatchFunc)
  compile_msg none = ok []
  compile_msg (some c) = do f ← compile_cond c; ok ((λ e. f e.msg) ∷ [])

  abbrev pub regex_pred : Option go.Re → Result MatchError (List MatchFunc)
  regex_pred none = err bad_regex
  regex_pred (some re) = ok ((λ e. match_string re e.msg) ∷ [])

  pub compile_regex : Text → Result MatchError (List MatchFunc)
  compile_regex [] = ok []
  compile_regex (c ∷ s) = regex_pred (compile_re (c ∷ s))

  pub compile_field : Text → Cond → Result MatchError (List MatchFunc)
  compile_field key c = do f ← compile_cond c; ok ((λ e. field_test f (lookup key e.fields)) ∷ [])

  pub compile_fields : List (Text × Cond) → Result MatchError (List MatchFunc)
  compile_fields [] = ok []
  compile_fields ((key, c) ∷ rest) = then_preds (compile_field key c) (compile_fields rest)

  pub compile_simple : Simple → Result MatchError (List MatchFunc)
  compile_simple c = then_preds (ok (pred_if_set c.app (λ e. e.app))) (
      then_preds (ok (pred_if_set c.src (λ e. e.src))) (
        then_preds (ok (pred_if_set c.pid (λ e. e.pid))) (
          then_preds (compile_lvl c.lvl) (
            then_preds (compile_msg c.msg)
              (then_preds (compile_regex c.regex) (compile_fields c.fields))))))

  unfoldable mutual
    pub compile_match : Match → Result MatchError MatchFunc
    compile_match (node c ands ors) =
        then_preds (compile_simple c) (
          then_preds (compile_matches ands >>= λ kids. ok (and_pred kids))
            (compile_matches ors >>= λ kids. ok (or_pred kids)))
        >>= conjunction

    pub compile_matches : Matches → Result MatchError (List MatchFunc)
    compile_matches nil = ok []
    compile_matches (cons m ms) = do k ← compile_match m; ks ← compile_matches ms; ok (k ∷ ks)
