-- ===== src/Notify/Match/Meaning/Nodes.antt =====
-- internal/notify/match.go: what the compiled predicates of one node answer.
use logdoc.Common.{
  fun_ext, ◌≡◌, refl, ap, ◌∙◌, Bool, true, false, ◌&&◌, Option, none, some, List, [], ◌∷◌, ◌++◌,
  leb, if◌then◌else◌, Result, ok, err, ◌>>=◌, arith,
}
use logdoc.Common.Text.{Text, is_empty, text_eq, text_Eq}
use logdoc.Common.Map.{lookup}
use logdoc.Common.Platform.{Platform}
use logdoc.Model.{parse_level, Entry}
use logdoc.Model.Levels.{is_level_name, print_parse_level}
use logdoc.Notify.Match.{
  Cond, Simple, MatchError, MatchFunc, cond_ops, run_all, pred_if_set, compile_lvl, cond_test,
  compile_ops, compile_cond, compile_msg, compile_regex, field_test, compile_field, compile_fields,
  compile_simple, then_preds,
}
use logdoc.Notify.Match.Meaning.{
  unless_empty, one_operator, is_none, is_null, is_blank, holds_cond, valid_msg, holds_msg,
  valid_re, holds_re, valid_fields, holds_fields, valid_simple, holds_simple,
}

-- What a list of predicates, or its failure, says of an entry: the conjunction, and if it is empty.
abbrev pub Report : Type 0
Report = Option (Bool × Bool)

abbrev pub report : Bool → Bool → Bool → Report
report v h n = if v then some (h, n) else none

abbrev and_reports : Report → Report → Report
and_reports (some (h, n)) (some (k, m)) = some (h && k, n && m)
and_reports _ _ = none

abbrev pub preds_view : Entry → Result MatchError (List MatchFunc) → Report
preds_view e (ok ps) = some (run_all ps e, is_null ps)
preds_view e (err x) = none

-- The answer of a compiled condition.
abbrev pub answer : Entry → Result MatchError MatchFunc → Option Bool
answer e (ok f) = some (f e)
answer e (err x) = none

run_all-append :
    (ps qs : List MatchFunc) (e : Entry) → run_all (ps ++ qs) e ≡ (run_all ps e && run_all qs e)
unfolding run_all
run_all-append [] qs e = refl
run_all-append (p ∷ ps) qs e = ground (arith, run_all-append ps qs e)

is_null-append : (ps qs : List MatchFunc) → is_null (ps ++ qs) ≡ (is_null ps && is_null qs)
is_null-append [] qs = refl
is_null-append (p ∷ ps) qs = refl

pub preds_view-then_preds :
    (r q : Result MatchError (List MatchFunc)) (e : Entry)
    → preds_view e (then_preds r q) ≡ and_reports (preds_view e r) (preds_view e q)
unfolding then_preds
preds_view-then_preds (ok ps) (ok qs) e =
    ground (arith, run_all-append ps qs e, is_null-append ps qs)
preds_view-then_preds (ok ps) (err x) e = refl
preds_view-then_preds (err x) q e = refl

pub and_reports-report :
    (v h n w k m : Bool)
    → and_reports (report v h n) (report w k m) ≡ report (v && w) (h && k) (n && m)
and_reports-report true h n true k m = refl
and_reports-report true h n false k m = refl
and_reports-report false h n w k m = refl

pred_if_set-report :
    (t : Text) (get : Entry → Text) (e : Entry)
    → preds_view e (ok (pred_if_set t get))
      ≡ report true (unless_empty t (text_eq (get e) t)) (is_empty t)
unfolding run_all
pred_if_set-report [] get e = refl
pred_if_set-report (c ∷ s) get e = ground arith

-- The outcome of compiling one comparison, put to an entry by `use_test`.
abbrev cond_view : ((Text → Bool) → Bool) → Result MatchError (Text → Bool) → Option Bool
cond_view use_test (ok f) = some (use_test f)
cond_view use_test (err x) = none

some_eq : {a b : Bool} → some a ≡ some b → a ≡ b
some_eq p = cc

-- What is known at each text is known of every use.
cond_view_pointwise :
    (use_test : (Text → Bool) → Bool) (r : Result MatchError (Text → Bool)) (v : Bool)
    (h : Text → Bool)
    → ((s : Text) → cond_view (λ f. f s) r ≡ (if v then some (h s) else none))
    → cond_view use_test r ≡ (if v then some (use_test h) else none)
cond_view_pointwise use_test (ok f) true h p =
    ap (λ g. some (use_test g)) (fun_ext (λ s. some_eq (p s)))
cond_view_pointwise use_test (ok f) false h p = cc (p [])
cond_view_pointwise use_test (err x) true h p = cc (p [])
cond_view_pointwise use_test (err x) false h p = refl

single : Option Bool → Report
single none = none
single (some b) = some (b, false)

single-pred :
    (use_test : (Text → Bool) → Entry → Bool) (r : Result MatchError (Text → Bool)) (e : Entry)
    → preds_view e (r >>= λ f. ok (use_test f ∷ [])) ≡ single (cond_view (λ f. use_test f e) r)
unfolding run_all single
single-pred use_test (ok f) e = ground arith
single-pred use_test (err x) e = refl

single_if : (v h : Bool) → single (if v then some h else none) ≡ report v h false
unfolding single
single_if true h = refl
single_if false h = refl

compile_lvl-report :
    (t : Text) (e : Entry)
    → preds_view e (compile_lvl t)
      ≡ report
          (unless_empty t (is_level_name t))
          (unless_empty t (leb (parse_level t) e.lvl))
          (is_empty t)
unfolding compile_lvl run_all
compile_lvl-report [] e = refl
compile_lvl-report (c ∷ s) e = ground (arith, print_parse_level (c ∷ s))

module _ (go : Platform) where
  open go use {to_lower, compile_re, match_string}

  compile_cond-at :
      (c : Cond) (s : Text)
      → cond_view (λ f. f s) (compile_cond go c)
        ≡ (if one_operator c then some (holds_cond go c s) else none)
  unfolding compile_cond compile_ops cond_ops cond_test holds_cond
  compile_cond-at c s = ground arith

  compile_cond-view :
      (use_test : (Text → Bool) → Bool) (c : Cond)
      → cond_view use_test (compile_cond go c)
        ≡ (if one_operator c then some (use_test (holds_cond go c)) else none)
  compile_cond-view use_test c =
      cond_view_pointwise use_test (compile_cond go c) (one_operator c) (holds_cond go c)
        (compile_cond-at c)

  compile_msg-report :
      (m : Option Cond) (e : Entry)
      → preds_view e (compile_msg go m) ≡ report (valid_msg go m) (holds_msg go m e.msg) (is_none m)
  unfolding compile_msg run_all holds_msg
  compile_msg-report none e = refl
  compile_msg-report (some c) e =
      single-pred (λ f e'. f e'.msg) (compile_cond go c) e
      ∙ ap single (compile_cond-view (λ f. f e.msg) c)
      ∙ single_if (one_operator c) (holds_cond go c e.msg)

  compile_regex-report :
      (t : Text) (e : Entry)
      → preds_view e (compile_regex go t)
        ≡ report
            (unless_empty t (valid_re go (compile_re t)))
            (unless_empty t (holds_re go (compile_re t) e.msg))
            (is_empty t)
  unfolding compile_regex run_all
  compile_regex-report [] e = refl
  compile_regex-report (c ∷ s) e = ground arith

  compile_field-report :
      (key : Text) (c : Cond) (e : Entry)
      → preds_view e (compile_field go key c)
        ≡ report (one_operator c) (field_test (holds_cond go c) (lookup key e.fields)) false
  unfolding compile_field
  compile_field-report key c e =
      single-pred (λ f e'. field_test f (lookup key e'.fields)) (compile_cond go c) e
      ∙ ap single (compile_cond-view (λ f. field_test f (lookup key e.fields)) c)
      ∙ single_if (one_operator c) (field_test (holds_cond go c) (lookup key e.fields))

  compile_fields-report :
      (fs : List (Text × Cond)) (e : Entry)
      → preds_view e (compile_fields go fs)
        ≡ report (valid_fields go fs) (holds_fields go fs e) (is_null fs)
  unfolding compile_fields holds_fields
  compile_fields-report [] e = unfold run_all in refl
  compile_fields-report ((key, c) ∷ rest) e = simp (
    preds_view-then_preds,
    compile_field-report key c e,
    compile_fields-report rest e,
    and_reports-report,
  )

  pub compile_simple-report :
      (c : Simple) (e : Entry)
      → preds_view e (compile_simple go c)
        ≡ report (valid_simple go c) (holds_simple go c e) (is_blank c)
  unfolding compile_simple valid_simple holds_simple
  compile_simple-report c e = simp (
    preds_view-then_preds, pred_if_set-report, compile_lvl-report, compile_msg-report,
    compile_regex-report, compile_fields-report, and_reports-report,
  )
