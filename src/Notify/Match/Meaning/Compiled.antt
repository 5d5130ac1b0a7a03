-- ===== src/Notify/Match/Meaning/Compiled.antt =====
-- internal/notify/match.go: the compiled predicate of a whole tree answers what the tree means.
use logdoc.Common.{
  ◌≡◌, refl, Bool, true, false, not, ◌&&◌, ◌||◌, Option, none, some, List, [], ◌∷◌, if◌then◌else◌,
  Result, ok, err, ◌>>=◌, arith,
}
use logdoc.Common.Text.{text_Eq}
use logdoc.Common.Platform.{Platform}
use logdoc.Model.{Entry}
use logdoc.Notify.Match.{
  Simple, Match, Matches, node, nil, cons, MatchError, MatchFunc, run_all, run_any, and_pred,
  or_pred, conjunction, compile_match, compile_matches,
}
use logdoc.Notify.Match.Meaning.{is_nil, is_null, valid, valid_all, holds, all_hold, any_holds}
use logdoc.Notify.Match.Meaning.Nodes.{
  Report, report, preds_view, answer, preds_view-then_preds, and_reports-report,
  compile_simple-report,
}

module _ (go : Platform) where
  -- What a list of compiled children says: all hold, one holds, there is none.
  abbrev Kids : Type 0
  Kids = Option (Bool × Bool × Bool)

  abbrev kids_view : Entry → Result MatchError (List MatchFunc) → Kids
  kids_view e (ok ks) = some (run_all ks e, run_any ks e, is_null ks)
  kids_view e (err x) = none

  and_view : Kids → Report
  and_view none = none
  and_view (some (a, o, n)) = some (a, n)

  or_view : Kids → Report
  or_view none = none
  or_view (some (a, o, n)) = some (n || o, n)

  and_pred-view :
      (r : Result MatchError (List MatchFunc)) (e : Entry)
      → preds_view e (r >>= λ kids. ok (and_pred kids)) ≡ and_view (kids_view e r)
  unfolding and_pred run_all and_view
  and_pred-view (ok []) e = refl
  and_pred-view (ok (k ∷ ks)) e = ground arith
  and_pred-view (err x) e = refl

  or_pred-view :
      (r : Result MatchError (List MatchFunc)) (e : Entry)
      → preds_view e (r >>= λ kids. ok (or_pred kids)) ≡ or_view (kids_view e r)
  unfolding or_pred run_all run_any or_view
  or_pred-view (ok []) e = refl
  or_pred-view (ok (k ∷ ks)) e = ground arith
  or_pred-view (err x) e = refl

  kids_report : Bool → Bool → Bool → Bool → Kids
  kids_report v a o n = if v then some (a, o, n) else none

  and_view-kids : (v a o n : Bool) → and_view (kids_report v a o n) ≡ report v a n
  unfolding and_view kids_report
  and_view-kids true a o n = refl
  and_view-kids false a o n = refl

  or_view-kids : (v a o n : Bool) → or_view (kids_report v a o n) ≡ report v (n || o) n
  unfolding or_view kids_report
  or_view-kids true a o n = refl
  or_view-kids false a o n = refl

  conclude : Report → Option Bool
  conclude none = none
  conclude (some (h, n)) = if n then none else some h

  conjunction-view :
      (r : Result MatchError (List MatchFunc)) (e : Entry)
      → answer e (r >>= conjunction) ≡ conclude (preds_view e r)
  unfolding conjunction run_all conclude
  conjunction-view (ok []) e = refl
  conjunction-view (ok (p ∷ ps)) e = refl
  conjunction-view (err x) e = refl

  conclude-report : (v h n : Bool) → conclude (report v h n) ≡ (if v && not n then some h else none)
  unfolding conclude
  conclude-report v h n = ground arith

  cons-view :
      (r : Result MatchError MatchFunc) (q : Result MatchError (List MatchFunc)) (e : Entry)
      (v h w a o n : Bool)
      → answer e r ≡ (if v then some h else none)
      → kids_view e q ≡ kids_report w a o n
      → kids_view e (r >>= λ k. q >>= λ ks. ok (k ∷ ks))
        ≡ kids_report (v && w) (h && a) (h || o) false
  unfolding kids_report run_all run_any
  cons-view (ok f) (ok ks) e v h w a o n p q = ground arith
  cons-view (ok f) (err x) e v h w a o n p q = ground arith
  cons-view (err x) q e v h w a o n p q' = ground arith

  node-answer :
      (c : Simple) (ands ors : Matches) (e : Entry)
      → kids_view e (compile_matches go ands)
        ≡ kids_report (valid_all go ands) (all_hold go ands e) (any_holds go ands e) (is_nil ands)
      → kids_view e (compile_matches go ors)
        ≡ kids_report (valid_all go ors) (all_hold go ors e) (any_holds go ors e) (is_nil ors)
      → answer e (compile_match go (node c ands ors))
        ≡ (if valid go (node c ands ors) then some (holds go (node c ands ors) e) else none)
  unfolding compile_match valid holds
  node-answer c ands ors e p q = simp (
    conjunction-view, preds_view-then_preds, compile_simple-report, and_pred-view, or_pred-view, p,
    q, and_view-kids, or_view-kids, and_reports-report, conclude-report,
  )

  nil-view :
      (e : Entry)
      → kids_view e (compile_matches go nil)
        ≡ kids_report (valid_all go nil) (all_hold go nil e) (any_holds go nil e) true
  unfolding compile_match valid holds run_all run_any kids_report
  nil-view e = refl

  cons_step :
      (m : Match) (ms : Matches) (e : Entry)
      → answer e (compile_match go m) ≡ (if valid go m then some (holds go m e) else none)
      → kids_view e (compile_matches go ms)
        ≡ kids_report (valid_all go ms) (all_hold go ms e) (any_holds go ms e) (is_nil ms)
      → kids_view e (compile_matches go (cons m ms))
        ≡ kids_report
            (valid_all go (cons m ms))
            (all_hold go (cons m ms) e)
            (any_holds go (cons m ms) e)
            false
  unfolding compile_match valid holds
  cons_step m ms e p q =
      cons-view (compile_match go m) (compile_matches go ms) e (valid go m) (holds go m e)
        (valid_all go ms) (all_hold go ms e) (any_holds go ms e) (is_nil ms) p q

  mutual
    compile_match-answer :
        (m : Match) (e : Entry)
        → answer e (compile_match go m) ≡ (if valid go m then some (holds go m e) else none)
    compile_match-answer (node c ands ors) e =
        node-answer c ands ors e (compile_matches-view ands e) (compile_matches-view ors e)

    compile_matches-view :
        (ms : Matches) (e : Entry)
        → kids_view e (compile_matches go ms)
          ≡ kids_report (valid_all go ms) (all_hold go ms e) (any_holds go ms e) (is_nil ms)
    compile_matches-view nil e = nil-view e
    compile_matches-view (cons m ms) e =
        cons_step m ms e (compile_match-answer m e) (compile_matches-view ms e)

-- Compilation succeeds exactly for the valid trees, and the predicate that it gives answers every
-- entry as the tree means it.
pub compile_match-holds :
    (go : Platform) (m : Match) (e : Entry)
    → answer e (compile_match go m) ≡ (if valid go m then some (holds go m e) else none)
compile_match-holds go m e = compile_match-answer go m e
