-- ===== src/Pipeline/Steps/Cap.antt =====
-- internal/pipeline/steps.go: how many fields a JSON message can add.
use logdoc.Common.{ℕ, ◌+◌, ◌≤◌, ◌∷◌, ◌++◌, arith, length, Option-cases, inl, inr, max}
use logdoc.Common.Text.{Text, text_Eq}
use logdoc.Common.Map.{lookup, insert, length-insert_new, length-insert_old}
use logdoc.Common.Platform.{Platform}
use logdoc.Model.{Fields}
use logdoc.Pipeline.Steps.{
  Json, null, string, number, bool, object, array, Members, no_member, member, Tools, put, flatten,
  flatten_members, max_json_fields,
}

length-insert_le : (k v : Text) (m : Fields) → length (insert k v m) ≤ length m + 1
length-insert_le k v m = elim (Option-cases (lookup k m)) [
  | inl e ↦ omega (arith, length-insert_new k v m e)
  | inr (w, e) ↦ omega (arith, length-insert_old k v w m e)
]

-- The fields are at most 100, or no more than there were.
abbrev pub Capped : Fields → Fields → Type 0
Capped out out' = length out' ≤ max (length out) max_json_fields

put-Capped : (k s : Text) (out : Fields) → Capped out (put k s out)
unfolding put
put-Capped k s out = ground (arith, length-insert_le k s out)

module _ {go : Platform} (tools : Tools go) where
  mutual
    unfolding flatten

    flatten-Capped_any :
        (key : Text) (v : Json) (out : Fields) (depth : ℕ)
        → Capped out (flatten tools key v out depth)
    flatten-Capped_any key null out depth = omega arith
    flatten-Capped_any key (string s) out depth = put-Capped key s out
    flatten-Capped_any key (number s) out depth = put-Capped key s out
    flatten-Capped_any key (bool b) out depth = put-Capped key _ out
    flatten-Capped_any key (array es) out depth = put-Capped key _ out
    flatten-Capped_any key (object ms) out depth = ground (
      arith,
      put-Capped key (tools.marshal (object ms)) out,
      flatten_members-Capped key ms out (depth + 1),
    )

    flatten_members-Capped :
        (key : Text) (ms : Members) (out : Fields) (depth : ℕ)
        → Capped out (flatten_members tools key ms out depth)
    flatten_members-Capped key no_member out depth = omega arith
    flatten_members-Capped key (member k v ms) out depth = omega (
      arith,
      flatten-Capped_any (key ++ (b'.' ∷ k)) v out depth,
      flatten_members-Capped key ms (flatten tools (key ++ (b'.' ∷ k)) v out depth) depth,
    )

-- However large or deep a JSON value is, flattening it takes the fields to at most 100, or leaves no
-- more than there were.
pub flatten-Capped :
    {go : Platform} (tools : Tools go) (key : Text) (v : Json) (out : Fields) (depth : ℕ)
    → Capped out (flatten tools key v out depth)
flatten-Capped tools key v out depth = flatten-Capped_any tools key v out depth
