-- ===== src/Ingest/Marks.antt =====
-- internal/ingest: what the entries of a decoder have in common.
use logdoc.Common.{[], ◌≡◌, ◌≤◌, false, Option, none, some, refl, if◌then◌else◌}
use logdoc.Common.Text.{Text, bytes, is_empty, text_eq, text_Eq}
use logdoc.Common.Map.{lookup, insert, lookup-insert}
use logdoc.Model.{Entry, Fields, default_tenant}

-- The address under which the fields name the sender, if it is known.
abbrev pub sender : Text → Option Text
sender ip = if is_empty ip then none else some ip

abbrev pub ip_field : Fields → Option Text
ip_field = lookup (bytes "ip")

abbrev pub IsMarked : Text → Entry → Type 0
IsMarked ip e =
    (e.tenant_id ≡ default_tenant)
    × (e.lvl ≤ 6)
    × (is_empty e.msg ≡ false)
    × (ip_field e.fields ≡ sender ip)

pub ip_field-insert :
    (k v : Text) (fields : Fields)
    → text_eq k (bytes "ip") ≡ false
    → ip_field (insert k v fields) ≡ ip_field fields
ip_field-insert k v fields h = rw (lookup-insert k (bytes "ip") v fields, h) refl

-- `m[k]`: the value of a key, which is empty where there is none.
unfoldable pub value_of : Text → Fields → Text
value_of k fields = elim (lookup k fields) [ none ↦ [] | some v ↦ v ]
