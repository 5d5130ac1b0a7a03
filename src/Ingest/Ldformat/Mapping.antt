-- ===== src/Ingest/Ldformat/Mapping.antt =====
-- internal/ingest/ldformat.go: an ld_format event as an entry.
use logdoc.Common.{
  ℕ, ◌≡◌, ◌≤◌, ◌+◌, ◌-◌, ◌*◌, Bool, false, ◌&&◌, Option, none, some, List, [], ◌∷◌, leb, ◌==◌,
  if◌then◌else◌, any, length, take, drop, refl, subst, ◌∙◌, arith, Bool-cases, Option-cases, inl,
  inr,
}
use logdoc.Common.Text.{Text, bytes, is_empty, text_eq, text_eq_iff, text_Eq}
use logdoc.Common.Map.{lookup, insert, lookup-insert}
use logdoc.Common.Int.{ℤ, pos, negsuc}
use logdoc.Common.Decimal.{atoi}
use logdoc.Model.{Level, Time, Entry, Fields, default_tenant, parse_level}
use logdoc.Model.Levels.{parse_level-le}
use logdoc.Ingest.Runtime.{Runtime}
use logdoc.Ingest.Marks.{value_of, sender, ip_field, IsMarked, ip_field-insert}

-- A time and milliseconds.
unfoldable pub add_millis : Time → ℤ → Time
add_millis t (pos n) = t + n * 1000000
add_millis t (negsuc n) = t - (n + 1) * 1000000

-- yyMMddHHmmssSSS
unfoldable pub spec_time : Runtime → Text → Option Time
unfolding add_millis
spec_time go s =
    if length s == 15
    then (elim (go.parse_seconds (take 12 s)) [
      | none ↦ none
      | some t ↦ elim (atoi (drop 12 s)) [ none ↦ none | some ms ↦ some (add_millis t ms) ]
    ])
    else none

unfoldable pub parse_tsrc : Runtime → Text → Option Time
unfolding spec_time
parse_tsrc go s = elim (spec_time go s) [ some t ↦ some t | none ↦ go.parse_appender s ]

-- One digit from 0 to 6.
unfoldable pub level_digit : Text → Option Level
level_digit [] = none
level_digit (c ∷ []) = if leb b'0' c && leb c b'6' then some (c - b'0') else none
level_digit (c ∷ d ∷ s) = none

-- The further names, in upper case.
unfoldable pub alias : Text → Option Level
alias s =
    if text_eq s (bytes "WARNING")
    then some 3
    else if text_eq s (bytes "FATAL")
    then some 5
    else if text_eq s (bytes "TRACE")
    then some 0
    else none

unfoldable pub named_level : Runtime → Text → Level
unfolding alias
named_level go s = elim (alias (go.to_upper s)) [ some l ↦ l | none ↦ parse_level s ]

unfoldable pub parse_ld_level : Runtime → Text → Level
unfolding level_digit named_level
parse_ld_level go raw =
    let s = go.trim_space raw in
    if is_empty s then 1 else (elim (level_digit s) [ some l ↦ l | none ↦ named_level go s ])

unfoldable pub reserved_keys : List Text
reserved_keys =
    bytes "msg"
    ∷ bytes "app"
    ∷ bytes "src"
    ∷ bytes "pid"
    ∷ bytes "lvl"
    ∷ bytes "tsrc"
    ∷ bytes "trcv"
    ∷ bytes "ip"
    ∷ []

unfoldable pub is_reserved : Text → Bool
unfolding reserved_keys
is_reserved k = any (λ r. text_eq r k) reserved_keys

-- The loop over the pairs.
unfoldable pub copy_pairs : Fields → Fields → Fields
unfolding is_reserved
copy_pairs [] fields = fields
copy_pairs ((k, v) ∷ rest) fields =
    copy_pairs rest (if is_reserved k then fields else insert k v fields)

unfoldable pub add_ip : Text → Fields → Fields
add_ip ip fields = if is_empty ip then fields else insert (bytes "ip") ip fields

unfoldable pub event_time : Runtime → Fields → Time → Time
event_time go ev now = elim (lookup (bytes "tsrc") ev) [
  | none ↦ now
  | some raw ↦ elim (parse_tsrc go (go.trim_space raw)) [ none ↦ now | some t ↦ t ]
]

unfoldable pub entry_of : Runtime → Fields → Text → Text → Time → Entry
unfolding parse_ld_level copy_pairs add_ip
entry_of go ev msg ip now = record {
  tenant_id = default_tenant;
  ts = event_time go ev now;
  app = value_of (bytes "app") ev;
  src = go.trim_space (value_of (bytes "src") ev);
  lvl = parse_ld_level go (value_of (bytes "lvl") ev);
  pid = go.trim_space (value_of (bytes "pid") ev);
  msg = msg;
  fields = add_ip ip (copy_pairs ev []);
}

-- None without a message.
unfoldable pub entry_from_ld : Runtime → Fields → Text → Time → Option Entry
unfolding entry_of
entry_from_ld go ev ip now =
    let msg = value_of (bytes "msg") ev in
    if is_empty msg then none else some (entry_of go ev msg ip now)

level_digit-le : (s : Text) {l : Level} → level_digit s ≡ some l → l ≤ 6
unfolding level_digit
level_digit-le [] {l} h = absurd (cc h)
level_digit-le (c ∷ []) {l} h = ground arith
level_digit-le (c ∷ d ∷ s) {l} h = absurd (cc h)

named_level-le : (go : Runtime) (s : Text) → named_level go s ≤ 6
unfolding named_level alias
named_level-le go s = ground (arith, parse_level-le s)

parse_ld_level-le : (go : Runtime) (raw : Text) → parse_ld_level go raw ≤ 6
unfolding parse_ld_level
parse_ld_level-le go raw = elim (Option-cases (level_digit (go.trim_space raw))) [
  | inl e ↦ ground (arith, named_level-le go (go.trim_space raw))
  | inr (l, e) ↦ ground (arith, level_digit-le (go.trim_space raw) {l = l} e)
]

not_ip : (k : Text) → is_reserved k ≡ false → text_eq k (bytes "ip") ≡ false
unfolding is_reserved reserved_keys
not_ip k h = ground (arith, text_eq_iff k (bytes "ip"), text_eq_iff (bytes "ip") k)

ip_field-copy_pairs : (ev fields : Fields) → ip_field (copy_pairs ev fields) ≡ ip_field fields
unfolding copy_pairs
ip_field-copy_pairs [] fields = refl
ip_field-copy_pairs ((k, v) ∷ rest) fields = elim (Bool-cases (is_reserved k)) [
  | inl e ↦ rw e (ip_field-copy_pairs rest fields)
  | inr e ↦
      rw e (ip_field-copy_pairs rest (insert k v fields) ∙ ip_field-insert k v fields (not_ip k e))
]

ip_field-add_ip :
    (ip : Text) (fields : Fields) → ip_field fields ≡ none → ip_field (add_ip ip fields) ≡ sender ip
unfolding add_ip
ip_field-add_ip [] fields h = h
ip_field-add_ip (c ∷ ip) fields h = ground (
  arith,
  lookup-insert (bytes "ip") (bytes "ip") (c ∷ ip) fields,
  text_eq_iff (bytes "ip") (bytes "ip"),
)

entry_of-IsMarked :
    (go : Runtime) (ev : Fields) (c : ℕ) (msg ip : Text) (now : Time)
    → IsMarked ip (entry_of go ev (c ∷ msg) ip now)
unfolding entry_of lookup
entry_of-IsMarked go ev c msg ip now = (
  refl,
  parse_ld_level-le go (value_of (bytes "lvl") ev),
  refl,
  ip_field-add_ip ip (copy_pairs ev []) (ip_field-copy_pairs ev []),
)

-- Whatever an event says, the entry made of it is for the default tenant, has one of the seven levels
-- and a message, and its field "ip" is the address of the sender, and missing if that is unknown.
pub entry_from_ld-IsMarked :
    (go : Runtime) (ev : Fields) (ip : Text) (now : Time) {e : Entry}
    → entry_from_ld go ev ip now ≡ some e
    → IsMarked ip e
unfolding entry_from_ld
entry_from_ld-IsMarked go ev ip now {e} h = of (value_of (bytes "msg") ev) h
  where
    of :
        (msg : Text)
        → (if is_empty msg then none else some (entry_of go ev msg ip now)) ≡ some e
        → IsMarked ip e
    of [] p = absurd (cc p)
    of (c ∷ msg) p =
        let q : entry_of go ev (c ∷ msg) ip now ≡ e = ground arith in
        subst (λ (x : Entry). IsMarked ip x) q (entry_of-IsMarked go ev c msg ip now)
