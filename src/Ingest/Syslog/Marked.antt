-- ===== src/Ingest/Syslog/Marked.antt =====
-- internal/ingest/syslog.go: what every entry made of a message has, whatever the message says.
use logdoc.Common.{
  ℕ, zero, suc, ◌≡◌, ◌≤◌, true, false, Option, none, some, [], ◌∷◌, refl, ◌∙◌, subst, inl, inr,
  Option-cases, if◌then◌else◌, arith, length, ◌/◌, ◌%◌,
}
use logdoc.Common.Text.{Text, bytes, is_empty, text_eq, text_Eq, has_prefix}
use logdoc.Common.Map.{lookup}
use logdoc.Model.{Time, Entry, Fields}
use logdoc.Ingest.Runtime.{Runtime}
use logdoc.Ingest.Marks.{ip_field, IsMarked, ip_field-insert}
use logdoc.Ingest.Syslog.Structured.{param_name, read_params, read_elements, parse_sd}
use logdoc.Ingest.Syslog.Bodies.{
  put_field, set_field, set_time, set_app, set_pid, set_msg, structured_data, parse_5424,
  take_stamp, take_host, tag_pid, split_tag, take_tag, parse_3164,
}
use logdoc.Ingest.Syslog.Tables.{severity_level, facility_name, severity_to_level, get_elem?}
use logdoc.Ingest.Syslog.{
  name_source, raw_entry, decode_message, entry_of_line, entry_from_syslog, remote_fields,
  parse_body, parse_pri, trim_line_end,
}

param_name-other : (id key : Text) → text_eq (param_name id key) (bytes "ip") ≡ false
unfolding param_name text_eq
param_name-other [] key = refl
param_name-other (a ∷ []) key = ground arith
param_name-other (a ∷ b ∷ []) key = ground arith
param_name-other (a ∷ b ∷ c ∷ s) key = ground arith

ip_field-read_params :
    (n : ℕ) (id s : Text) (fields : Fields)
    → ip_field (read_params n id s fields).1 ≡ ip_field fields
unfolding read_params
ip_field-read_params zero id s fields = refl
ip_field-read_params (suc n) id s fields =
    grind (arith, ip_field-read_params n id, ip_field-insert, param_name-other)

ip_field-read_elements :
    (n : ℕ) (s : Text) (fields : Fields) → ip_field (read_elements n s fields).1 ≡ ip_field fields
unfolding read_elements
ip_field-read_elements zero s fields = refl
ip_field-read_elements (suc n) [] fields = refl
ip_field-read_elements (suc n) (c ∷ s) fields =
    grind (arith, ip_field-read_elements n, ip_field-read_params)

module _ (ip : Text) where
  put_field-IsMarked :
      (k v : Text) (e : Entry)
      → text_eq k (bytes "ip") ≡ false
      → IsMarked ip e
      → IsMarked ip (put_field k v e)
  unfolding put_field
  put_field-IsMarked k v e h m = (m.0, m.1, m.2, ip_field-insert k v e.fields h ∙ m.3)

  set_field-IsMarked :
      (k : Text) (tok : Option Text) (e : Entry)
      → text_eq k (bytes "ip") ≡ false
      → IsMarked ip e
      → IsMarked ip (set_field k tok e)
  unfolding set_field
  set_field-IsMarked k none e h m = m
  set_field-IsMarked k (some v) e h m = put_field-IsMarked k v e h m

  set_time-IsMarked :
      (go : Runtime) (tok : Option Text) (e : Entry)
      → IsMarked ip e
      → IsMarked ip (set_time go tok e)
  unfolding set_time
  set_time-IsMarked go none e m = m
  set_time-IsMarked go (some ts) e m = ground arith

  set_app-IsMarked : (tok : Option Text) (e : Entry) → IsMarked ip e → IsMarked ip (set_app tok e)
  unfolding set_app
  set_app-IsMarked none e m = m
  set_app-IsMarked (some v) e m = m

  set_pid-IsMarked : (tok : Option Text) (e : Entry) → IsMarked ip e → IsMarked ip (set_pid tok e)
  unfolding set_pid
  set_pid-IsMarked none e m = m
  set_pid-IsMarked (some v) e m = m

  set_msg-IsMarked : (s : Text) (e : Entry) → IsMarked ip e → IsMarked ip (set_msg s e)
  unfolding set_msg
  set_msg-IsMarked [] e m = m
  set_msg-IsMarked (c ∷ s) e m = (m.0, m.1, refl, m.3)

  structured_data-IsMarked :
      (s : Text) (e : Entry) → IsMarked ip e → IsMarked ip (structured_data s e).1
  unfolding structured_data parse_sd
  structured_data-IsMarked s e m = ground (arith, ip_field-read_elements (length s) s e.fields)

  parse_5424-IsMarked :
      (go : Runtime) (s : Text) (e : Entry) → IsMarked ip e → IsMarked ip (parse_5424 go s e)
  unfolding parse_5424 text_eq
  parse_5424-IsMarked go s e m = set_msg-IsMarked _ _ (
      structured_data-IsMarked _ _ (
        set_field-IsMarked (bytes "msgid") _ _ refl (
          set_pid-IsMarked _ _ (
            set_app-IsMarked _ _
              (set_field-IsMarked (bytes "host") _ _ refl (set_time-IsMarked go _ e m))))))

  take_stamp-IsMarked :
      (go : Runtime) (now : Time) (s : Text) (e : Entry)
      → IsMarked ip e
      → IsMarked ip (take_stamp go now s e).1
  unfolding take_stamp
  take_stamp-IsMarked go now s e m = ground arith

  take_host-IsMarked : (s : Text) (e : Entry) → IsMarked ip e → IsMarked ip (take_host s e).1
  unfolding take_host text_eq
  take_host-IsMarked s e m = grind (arith, put_field-IsMarked (bytes "host"))

  tag_pid-IsMarked : (s : Text) (e : Entry) → IsMarked ip e → IsMarked ip (tag_pid s e)
  unfolding tag_pid
  tag_pid-IsMarked s e m = ground arith

  split_tag-IsMarked : (s : Text) (e : Entry) → IsMarked ip e → IsMarked ip (split_tag s e).1
  unfolding split_tag
  split_tag-IsMarked s e m = grind (arith, tag_pid-IsMarked)

  take_tag-IsMarked : (s : Text) (e : Entry) → IsMarked ip e → IsMarked ip (take_tag s e).1
  unfolding take_tag
  take_tag-IsMarked s e m = grind (arith, split_tag-IsMarked)

  parse_3164-IsMarked :
      (go : Runtime) (now : Time) (s : Text) (e : Entry)
      → IsMarked ip e
      → IsMarked ip (parse_3164 go now s e)
  unfolding parse_3164
  parse_3164-IsMarked go now s e m =
      set_msg-IsMarked _ _
        (take_tag-IsMarked _ _ (take_host-IsMarked _ _ (take_stamp-IsMarked go now s e m)))

  parse_body-IsMarked :
      (go : Runtime) (rest : Text) (now : Time) (e : Entry)
      → IsMarked ip e
      → IsMarked ip (parse_body go rest now e)
  unfolding parse_body
  parse_body-IsMarked go rest now e m =
      grind (arith, parse_5424-IsMarked go, parse_3164-IsMarked go now)

-- The application's name is not empty, and the source starts with "syslog".
abbrev pub IsNamed : Entry → Type 0
IsNamed e = (is_empty e.app ≡ false) × (has_prefix e.src (bytes "syslog") ≡ true)

severity_level-le : (s : ℕ) → severity_level s ≤ 6
unfolding severity_level severity_to_level get_elem?
severity_level-le zero = omega arith
severity_level-le (suc zero) = omega arith
severity_level-le (suc (suc zero)) = omega arith
severity_level-le (suc (suc (suc zero))) = omega arith
severity_level-le (suc (suc (suc (suc zero)))) = omega arith
severity_level-le (suc (suc (suc (suc (suc zero))))) = omega arith
severity_level-le (suc (suc (suc (suc (suc (suc zero)))))) = omega arith
severity_level-le (suc (suc (suc (suc (suc (suc (suc zero))))))) = omega arith
severity_level-le (suc (suc (suc (suc (suc (suc (suc (suc s)))))))) = omega arith

name_source-IsNamed : (fac : Text) (e : Entry) → IsNamed (name_source fac e)
unfolding name_source has_prefix
name_source-IsNamed fac e = ground arith

decode_message-IsMarked :
    (go : Runtime) (rest : Text) (pri : ℕ) (now : Time) (ip : Text) (e : Entry)
    → IsMarked ip e
    → IsMarked ip (decode_message go rest pri now e) × IsNamed (decode_message go rest pri now e)
unfolding decode_message name_source text_eq
decode_message-IsMarked go rest pri now ip e m =
    let fac = facility_name (pri / 8) in
    let e₁ = record e { lvl = severity_level (pri % 8) } in
    let m₁ : IsMarked ip e₁ = (m.0, severity_level-le (pri % 8), m.2, m.3) in
    let e₂ = put_field (bytes "facility") fac e₁ in
    let m₂ =
      parse_body-IsMarked ip go rest now e₂
        (put_field-IsMarked ip (bytes "facility") fac e₁ refl m₁) in
    ((m₂.0, m₂.1, m₂.2, m₂.3), name_source-IsNamed fac (parse_body go rest now e₂))

raw_entry-IsMarked :
    (line ip : Text) (now : Time) → is_empty line ≡ false → IsMarked ip (raw_entry line ip now)
unfolding raw_entry remote_fields lookup text_eq
raw_entry-IsMarked line [] now h = (refl, omega arith, h, refl)
raw_entry-IsMarked line (c ∷ ip) now h = (refl, omega arith, h, refl)

entry_of_line-IsMarked :
    (go : Runtime) (line ip : Text) (now : Time)
    → is_empty line ≡ false
    → IsMarked ip (entry_of_line go line ip now) × IsNamed (entry_of_line go line ip now)
unfolding raw_entry has_prefix entry_of_line lookup
entry_of_line-IsMarked go line ip now h = elim (Option-cases (parse_pri line)) [
  | inl e ↦ rw (entry_of_line, e) (raw_entry-IsMarked line ip now h, (refl, refl))
  | inr (p, e) ↦
      rw (entry_of_line, e)
        (decode_message-IsMarked go p.0 p.1 now ip (raw_entry line ip now)
          (raw_entry-IsMarked line ip now h))
]

-- Whatever a message says, the entry that is made of it is for the default tenant, has one of the
-- seven levels, a message, an application and a source "syslog...", and its field "ip" is the
-- address of the sender, and missing if that is unknown; given that an empty text stays empty when
-- its spaces are trimmed.
pub entry_from_syslog-IsMarked :
    (go : Runtime) (line ip : Text) (now : Time) {e : Entry}
    → is_empty (go.trim_space []) ≡ true
    → entry_from_syslog go line ip now ≡ some e
    → IsMarked ip e × IsNamed e
unfolding entry_from_syslog
entry_from_syslog-IsMarked go line ip now {e} blank h = of (trim_line_end line) h
  where
    of :
        (l : Text)
        → (if is_empty (go.trim_space l) then none else some (entry_of_line go l ip now)) ≡ some e
        → IsMarked ip e × IsNamed e
    of [] p = absurd (cc (blank, p))
    of (c ∷ l) p =
        let q : entry_of_line go (c ∷ l) ip now ≡ e = ground arith in
        subst (λ (x : Entry). IsMarked ip x × IsNamed x) q
          (entry_of_line-IsMarked go (c ∷ l) ip now refl)
