-- ===== src/Ingest/Servers/Atomic.antt =====
-- internal/ingest/http.go: a request is taken as a whole or not at all.
use logdoc.Common.{
  ℕ, suc, ◌+◌, ◌≡◌, Option, none, some, List, [], ◌∷◌, map, length, refl, ◌∙◌, ap, Bool-cases, inl,
  inr, Result, ok, err, ◌>>=◌, if◌then◌else◌,
}
use logdoc.Common.Text.{Text, is_empty}
use logdoc.Common.Int.{ℤ}
use logdoc.Model.{Time, Entry}
use logdoc.Ingest.Servers.{
  JsonRecord, BadRequest, msg_required, Reply, accepted, rejected, record_entry, entries_of, answer,
  handle_records, handle_ingest, body_limit,
}

-- The number of the first record without a message.
abbrev pub first_missing : ℕ → List JsonRecord → Option ℕ
first_missing i [] = none
first_missing i (rec ∷ recs) =
    let rest = first_missing (i + 1) recs in if is_empty rec.msg then some i else rest

-- What a list of records is answered with: all its entries, or an error.
abbrev pub taken : Time → List JsonRecord → Option ℕ → Result BadRequest (List Entry)
taken now recs none = ok (map (record_entry now) recs)
taken now recs (some i) = err (msg_required i)

entries_of-taken :
    (now : Time) (i : ℕ) (recs : List JsonRecord)
    → entries_of now i recs ≡ taken now recs (first_missing i recs)
unfolding entries_of
entries_of-taken now i [] = refl
entries_of-taken now i (rec ∷ recs) = elim (Bool-cases (is_empty rec.msg)) [
  | inl e ↦ rw e refl
  | inr e ↦ rw e (
      ap (λ (r : Result BadRequest (List Entry)). r >>= (λ es. ok (record_entry now rec ∷ es)))
        (entries_of-taken now (i + 1) recs)
      ∙ later (first_missing (i + 1) recs))
]
  where
    later :
        (o : Option ℕ)
        → (taken now recs o >>= (λ es. ok (record_entry now rec ∷ es))) ≡ taken now (rec ∷ recs) o
    later none = refl
    later (some j) = refl

-- The reply to the records of a request, and what is appended.
abbrev pub reply_to : Time → List JsonRecord → Option ℕ → Reply × List Entry
reply_to now recs none = (accepted (length recs), map (record_entry now) recs)
reply_to now recs (some i) = (rejected (msg_required i), [])

length-map :
    (now : Time) (recs : List JsonRecord) → length (map (record_entry now) recs) ≡ length recs
length-map now [] = refl
length-map now (rec ∷ recs) = ap suc (length-map now recs)

answer-taken :
    (now : Time) (recs : List JsonRecord) (o : Option ℕ)
    → answer (taken now recs o) ≡ reply_to now recs o
unfolding answer
answer-taken now recs none =
    ap (λ n. (accepted n, map (record_entry now) recs)) (length-map now recs)
answer-taken now recs (some i) = refl

-- A request whose body decodes to some records is accepted if each has a message: then the entries of
-- all of them are appended, in their order, and their number is the answer. Otherwise it is rejected
-- with the number of the first record without a message, and nothing is appended.
pub handle_ingest-reply_to :
    (decode : ℕ → Text → Option (List JsonRecord)) (max_body_bytes : ℤ) (now : Time) (body : Text)
    (rec : JsonRecord) (recs : List JsonRecord)
    → decode (body_limit max_body_bytes) body ≡ some (rec ∷ recs)
    → handle_ingest decode max_body_bytes now body
      ≡ reply_to now (rec ∷ recs) (first_missing 0 (rec ∷ recs))
unfolding handle_ingest handle_records
handle_ingest-reply_to decode max_body_bytes now body rec recs h =
    ap (handle_records now) h
    ∙ ap answer (entries_of-taken now 0 (rec ∷ recs))
    ∙ answer-taken now (rec ∷ recs) (first_missing 0 (rec ∷ recs))
