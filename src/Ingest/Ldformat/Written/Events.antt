-- ===== src/Ingest/Ldformat/Written/Events.antt =====
-- internal/ingest/ldformat.go: how written pairs and events are read.
use logdoc.Common.{
  ℕ, zero, suc, ◌≡◌, ◌≤◌, ◌<◌, ◌+◌, ◌-◌, false, none, List, [], ◌∷◌, ◌++◌, refl, ◌∙◌, ap, arith,
  length, length-append, ok, is_null, map, All,
}
use logdoc.Common.Text.{Text, text_Eq}
use logdoc.Common.Map.{insert}
use logdoc.Model.{Fields}
use logdoc.Ingest.Ldformat.Progress.{read_events_enough}
use logdoc.Ingest.Ldformat.{
  Pair, pair, read_pair, has_header, skip_header, Parsed, parsed, read_pairs, parse_ld_event,
  Stream, emit, unless_failed, read_events, parse_ld_stream,
}
use logdoc.Ingest.Ldformat.Written.{
  text, binary, Item, four_bytes, write_item, write_items, write_events, put_item, put_items, IsKey,
  IsItem, IsEvent, no_header, read_pair-write_item,
}

-- What a pair starts with is neither a newline nor a header.
read_pairs_first :
    (n : ℕ) (c : ℕ) (s : Text) (ev : Fields) {p : Pair}
    → 32 ≤ c
    → read_pair (c ∷ s) ≡ ok p
    → read_pairs (suc n) (c ∷ s) ev ≡ read_pairs n p.rest (insert p.key p.value ev)
unfolding read_pairs
read_pairs_first n c s ev {p} h e = ground (arith, no_header c s h)

read_pairs_key :
    (n : ℕ) (k s : Text) (ev : Fields) {p : Pair}
    → IsKey k
    → read_pair (k ++ s) ≡ ok p
    → read_pairs (suc n) (k ++ s) ev ≡ read_pairs n p.rest (insert p.key p.value ev)
read_pairs_key n [] s ev {p} h e = absurd (omega (arith, h.0))
read_pairs_key n (c ∷ k) s ev {p} h e = read_pairs_first n c (k ++ s) ev {p = p} (ground arith) e

read_pairs_step :
    (n : ℕ) (i : Item) (t : Text) (ev : Fields)
    → IsItem i
    → read_pairs (suc n) (write_item i t) ev ≡ read_pairs n t (put_item i ev)
read_pairs_step n (text k v) t ev h =
    read_pairs_key n k (b'=' ∷ (v ++ (b'\n' ∷ t))) ev {p = pair k v t} h.0
      (read_pair-write_item (text k v) t h)
read_pairs_step n (binary k v) t ev h =
    read_pairs_key n k (b'\n' ∷ (four_bytes (length v) ++ (v ++ (b'\n' ∷ t)))) ev {p = pair k v t}
      h.0 (read_pair-write_item (binary k v) t h)

read_pairs-write_items :
    (is : List Item) (n : ℕ) (t : Text) (ev : Fields)
    → All IsItem is
    → length is < n
    → read_pairs n (write_items is (b'\n' ∷ t)) ev ≡ parsed (put_items is ev) t none
read_pairs-write_items is zero t ev h b = absurd (omega arith)
read_pairs-write_items [] (suc n) t ev h b = unfold read_pairs in refl
read_pairs-write_items (i ∷ is) (suc n) t ev h b =
    read_pairs_step n i (write_items is (b'\n' ∷ t)) ev h.0
    ∙ read_pairs-write_items is n t (put_item i ev) h.1 (omega arith)

length-write_item : (i : Item) (t : Text) → length t + 1 ≤ length (write_item i t)
length-write_item (text k v) t =
    omega (arith, length-append k (b'=' ∷ (v ++ (b'\n' ∷ t))), length-append v (b'\n' ∷ t))
length-write_item (binary k v) t = omega (
  arith,
  length-append k (b'\n' ∷ (four_bytes (length v) ++ (v ++ (b'\n' ∷ t)))),
  length-append v (b'\n' ∷ t),
)

length-write_items : (is : List Item) (t : Text) → length t + length is ≤ length (write_items is t)
length-write_items [] t = omega arith
length-write_items (i ∷ is) t =
    omega (arith, length-write_item i (write_items is t), length-write_items is t)

parse_ld_event-written :
    (is : List Item) (t : Text)
    → All IsItem is
    → parse_ld_event (6 ∷ 3 ∷ write_items is (b'\n' ∷ t)) ≡ parsed (put_items is []) t none
unfolding parse_ld_event skip_header has_header
parse_ld_event-written is t h =
    let s = write_items is (b'\n' ∷ t) in
    read_pairs-write_items is (suc (length s)) t [] h
      (omega (arith, length-write_items is (b'\n' ∷ t)))

insert-some : (k v : Text) (ev : Fields) → is_null (insert k v ev) ≡ false
unfolding insert
insert-some k v [] = refl
insert-some k v (kv ∷ ev) = ground arith

put_items-some :
    (is : List Item) (ev : Fields) → is_null ev ≡ false → is_null (put_items is ev) ≡ false
put_items-some [] ev h = h
put_items-some (text k v ∷ is) ev h = put_items-some is (insert k v ev) (insert-some k v ev)
put_items-some (binary k v ∷ is) ev h = put_items-some is (insert k v ev) (insert-some k v ev)

event-some : (is : List Item) → IsEvent is → is_null (put_items is []) ≡ false
event-some [] h = absurd h
event-some (text k v ∷ is) h = put_items-some is (insert k v []) (insert-some k v [])
event-some (binary k v ∷ is) h = put_items-some is (insert k v []) (insert-some k v [])

event_items : (is : List Item) → IsEvent is → All IsItem is
event_items [] h = absurd h
event_items (i ∷ is) h = h

emit-some :
    (ev : Fields) (st : Stream)
    → is_null ev ≡ false
    → emit ev st ≡ record { events = ev ∷ st.events; failure = st.failure }
unfolding emit
emit-some [] st h = absurd (cc h)
emit-some (kv ∷ ev) st h = refl

-- The events in front of those of another stream, and its error.
abbrev pub events_before : List (List Item) → Stream → Stream
events_before es st = record {
  events = map (λ is. put_items is []) es ++ st.events;
  failure = st.failure;
}

read_events-write_events :
    (es : List (List Item)) (n : ℕ) (t : Text)
    → All IsEvent es
    → read_events (n + length es) (write_events es t) ≡ events_before es (read_events n t)
unfolding read_events unless_failed
read_events-write_events [] n t h = let e : n + 0 ≡ n = omega arith in ap (λ m. read_events m t) e
read_events-write_events (is ∷ es) n t h =
    let e : n + suc (length es) ≡ suc (n + length es) = omega arith in
    let s = write_events es t in
    ap (λ m. read_events m (write_events (is ∷ es) t)) e
    ∙ ap
        (λ (p : Parsed).
          emit p.event (unless_failed p.failure (read_events (n + length es) p.rest)))
        (parse_ld_event-written is s (event_items is h.0))
    ∙ emit-some (put_items is []) (read_events (n + length es) s) (event-some is h.0)
    ∙ ap (λ (st : Stream). record { events = put_items is [] ∷ st.events; failure = st.failure })
        (read_events-write_events es n t h.1)

length-write_events :
    (es : List (List Item)) (t : Text) → length t + length es ≤ length (write_events es t)
length-write_events [] t = omega arith
length-write_events (is ∷ es) t =
    omega (arith, length-write_items is (b'\n' ∷ write_events es t), length-write_events es t)

-- Events that are written as the specification says are emitted, in their order, a text pair and a
-- binary one alike, and then what is emitted for the bytes behind them, with the error that these end
-- with, whatever they are; given that every event has a pair, that keys are 1 to 256 printable ASCII
-- characters but '=', that text values hold no newline, and that binary values have at most 16 MiB.
pub parse_ld_stream-write_events :
    (es : List (List Item)) (t : Text)
    → All IsEvent es
    → parse_ld_stream (write_events es t) ≡ events_before es (parse_ld_stream t)
unfolding parse_ld_stream
parse_ld_stream-write_events es t h =
    let s = write_events es t in
    let k = length s - (length t + length es) in
    let e : suc (length s) ≡ (suc (length t) + k) + length es =
      omega (arith, length-write_events es t) in
    ap (λ n. read_events n s) e
    ∙ read_events-write_events es (suc (length t) + k) t h
    ∙ ap (events_before es) (read_events_enough (suc (length t)) k t (omega arith))
