-- ===== src/Ingest/Journald/Bounds.antt =====
-- internal/ingest/journald.go: how much the server keeps.
use logdoc.Common.{
  ◌≡◌, ◌≤◌, ◌<◌, none, some, List, [], ◌∷◌, ◌++◌, refl, arith, length, ltb, leb, Option-cases,
  Bool-cases, inl, inr, All,
}
use logdoc.Common.Text.{Text, text_Eq, text_eq_iff}
use logdoc.Common.Map.{
  insert, lookup, lookup-insert, All-insert, length-insert_new, length-insert_old,
}
use logdoc.Model.{Time}
use logdoc.Ingest.Runtime.{Runtime}
use logdoc.Ingest.Journald.{
  Decoder, Decoders, new_decoder, feed, max_journal_buf, max_journal_sources, admit, decoder_of,
  on_datagram,
}
use logdoc.Ingest.Journald.Chunks.Split.{drain_le, feed_fits}

feed-le : (d : Decoder) (chunk : Text) → length (feed d chunk).decoder.buf ≤ max_journal_buf
feed-le d chunk = elim (Bool-cases (ltb max_journal_buf (length (d.buf ++ chunk)))) [
  | inl e ↦ unfold feed in ground arith
  | inr e ↦
      rw (feed_fits d chunk (ground arith))
        (ground (arith, drain_le (length (d.buf ++ chunk)) (d.buf ++ chunk) d.fields))
]

-- The decoders are never more than the limit, and no buffer is longer than its own limit.
abbrev pub IsBounded : Decoders → Type 0
IsBounded ds =
    (length ds ≤ max_journal_sources)
    × All (λ (kd : Text × Decoder). length kd.1.buf ≤ max_journal_buf) ds

-- A datagram: its source, the source's address, the time and the bytes.
pub record Datagram : Type 0 where
  pub key : Text
  pub ip : Text
  pub now : Time
  pub chunk : Text

abbrev pub after_datagrams : Runtime → List Datagram → Decoders → Decoders
after_datagrams go [] ds = ds
after_datagrams go (g ∷ gs) ds =
    after_datagrams go gs (on_datagram go g.key g.ip g.now g.chunk ds).0

lookup-insert_same :
    (key : Text) (d : Decoder) (ds : Decoders) → lookup key (insert key d ds) ≡ some d
lookup-insert_same key d ds = ground (arith, lookup-insert key key d ds, text_eq_iff key key)

insert_new-IsBounded :
    (key : Text) (ds : Decoders)
    → lookup key ds ≡ none
    → length ds < max_journal_sources
    → IsBounded ds
    → IsBounded (insert key new_decoder ds)
insert_new-IsBounded key ds e b h = (
  omega (arith, length-insert_new key new_decoder ds e, b),
  All-insert (λ (kd : Text × Decoder). length kd.1.buf ≤ max_journal_buf) key new_decoder ds
      (omega arith) h.1,
)

admit-IsBounded : (key : Text) (ds : Decoders) → IsBounded ds → IsBounded (admit key ds)
unfolding admit
admit-IsBounded key ds h = elim (Option-cases (lookup key ds)) [
  | inl e ↦ elim (Bool-cases (leb max_journal_sources (length ds))) [
    | inl full ↦
        rw (admit, e, full)
          (insert_new-IsBounded key [] (unfold lookup in refl) (omega arith) (omega arith, tt))
    | inr free ↦ rw (admit, e, free) (insert_new-IsBounded key ds e (ground arith) h)
  ]
  | inr (d, e) ↦ rw (admit, e) h
]

admit_found : (key : Text) (ds : Decoders) → (d : Decoder) × (lookup key (admit key ds) ≡ some d)
unfolding admit lookup
admit_found key ds = elim (Option-cases (lookup key ds)) [
  | inl e ↦ (new_decoder, rw (admit, e) (lookup-insert_same key new_decoder _))
  | inr (d, e) ↦ (d, rw (admit, e) e)
]

on_datagram-IsBounded :
    (go : Runtime) (g : Datagram) (ds : Decoders)
    → IsBounded ds
    → IsBounded (on_datagram go g.key g.ip g.now g.chunk ds).0
unfolding on_datagram
on_datagram-IsBounded go g ds h =
    let ds₁ = admit g.key ds in
    let m = admit-IsBounded g.key ds h in
    let found = admit_found g.key ds in
    let f = feed (decoder_of g.key ds₁) g.chunk in
    (
      omega (arith, length-insert_old g.key f.decoder found.0 ds₁ found.1, m.0),
      All-insert (λ (kd : Text × Decoder). length kd.1.buf ≤ max_journal_buf) g.key f.decoder ds₁
          (feed-le (decoder_of g.key ds₁) g.chunk) m.1,
    )

-- Whatever datagrams come from whatever sources, at most 1024 decoders are kept, and none of them
-- has more than 2^20 bytes in its buffer.
pub after_datagrams-IsBounded :
    (go : Runtime) (gs : List Datagram) (ds : Decoders)
    → IsBounded ds
    → IsBounded (after_datagrams go gs ds)
after_datagrams-IsBounded go [] ds h = h
after_datagrams-IsBounded go (g ∷ gs) ds h =
    after_datagrams-IsBounded go gs (on_datagram go g.key g.ip g.now g.chunk ds).0
      (on_datagram-IsBounded go g ds h)
