-- ===== src/Ingest/Journald.antt =====
-- internal/ingest/journald.go: the journal export stream of one source, and the server's decoders.
pub mod Tests
pub mod Mapping
pub mod Chunks
pub mod Bounds
use logdoc.Common.{
  ℕ, zero, suc, ◌^◌, Bool, true, false, Option, none, some, List, [], ◌∷◌, ◌++◌, ltb, leb,
  if◌then◌else◌, length, is_null,
}
use logdoc.Common.Text.{Text, bytes, is_empty, text_Eq}
use logdoc.Common.Map.{lookup, insert}
use logdoc.Model.{Time, Entry, Fields}
use logdoc.Ingest.Bytes.{cut_at, read_full, little_endian}
use logdoc.Ingest.Runtime.{Runtime}
use logdoc.Ingest.Journald.Mapping.{entry_from_journal}

abbrev pub max_journal_buf : ℕ
max_journal_buf = 2 ^ 20

-- `journalDecoder`; nil fields are no fields.
pub record Decoder : Type 0 where
  pub buf : Text
  pub fields : Fields

abbrev pub new_decoder : Decoder
new_decoder = record { buf = []; fields = [] }

-- What one round of the loop in `feed` makes of the buffer: it waits for more bytes, drops
-- everything, takes a field, or ends the entry; with the bytes that are left.
pub data Round : Type 0 where
  waits resets : Round
  field : Text → Text → Text → Round
  ends : Text → Round

-- The data of a binary field, and the newline behind it.
unfoldable pub sized_field : Text → ℕ → Text → Round
sized_field name size s = elim (read_full size s) [
  | none ↦ waits
  | some q ↦ elim (q.1) [ [] ↦ waits | c ∷ rest ↦ field name q.0 rest ]
]

-- Behind the name of a binary field: its size in 8 bytes, and its data.
unfoldable pub binary_field : Text → Text → Round
unfolding sized_field
binary_field name s = elim (read_full 8 s) [
  | none ↦ waits
  | some p ↦
      if ltb max_journal_buf (little_endian p.0)
      then resets
      else sized_field name (little_endian p.0) p.1
]

-- A line, and the bytes behind it.
unfoldable pub line_round : Text → Text → Round
unfolding binary_field
line_round [] rest = ends rest
line_round (c ∷ line) rest = elim (cut_at b'=' (c ∷ line)) [
  | none ↦ binary_field (c ∷ line) rest
  | some q ↦ field q.0 q.1 rest
]

unfoldable pub next_round : Text → Round
unfolding line_round
next_round buf = elim (cut_at b'\n' buf) [ none ↦ waits | some p ↦ line_round p.0 p.1 ]

-- The entries that are complete, and the decoder afterwards.
pub record Fed : Type 0 where
  pub done : List Fields
  pub decoder : Decoder

abbrev pub fed : List Fields → Text → Fields → Fed
fed done buf fields = record { done = done; decoder = record { buf = buf; fields = fields } }

-- An entry without fields is left out.
unfoldable pub complete : Fields → Fed → Fed
complete [] f = f
complete (kv ∷ fields) f = record f { done = (kv ∷ fields) ∷ f.done }

-- What the loop does after a round, where `more` goes on with it.
unfoldable pub continue : (Text → Fields → Fed) → Text → Fields → Round → Fed
unfolding complete
continue more buf fields waits = fed [] buf fields
continue more buf fields resets = fed [] [] []
continue more buf fields (field k v rest) = more rest (insert k v fields)
continue more buf fields (ends rest) = complete fields (more rest [])

-- The loop of `feed`, on fuel.
unfoldable pub drain : ℕ → Text → Fields → Fed
unfolding next_round continue
drain zero buf fields = fed [] buf fields
drain (suc fuel) buf fields = continue (λ rest fs. drain fuel rest fs) buf fields (next_round buf)

-- Each round that goes on takes a byte at least, so the length of the buffer is fuel enough.
unfoldable pub feed : Decoder → Text → Fed
feed d chunk =
    let buf = d.buf ++ chunk in
    if ltb max_journal_buf (length buf) then fed [] [] [] else drain (length buf) buf d.fields

abbrev pub max_journal_sources : ℕ
max_journal_sources = 1024

abbrev pub Decoders : Type 0
Decoders = List (Text × Decoder)

-- The decoders, with one for the source.
unfoldable pub admit : Text → Decoders → Decoders
admit key ds = elim (lookup key ds) [
  | some d ↦ ds
  | none ↦ insert key new_decoder (if leb max_journal_sources (length ds) then [] else ds)
]

unfoldable pub decoder_of : Text → Decoders → Decoder
decoder_of key ds = elim (lookup key ds) [ none ↦ new_decoder | some d ↦ d ]

-- The field "ip" of an entry.
unfoldable pub mark_ip : Text → Entry → Entry
mark_ip ip e = if is_empty ip then e else record e { fields = insert (bytes "ip") ip e.fields }

-- The entries that are appended.
unfoldable pub append_entries : Runtime → Text → Time → List Fields → List Entry
append_entries go ip now [] = []
append_entries go ip now (fields ∷ more) =
    let rest = append_entries go ip now more in
    elim (entry_from_journal go fields now) [ none ↦ rest | some e ↦ mark_ip ip e ∷ rest ]

-- One round of `loop`: a datagram of the source `key` with the address `ip`.
unfoldable pub on_datagram : Runtime → Text → Text → Time → Text → Decoders → Decoders × List Entry
on_datagram go key ip now chunk ds =
    let ds₁ = admit key ds in
    let f = feed (decoder_of key ds₁) chunk in
    (insert key f.decoder ds₁, append_entries go ip now f.done)
