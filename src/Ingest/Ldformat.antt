-- ===== src/Ingest/Ldformat.antt =====
-- internal/ingest/ldformat.go: the ld_format protocol, events of text and binary pairs.
pub mod Tests
pub mod Mapping
pub mod Written
pub mod Progress
use logdoc.Common.{
  ℕ, zero, suc, ◌+◌, ◌*◌, ◌^◌, Bool, true, false, ◌&&◌, ◌||◌, Option, none, some, List, [], ◌∷◌,
  ◌++◌, ltb, leb, ◌==◌, if◌then◌else◌, length, is_null, Result, ok, err, ◌>>=◌,
}
use logdoc.Common.Text.{Text, text_Eq}
use logdoc.Common.Map.{insert}
use logdoc.Model.{Fields}
use logdoc.Ingest.Bytes.{cut_at, read_full, big_endian}

abbrev pub max_key_len : ℕ
max_key_len = 256

abbrev pub max_value_len : ℕ
max_value_len = 16 * 2 ^ 20

-- The errors, where `eof` and `cut_short` are io.EOF and io.ErrUnexpectedEOF, and an error that wraps
-- one of them.
pub data LdError : Type 0 where
  eof cut_short empty_key bad_byte long_key long_value : LdError

-- The end of a key: '=' for a text pair, a newline for a binary one.
pub data Delim : Type 0 where
  equals newline : Delim

-- A key, with how it ends and the bytes behind it.
pub record Key : Type 0 where
  pub name : Text
  pub delim : Delim
  pub rest : Text

abbrev pub ended : Text → Delim → Text → Key
ended name delim rest = record { name = name; delim = delim; rest = rest }

-- The key that was read behind one more byte.
unfoldable pub key_after : ℕ → Key → Key
key_after c k = record k { name = c ∷ k.name }

-- `readKey`, with the number of bytes that the key has so far.
unfoldable pub read_key : ℕ → Text → Result LdError Key
unfolding key_after
read_key n [] = err eof
read_key n (c ∷ s) = elim (c == b'=' || c == b'\n') [
  | true ↦ if n == 0 then err empty_key else ok (ended [] (if c == b'=' then equals else newline) s)
  | false ↦ elim (ltb c 32 || ltb 126 c) [
    | true ↦ err bad_byte
    | false ↦ elim (leb max_key_len n) [
      | true ↦ err long_key
      | false ↦ read_key (n + 1) s >>= (λ k. ok (key_after c k))
    ]
  ]
]

-- io.ReadFull fails with io.EOF only if nothing is left.
unfoldable pub read_exact : ℕ → Text → Result LdError (Text × Text)
read_exact n s = elim (read_full n s) [
  | none ↦ err (if is_null s then eof else cut_short)
  | some p ↦ ok p
]

-- A newline behind a binary value belongs to it.
unfoldable pub skip_newline : Text → Text
skip_newline [] = []
skip_newline (c ∷ s) = if c == b'\n' then s else c ∷ s

unfoldable pub text_value : Text → Result LdError (Text × Text)
text_value s = elim (cut_at b'\n' s) [ none ↦ err eof | some p ↦ ok p ]

unfoldable pub sized_value : ℕ → Text → Result LdError (Text × Text)
unfolding read_exact skip_newline
sized_value n s =
    if ltb max_value_len n
    then err long_value
    else (read_exact n s >>= (λ p. ok (p.0, skip_newline p.1)))

unfoldable pub binary_value : Text → Result LdError (Text × Text)
unfolding read_exact sized_value
binary_value s = read_exact 4 s >>= (λ p. sized_value (big_endian p.0) p.1)

unfoldable pub read_value : Key → Result LdError (Text × Text)
unfolding text_value binary_value
read_value k = elim (k.delim) [ equals ↦ text_value k.rest | newline ↦ binary_value k.rest ]

-- A pair, and the bytes behind it.
pub record Pair : Type 0 where
  pub key : Text
  pub value : Text
  pub rest : Text

abbrev pub pair : Text → Text → Text → Pair
pair k v rest = record { key = k; value = v; rest = rest }

unfoldable pub read_pair : Text → Result LdError Pair
unfolding read_key read_value
read_pair s = read_key 0 s >>= (λ k. read_value k >>= (λ v. ok (pair k.name v.0 v.1)))

-- The bytes of a header.
unfoldable pub has_header : Text → Bool
has_header [] = false
has_header (a ∷ []) = false
has_header (a ∷ b ∷ s) = a == 6 && b == 3

unfoldable pub skip_header : Text → Text
unfolding has_header
skip_header [] = []
skip_header (a ∷ []) = a ∷ []
skip_header (a ∷ b ∷ s) = if has_header (a ∷ b ∷ s) then s else a ∷ b ∷ s

-- The event that was read, which is nil where it has no pair, the bytes that are left, and the error.
pub record Parsed : Type 0 where
  pub event : Fields
  pub rest : Text
  pub failure : Option LdError

abbrev pub parsed : Fields → Text → Option LdError → Parsed
parsed ev rest failure = record { event = ev; rest = rest; failure = failure }

-- The pairs of an event, on fuel.
unfoldable pub read_pairs : ℕ → Text → Fields → Parsed
unfolding has_header read_pair
read_pairs zero s ev = parsed ev s (some eof)
read_pairs (suc fuel) [] ev = parsed ev [] (some eof)
read_pairs (suc fuel) (c ∷ s) ev = elim (c == b'\n') [
  | true ↦ parsed ev s none
  | false ↦ elim (has_header (c ∷ s)) [
    | true ↦ parsed ev (c ∷ s) none
    | false ↦ elim (read_pair (c ∷ s)) [
      | err e ↦ parsed ev [] (some e)
      | ok p ↦ read_pairs fuel p.rest (insert p.key p.value ev)
    ]
  ]
]

-- Each pair takes a byte at least, so the length of the bytes is fuel enough.
unfoldable pub parse_ld_event : Text → Parsed
unfolding skip_header read_pairs
parse_ld_event s = let t = skip_header s in read_pairs (suc (length t)) t []

-- The events that are emitted, and the error that the stream ended with.
pub record Stream : Type 0 where
  pub events : List Fields
  pub failure : Option LdError

unfoldable pub emit : Fields → Stream → Stream
emit [] st = st
emit (kv ∷ ev) st = record st { events = (kv ∷ ev) ∷ st.events }

-- The end of the stream is no error.
unfoldable pub ending : LdError → Option LdError
ending eof = none
ending cut_short = some cut_short
ending empty_key = some empty_key
ending bad_byte = some bad_byte
ending long_key = some long_key
ending long_value = some long_value

abbrev pub ends_with : Option LdError → Stream
ends_with failure = record { events = []; failure = failure }

-- The stream goes on with `rest` unless there was an error.
unfoldable pub unless_failed : Option LdError → Stream → Stream
unfolding ending
unless_failed none rest = rest
unless_failed (some e) rest = ends_with (ending e)

-- The loop over the events, on fuel.
unfoldable pub read_events : ℕ → Text → Stream
unfolding parse_ld_event emit unless_failed
read_events zero s = ends_with none
read_events (suc fuel) s =
    let p = parse_ld_event s in emit p.event (unless_failed p.failure (read_events fuel p.rest))

-- An event may take no byte only at the end.
unfoldable pub parse_ld_stream : Text → Stream
unfolding read_events
parse_ld_stream s = read_events (suc (length s)) s
