-- ===== src/Ingest/Ldformat/Written.antt =====
-- internal/ingest/ldformat.go: streams as the ld_format specification writes them.
pub mod Events
use logdoc.Common.{
  ℕ, zero, suc, ◌≡◌, ◌≤◌, ◌<◌, ◌+◌, ◌-◌, ◌*◌, ◌/◌, ◌%◌, ◌^◌, Bool, true, false, not, ◌&&◌, ◌||◌,
  Option, none, some, List, [], ◌∷◌, ◌++◌, refl, ◌∙◌, ap, sym, arith, length, length-append, ltb,
  leb, ◌==◌, if◌then◌else◌, inl, inr, Result, ok, err, ◌>>=◌, is_null, map, All, all,
}
use logdoc.Common.Text.{Text, text_Eq, has_byte}
use logdoc.Common.Map.{insert}
use logdoc.Model.{Fields}
use logdoc.Ingest.Bytes.{cut_at, cut_at-append, read_full, read_full-append, big_endian}
use logdoc.Ingest.Ldformat.Progress.{read_events_enough}
use logdoc.Ingest.Ldformat.{
  Key, Delim, equals, newline, LdError, max_value_len, max_key_len, read_key, key_after, ended,
  read_exact, skip_newline, text_value, sized_value, binary_value, read_value, Pair, pair,
  read_pair, has_header, skip_header, Parsed, parsed, read_pairs, parse_ld_event, Stream, emit,
  unless_failed, read_events, parse_ld_stream,
}

-- A pair of an event, as text or as bytes.
pub data Item : Type 0 where
  text binary : Text → Text → Item

-- A number in four bytes.
abbrev pub four_bytes : ℕ → Text
four_bytes n = n / 2 ^ 24 ∷ n / 2 ^ 16 % 256 ∷ n / 2 ^ 8 % 256 ∷ n % 256 ∷ []

-- The bytes of a pair in front of those that follow.
abbrev pub write_item : Item → Text → Text
write_item (text k v) t = k ++ (b'=' ∷ (v ++ (b'\n' ∷ t)))
write_item (binary k v) t = k ++ (b'\n' ∷ (four_bytes (length v) ++ (v ++ (b'\n' ∷ t))))

abbrev pub write_items : List Item → Text → Text
write_items [] t = t
write_items (i ∷ is) t = write_item i (write_items is t)

-- Events in front of the bytes that follow: a header, the pairs, and an empty line.
abbrev pub write_events : List (List Item) → Text → Text
write_events [] t = t
write_events (is ∷ es) t = 6 ∷ 3 ∷ write_items is (b'\n' ∷ write_events es t)

abbrev pub put_item : Item → Fields → Fields
put_item (text k v) ev = insert k v ev
put_item (binary k v) ev = insert k v ev

-- The fields that the pairs make, where the last of several pairs with one key counts.
abbrev pub put_items : List Item → Fields → Fields
put_items [] ev = ev
put_items (i ∷ is) ev = put_items is (put_item i ev)

abbrev pub is_key_byte : ℕ → Bool
is_key_byte c = (leb 32 c && leb c 126) && not (c == b'=')

-- A key has 1 to 256 printable ASCII characters but '='.
abbrev pub IsKey : Text → Type 0
IsKey k = (1 ≤ length k) × (length k ≤ max_key_len) × (all is_key_byte k ≡ true)

-- A text value holds no newline, and a binary one is not too long.
abbrev pub IsItem : Item → Type 0
IsItem (text k v) = IsKey k × (has_byte b'\n' v ≡ false)
IsItem (binary k v) = IsKey k × (length v ≤ max_value_len)

abbrev pub IsEvent : List Item → Type 0
IsEvent [] = ⊥
IsEvent (i ∷ is) = IsItem i × All IsItem is

abbrev delim_byte : Delim → ℕ
delim_byte equals = b'='
delim_byte newline = b'\n'

read_key-append :
    (n : ℕ) (k t : Text) (d : Delim)
    → 1 ≤ n + length k
    → n + length k ≤ max_key_len
    → all is_key_byte k ≡ true
    → read_key n (k ++ (delim_byte d ∷ t)) ≡ ok (ended k d t)
unfolding read_key key_after
read_key-append n [] t equals h b a = ground arith
read_key-append n [] t newline h b a = ground arith
read_key-append n (c ∷ k) t d h b a = ground (arith, read_key-append (n + 1) k t d)

big_endian-four_bytes : (n : ℕ) → n < 2 ^ 32 → big_endian (four_bytes n) ≡ n
unfolding big_endian
big_endian-four_bytes n h = omega arith

read_exact-append : (a t : Text) → read_exact (length a) (a ++ t) ≡ ok (a, t)
unfolding read_exact
read_exact-append a t = ground (arith, read_full-append a t)

sized_value-written :
    (v t : Text) → length v ≤ max_value_len → sized_value (length v) (v ++ (b'\n' ∷ t)) ≡ ok (v, t)
unfolding sized_value skip_newline
sized_value-written v t h = ground (arith, read_exact-append v (b'\n' ∷ t))

binary_value-written :
    (v t : Text)
    → length v ≤ max_value_len
    → binary_value (four_bytes (length v) ++ (v ++ (b'\n' ∷ t))) ≡ ok (v, t)
unfolding binary_value
binary_value-written v t h =
    ap (λ (r : Result LdError (Text × Text)). r >>= (λ p. sized_value (big_endian p.0) p.1))
      (read_exact-append (four_bytes (length v)) (v ++ (b'\n' ∷ t)))
    ∙ ap (λ n. sized_value n (v ++ (b'\n' ∷ t)))
        (big_endian-four_bytes (length v) (omega (arith, h)))
    ∙ sized_value-written v t h

text_value-written :
    (v t : Text) → has_byte b'\n' v ≡ false → text_value (v ++ (b'\n' ∷ t)) ≡ ok (v, t)
unfolding text_value
text_value-written v t h = ground (arith, cut_at-append b'\n' v t)

abbrev item_key : Item → Text
item_key (text k v) = k
item_key (binary k v) = k

abbrev item_value : Item → Text
item_value (text k v) = v
item_value (binary k v) = v

pair_of :
    (k s : Text) (d : Delim) {v t : Text}
    → IsKey k
    → read_value (ended k d s) ≡ ok (v, t)
    → read_pair (k ++ (delim_byte d ∷ s)) ≡ ok (pair k v t)
unfolding read_pair
pair_of k s d {v} {t} h e =
    ap (λ (r : Result LdError Key). r >>= (λ q. read_value q >>= (λ w. ok (pair q.name w.0 w.1))))
      (read_key-append 0 k s d (omega (arith, h.0)) (omega (arith, h.1)) h.2)
    ∙ ap (λ (r : Result LdError (Text × Text)). r >>= (λ w. ok (pair k w.0 w.1))) e

pub no_header : (c : ℕ) (s : Text) → 32 ≤ c → has_header (c ∷ s) ≡ false
unfolding has_header
no_header c [] h = refl
no_header c (d ∷ s) h = ground arith

pub read_pair-write_item :
    (i : Item) (t : Text)
    → IsItem i
    → read_pair (write_item i t) ≡ ok (pair (item_key i) (item_value i) t)
unfolding read_value
read_pair-write_item (text k v) t h =
    pair_of k (v ++ (b'\n' ∷ t)) equals {v = v} {t = t} h.0 (text_value-written v t h.1)
read_pair-write_item (binary k v) t h =
    pair_of k (four_bytes (length v) ++ (v ++ (b'\n' ∷ t))) newline {v = v} {t = t} h.0
      (binary_value-written v t h.1)
