-- ===== src/Ingest/Python/Record.antt =====
-- internal/ingest/python.go: an unpickled log record as an entry, and the frames of a stream.
use logdoc.Common.{
  ℕ, zero, suc, ◌+◌, ◌-◌, Bool, true, false, ◌&&◌, ◌||◌, Option, none, some, List, [], ◌∷◌, ◌++◌,
  ltb, ◌==◌, if◌then◌else◌, any, length, take, drop, Result, ok, err, ◌>>=◌,
}
use logdoc.Common.Text.{Text, bytes, is_empty, text_eq, text_Eq}
use logdoc.Common.Map.{lookup, insert}
use logdoc.Common.Int.{ℤ, pos, negsuc}
use logdoc.Common.Decimal.{itoa}
use logdoc.Model.{Level, Time, Entry, Fields, default_tenant}
use logdoc.Ingest.Bytes.{read_full, big_endian}
use logdoc.Ingest.Runtime.{Runtime}
use logdoc.Ingest.Python.Memory.{
  Value, null, boolean, integer, float, string, list, dict, mark, of_values, Dict, Heap, get_dict,
}
use logdoc.Ingest.Python.{max_python_frame}
use logdoc.Ingest.Python.Opcodes.{Floats, unpickle}

-- A recursion that did not come to an end on its fuel.
pub data NoEnd : Type 0 where
  no_end : NoEnd

unfoldable pub int_text : ℤ → Text
int_text (pos n) = itoa n
int_text (negsuc n) = b'-' ∷ itoa (n + 1)

unfoldable pub bool_text : Bool → Text
bool_text true = bytes "true"
bool_text false = bytes "false"

-- strings.Join(_, ",")
unfoldable pub join : List Text → Text
join [] = []
join (t ∷ []) = t
join (t ∷ u ∷ ts) = t ++ (b',' ∷ join (u ∷ ts))

unfoldable pub enclose : ℕ → List Text → ℕ → Text
unfolding join
enclose a ts b = a ∷ (join ts ++ (b ∷ []))

-- The texts of the items of a list.
unfoldable pub item_texts : (Value → Result NoEnd Text) → List Value → Result NoEnd (List Text)
item_texts text [] = ok []
item_texts text (v ∷ vs) = text v >>= (λ t. item_texts text vs >>= (λ ts. ok (t ∷ ts)))

-- The texts "<key>=<value>" of the items of a dict, in the order in which Go's loop meets them.
unfoldable pub pair_texts : (Value → Result NoEnd Text) → Dict → Result NoEnd (List Text)
pair_texts text [] = ok []
pair_texts text ((k, v) ∷ kvs) =
    text v >>= (λ t. pair_texts text kvs >>= (λ ts. ok ((k ++ (b'=' ∷ t)) ∷ ts)))

-- `pyString`, on fuel for the depth; a mark is an empty struct.
unfoldable pub py_string : Floats → ℕ → Heap → Value → Result NoEnd Text
unfolding item_texts pair_texts enclose int_text bool_text
py_string go zero heap v = err no_end
py_string go (suc fuel) heap null = ok []
py_string go (suc fuel) heap mark = ok (bytes "{}")
py_string go (suc fuel) heap (string t) = ok t
py_string go (suc fuel) heap (integer n) = ok (int_text n)
py_string go (suc fuel) heap (float f) = ok (go.format_float f)
py_string go (suc fuel) heap (boolean b) = ok (bool_text b)
py_string go (suc fuel) heap (list vs) =
    item_texts (λ v. py_string go fuel heap v) (of_values vs) >>= (λ ts. ok (enclose b'[' ts b']'))
py_string go (suc fuel) heap (dict r) =
    pair_texts (λ v. py_string go fuel heap v) (get_dict r heap)
    >>= (λ ts. ok (enclose b'{' ts b'}'))

unfoldable pub level_of_name : List (Text × Level) → Text → Level
level_of_name [] name = 1
level_of_name ((n, l) ∷ names) name = if text_eq n name then l else level_of_name names name

unfoldable pub python_levels : List (Text × Level)
python_levels =
    (bytes "CRITICAL", 5)
    ∷ (bytes "ERROR", 4)
    ∷ (bytes "WARNING", 3)
    ∷ (bytes "INFO", 1)
    ∷ (bytes "DEBUG", 0)
    ∷ (bytes "NOTSET", 2)
    ∷ []

unfoldable pub python_level : Text → Level
unfolding level_of_name python_levels
python_level name = level_of_name python_levels name

unfoldable pub known_keys : List Text
known_keys =
    bytes "msg"
    ∷ bytes "message"
    ∷ bytes "module"
    ∷ bytes "process"
    ∷ bytes "processName"
    ∷ bytes "filename"
    ∷ bytes "created"
    ∷ bytes "levelname"
    ∷ bytes "args"
    ∷ bytes "exc_info"
    ∷ bytes "msecs"
    ∷ bytes "relativeCreated"
    ∷ []

-- The keys that are mapped, formatted elsewhere, or noise.
unfoldable pub is_known : Text → Bool
unfolding known_keys
is_known k = any (λ n. text_eq n k) known_keys

unfoldable pub is_nil : Value → Bool
is_nil null = true
is_nil _ = false

-- rec[k], which is nil where there is none.
unfoldable pub item_of : Text → Dict → Value
item_of k rec = elim (lookup k rec) [ none ↦ null | some v ↦ v ]

-- What a created float is as a time, if it is positive: math.Modf and time.Unix.
pub record Moments : Type 0 where
  pub unix_time : ℕ → Option Time

unfoldable pub created_time : Moments → Value → Time → Time
created_time clock (float f) now = elim (clock.unix_time f) [ none ↦ now | some t ↦ t ]
created_time clock _ now = now

unfoldable pub or_else : Text → Text → Text
or_else d t = if is_empty t then d else t

module _ (go : Floats) (fuel : ℕ) (heap : Heap) where
  -- The loop over the other keys.
  unfoldable pub other_fields : Dict → Fields → Result NoEnd Fields
  unfolding is_known is_nil
  other_fields [] fields = ok fields
  other_fields ((k, v) ∷ rec) fields =
      if is_known k || is_nil v
      then other_fields rec fields
      else (py_string go fuel heap v >>= (λ t. other_fields rec (insert k t fields)))

  unfoldable pub text_of : Text → Dict → Result NoEnd Text
  unfolding item_of
  text_of k rec = py_string go fuel heap (item_of k rec)

  unfoldable pub message_of : Dict → Result NoEnd Text
  unfolding text_of
  message_of rec =
      text_of (bytes "msg") rec
      >>= (λ t. if is_empty t then text_of (bytes "message") rec else ok t)

  unfoldable pub source_of : Runtime → Dict → Result NoEnd Text
  unfolding text_of
  source_of rt rec = text_of (bytes "processName") rec >>= (λ p.
      text_of (bytes "filename") rec
      >>= (λ f. ok (or_else (bytes "python") (rt.trim_space (p ++ (b' ' ∷ f))))))

  unfoldable pub record_entry : Runtime → Moments → Dict → Time → Text → Result NoEnd Entry
  unfolding source_of text_of other_fields created_time or_else
  record_entry rt clock rec now msg = text_of (bytes "module") rec >>= (λ app.
      text_of (bytes "process") rec >>= (λ pid. text_of (bytes "levelname") rec >>= (λ name.
        source_of rt rec >>= (λ src. other_fields rec [] >>= (λ fields. ok record {
          tenant_id = default_tenant;
          ts = created_time clock (item_of (bytes "created") rec) now;
          app = or_else (bytes "python") app;
          src = src;
          lvl = python_level name;
          pid = pid;
          msg = msg;
          fields = fields;
        })))))

  -- No entry without a message.
  unfoldable pub entry_from_python : Runtime → Moments → Dict → Time → Result NoEnd (Option Entry)
  unfolding message_of record_entry
  entry_from_python rt clock rec now = message_of rec >>= (λ msg.
      if is_empty msg then ok none else (record_entry rt clock rec now msg >>= (λ e. ok (some e))))

-- The dict that was unpickled.
unfoldable pub dict_of : Value → Heap → Dict
dict_of (dict r) heap = get_dict r heap
dict_of _ heap = []

-- The entry, with the field "ip" if the sender is known.
unfoldable pub with_ip : Text → Option Entry → List Entry
with_ip ip none = []
with_ip ip (some e) =
    (if is_empty ip then e else record e { fields = insert (bytes "ip") ip e.fields }) ∷ []

-- The loop of `handleConn`, on fuel: the frames of a connection.
unfoldable pub read_records : ℕ → Text → List Text
read_records zero s = []
read_records (suc fuel) s = elim (read_full 4 s) [
  | none ↦ []
  | some p ↦
      let n = big_endian p.0 in
      elim (n == 0 || ltb max_python_frame n) [
        | true ↦ []
        | false ↦ elim (read_full n p.1) [ none ↦ [] | some q ↦ q.0 ∷ read_records fuel q.1 ]
      ]
]

-- A datagram, without the length before it if that is right.
unfoldable pub datagram_record : Text → Text
datagram_record s =
    if ltb 4 (length s) && big_endian (take 4 s) == length s - 4 then drop 4 s else s

-- `record`: what is appended for a frame.
unfoldable pub on_record :
    Floats → ℕ → Runtime → Moments → Time → Text → Text → Result NoEnd (List Entry)
on_record go fuel rt clock now ip frame = elim (unpickle go frame) [
  | none ↦ ok []
  | some r ↦
      entry_from_python go fuel r.1 rt clock (dict_of r.0 r.1) now >>= (λ o. ok (with_ip ip o))
]
