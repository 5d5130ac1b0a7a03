-- ===== src/Ingest/Syslog/Frames.antt =====
-- internal/ingest/syslog.go: messages in a TCP stream, `readSyslogFrame` and the loops around it.
pub mod Stream
pub mod Progress
use logdoc.Common.{
  ℕ, zero, suc, ◌+◌, ◌-◌, ◌*◌, ◌^◌, Bool, true, false, not, ◌&&◌, ◌||◌, Option, none, some, List,
  [], ◌∷◌, ◌++◌, ltb, leb, ◌==◌, if◌then◌else◌, length, map,
}
use logdoc.Common.Text.{Text, is_empty}
use logdoc.Common.Decimal.{is_digit, itoa}
use logdoc.Model.{Time, Entry}
use logdoc.Ingest.Bytes.{cut_at, read_full}
use logdoc.Ingest.Runtime.{Runtime}
use logdoc.Ingest.Syslog.{entry_from_syslog}

-- How a read ended: well, or with io.EOF or io.ErrUnexpectedEOF.
pub data Ending : Type 0 where
  fine eof cut_short : Ending

-- What a read gave, the bytes still to come, and how it ended.
pub record Frame : Type 0 where
  pub msg : Text
  pub rest : Text
  pub ending : Ending

abbrev pub frame : Text → Text → Ending → Frame
frame m s how = record { msg = m; rest = s; ending = how }

abbrev pub max_syslog_frame : ℕ
max_syslog_frame = 2 ^ 20

-- (*bufio.Reader).ReadBytes('\n')
unfoldable pub read_line : Text → Frame
read_line s = elim (cut_at b'\n' s) [
  | none ↦ frame s [] eof
  | some p ↦ frame (p.0 ++ (b'\n' ∷ [])) p.1 fine
]

-- An octet-counted frame; io.ReadFull tells a stream that ends at once from one that ends later.
unfoldable pub read_counted : ℕ → Text → Frame
read_counted n s = elim (read_full n s) [
  | none ↦ frame [] [] (if is_empty s then eof else cut_short)
  | some p ↦ frame p.0 p.1 fine
]

-- Behind digits that are not a count: the digits again, the byte `c`, and the rest of the line.
unfoldable pub read_plain : ℕ → ℕ → Text → Frame
unfolding read_line
read_plain n c s =
    if c == b'\n'
    then frame (itoa n) s fine
    else (let line = read_line s in frame (itoa n ++ (c ∷ line.msg)) line.rest line.ending)

-- The loop over the digits of a possible count.
unfoldable pub read_count : ℕ → ℕ → Text → Frame
unfolding read_counted read_plain
read_count n digits [] = frame [] [] eof
read_count n digits (c ∷ s) = elim (is_digit c && ltb digits 8) [
  | true ↦ read_count (n * 10 + (c - b'0')) (digits + 1) s
  | false ↦ elim (c == b' ' && (ltb 0 n && leb n max_syslog_frame)) [
    | true ↦ read_counted n s
    | false ↦ read_plain n c s
  ]
]

unfoldable pub read_frame : Text → Frame
unfolding read_count read_line
read_frame [] = frame [] [] eof
read_frame (c ∷ s) =
    if leb b'1' c && leb c b'9' then read_count (c - b'0') 1 s else read_line (c ∷ s)

-- A message that is not empty goes on to be parsed.
unfoldable pub keep_message : Text → List Text → List Text
keep_message m more = if is_empty m then more else m ∷ more

-- The loop returns after an error.
unfoldable pub unless_ended : Ending → List Text → List Text
unless_ended fine more = more
unless_ended eof more = []
unless_ended cut_short more = []

-- The loop of `handleConn`, on fuel: the messages that are read before the connection ends.
unfoldable pub read_frames : ℕ → Text → List Text
unfolding read_frame
read_frames zero s = []
read_frames (suc fuel) s =
    let f = read_frame s in keep_message f.msg (unless_ended f.ending (read_frames fuel f.rest))

-- Each frame that ends well takes a byte at least.
unfoldable pub stream_messages : Text → List Text
stream_messages s = read_frames (suc (length s)) s

-- The entries among the results, in their order.
abbrev pub entries_of : (go : Runtime) → Text → Time → List Text → List Entry
entries_of go ip now [] = []
entries_of go ip now (m ∷ ms) =
    let rest = entries_of go ip now ms in
    elim (entry_from_syslog go m ip now) [ none ↦ rest | some e ↦ e ∷ rest ]

-- What is appended for a connection, with one time for all its messages.
unfoldable pub handle_conn : Runtime → Text → Time → Text → List Entry
unfolding stream_messages
handle_conn go ip now s = entries_of go ip now (stream_messages s)

-- bytes.Split(_, "\n")
unfoldable pub split_lines : Text → List Text
split_lines [] = [] ∷ []
split_lines (c ∷ s) = elim (split_lines s) [
  | [] ↦ []
  | l ∷ ls ↦ elim (c == b'\n') [ true ↦ [] ∷ (l ∷ ls) | false ↦ (c ∷ l) ∷ ls ]
]

-- What `udpLoop` appends for one datagram.
unfoldable pub handle_datagram : Runtime → Text → Time → Text → List Entry
unfolding split_lines
handle_datagram go ip now s = entries_of go ip now (split_lines s)
