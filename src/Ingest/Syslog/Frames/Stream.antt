-- ===== src/Ingest/Syslog/Frames/Stream.antt =====
-- internal/ingest/syslog.go: what a TCP stream of framed messages is read as.
use mathlib.Core.List.{append_assoc}
use logdoc.Common.{
  ℕ, zero, suc, ◌≡◌, ◌≤◌, ◌<◌, ◌+◌, ◌-◌, ◌*◌, ◌&&◌, true, false, some, List, [], ◌∷◌, ◌++◌, refl,
  ◌∙◌, ap, arith, length, length-append, all, All, leb, map,
}
use logdoc.Common.Text.{Text, has_byte, is_empty}
use logdoc.Common.Decimal.{itoa, is_digit, digits_value}
use logdoc.Common.Decimal.Printed.{length-itoa, itoa-StartsWithDigit}
use logdoc.Ingest.Bytes.{cut_at-append, read_full-append}
use logdoc.Ingest.Syslog.Frames.{
  frame, fine, max_syslog_frame, read_line, read_counted, read_count, read_frame, read_frames,
  keep_message, unless_ended, stream_messages,
}

-- A message as it is sent: behind its length, or as a line.
pub data Sent : Type 0 where
  counted line : Text → Sent

abbrev pub wire : Sent → Text
wire (counted m) = itoa (length m) ++ (b' ' ∷ m)
wire (line m) = m ++ (b'\n' ∷ [])

-- A line comes with its newline.
abbrev pub received : Sent → Text
received (counted m) = m
received (line m) = m ++ (b'\n' ∷ [])

abbrev pub NoCount : Text → Type 0
NoCount [] = Unit
NoCount (c ∷ m) = (leb b'1' c && leb c b'9') ≡ false

-- A counted message is neither empty nor longer than the limit; a line holds no newline, and does
-- not start with a digit from 1 to 9.
abbrev pub IsSendable : Sent → Type 0
IsSendable (counted m) = (1 ≤ length m) × (length m ≤ max_syslog_frame)
IsSendable (line m) = (has_byte b'\n' m ≡ false) × NoCount m

abbrev pub wires : List Sent → Text
wires [] = []
wires (m ∷ ms) = wire m ++ wires ms

read_count_digits :
    (n k : ℕ) (s t : Text) {m : ℕ}
    → all is_digit s ≡ true
    → k + length s ≤ 8
    → digits_value n s ≡ some m
    → read_count n k (s ++ t) ≡ read_count m (k + length s) t
unfolding read_count digits_value
read_count_digits n k [] t {m} h b v = ground arith
read_count_digits n k (c ∷ s) t {m} h b v =
    ground (arith, read_count_digits (n * 10 + (c - b'0')) (k + 1) s t {m = m})

read_counted-append : (m t : Text) → read_counted (length m) (m ++ t) ≡ frame m t fine
unfolding read_counted
read_counted-append m t = rw (read_counted, read_full-append m t) refl

read_count_space :
    (n k : ℕ) (t : Text)
    → 1 ≤ n
    → n ≤ max_syslog_frame
    → read_count n k (b' ' ∷ t) ≡ read_counted n t
unfolding read_count
read_count_space n k t h b = ground arith

read_frame_digit :
    (c : ℕ) (s : Text) → b'1' ≤ c → c ≤ b'9' → read_frame (c ∷ s) ≡ read_count (c - b'0') 1 s
unfolding read_frame
read_frame_digit c s h k = ground arith

read_frame_text :
    (c : ℕ) (s : Text) → (leb b'1' c && leb c b'9') ≡ false → read_frame (c ∷ s) ≡ read_line (c ∷ s)
unfolding read_frame
read_frame_text c s h = ground arith

read_frame-counted :
    (m t : Text) → IsSendable (counted m) → read_frame (wire (counted m) ++ t) ≡ frame m t fine
read_frame-counted m t h =
    let r = itoa-StartsWithDigit (length m) h.0 in
    let short : length (itoa (length m)) ≤ 7 = length-itoa 6 (length m) (omega (arith, h.1)) in
    first r.0 r.1 r.3 r.4 r.5 r.6 short r.2
  where
    first :
        (c : ℕ) (s : Text)
        → b'1' ≤ c
        → c ≤ b'9'
        → digits_value (c - b'0') s ≡ some (length m)
        → all is_digit s ≡ true
        → length (itoa (length m)) ≤ 7
        → itoa (length m) ≡ c ∷ s
        → read_frame ((itoa (length m) ++ (b' ' ∷ m)) ++ t) ≡ frame m t fine
    first c s lo hi v ds short e =
        ap (λ u. read_frame ((u ++ (b' ' ∷ m)) ++ t)) e
        ∙ read_frame_digit c ((s ++ (b' ' ∷ m)) ++ t) lo hi
        ∙ ap (read_count (c - b'0') 1) (append_assoc s (b' ' ∷ m) t)
        ∙ read_count_digits (c - b'0') 1 s (b' ' ∷ (m ++ t)) {m = length m} ds
            (omega (arith, ap length e, short)) v
        ∙ read_count_space (length m) (1 + length s) (m ++ t) h.0 h.1
        ∙ read_counted-append m t

read_line-append :
    (m t : Text)
    → has_byte b'\n' m ≡ false
    → read_line ((m ++ (b'\n' ∷ [])) ++ t) ≡ frame (m ++ (b'\n' ∷ [])) t fine
unfolding read_line
read_line-append m t h =
    ap read_line (append_assoc m (b'\n' ∷ []) t) ∙ rw (read_line, cut_at-append b'\n' m t h) refl

read_frame-line :
    (m t : Text)
    → IsSendable (line m)
    → read_frame (wire (line m) ++ t) ≡ frame (m ++ (b'\n' ∷ [])) t fine
unfolding read_frame
read_frame-line [] t h = read_line-append [] t h.0
read_frame-line (c ∷ m) t h =
    read_frame_text c ((m ++ (b'\n' ∷ [])) ++ t) h.1 ∙ read_line-append (c ∷ m) t h.0

read_frame-wire :
    (m : Sent) (t : Text) → IsSendable m → read_frame (wire m ++ t) ≡ frame (received m) t fine
read_frame-wire (counted m) t h = read_frame-counted m t h
read_frame-wire (line m) t h = read_frame-line m t h

received_nonempty : (m : Sent) → IsSendable m → is_empty (received m) ≡ false
received_nonempty (counted []) h = absurd (omega (arith, h.0))
received_nonempty (counted (c ∷ m)) h = refl
received_nonempty (line []) h = refl
received_nonempty (line (c ∷ m)) h = refl

pub read_frames_fine :
    (n : ℕ) (s : Text) {m t : Text}
    → read_frame s ≡ frame m t fine
    → is_empty m ≡ false
    → read_frames (suc n) s ≡ m ∷ read_frames n t
unfolding read_frames keep_message unless_ended
read_frames_fine n s {m} {t} e h =
    ap (λ f. keep_message f.msg (unless_ended f.ending (read_frames n f.rest))) e ∙ rw h refl

read_frames-wires :
    (ms : List Sent) (n : ℕ)
    → All IsSendable ms
    → length ms < n
    → read_frames n (wires ms) ≡ map received ms
unfolding unless_ended
read_frames-wires ms zero h k = absurd (omega arith)
read_frames-wires [] (suc n) h k =
    unfold read_frames in unfold read_frame in unfold keep_message in refl
read_frames-wires (m ∷ ms) (suc n) h k =
    read_frames_fine n (wire m ++ wires ms) (read_frame-wire m (wires ms) h.0)
      (received_nonempty m h.0)
    ∙ ap (λ l. received m ∷ l) (read_frames-wires ms n h.1 (omega arith))

length-wire : (m : Sent) → 1 ≤ length (wire m)
length-wire (counted m) = omega (arith, length-append (itoa (length m)) (b' ' ∷ m))
length-wire (line m) = omega (arith, length-append m (b'\n' ∷ []))

length-wires : (ms : List Sent) → length ms ≤ length (wires ms)
length-wires [] = omega arith
length-wires (m ∷ ms) =
    omega (arith, length-append (wire m) (wires ms), length-wire m, length-wires ms)

-- Whatever mixture of octet-counted messages and lines a connection carries, exactly those messages
-- are read, in their order, a line with its newline; given that a counted message has 1 to 2^20
-- bytes, and that a line holds no newline and does not start with a digit from 1 to 9.
pub stream_messages-wires :
    (ms : List Sent) → All IsSendable ms → stream_messages (wires ms) ≡ map received ms
unfolding stream_messages
stream_messages-wires ms h =
    read_frames-wires ms (suc (length (wires ms))) h (omega (arith, length-wires ms))
