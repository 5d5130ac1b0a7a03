-- ===== src/Ingest/Journald/Chunks/Split.antt =====
-- internal/ingest/journald.go: a datagram in two parts.
use mathlib.Core.List.{append_assoc}
use logdoc.Common.{
  ℕ, zero, suc, ◌≡◌, ◌≤◌, ◌+◌, Bool, true, false, [], ◌∷◌, ◌++◌, refl, ◌∙◌, ap, sym, arith, length,
  length-append, inl, inr,
}
use logdoc.Common.Text.{Text, text_Eq}
use logdoc.Common.Map.{insert}
use logdoc.Model.{Fields}
use logdoc.Ingest.Journald.{
  Decoder, Fed, Round, waits, resets, field, ends, next_round, complete, continue, drain, feed,
  max_journal_buf,
}
use logdoc.Ingest.Journald.Chunks.{left, left-next_round, IsSame, next_round_more, drain_any}

-- No round of the loop drops the buffer.
abbrev pub is_calm_round : (Text → Bool) → Round → Bool
is_calm_round more waits = true
is_calm_round more resets = false
is_calm_round more (field k v rest) = more rest
is_calm_round more (ends rest) = more rest

unfoldable pub is_calm : ℕ → Text → Bool
is_calm zero s = true
is_calm (suc n) s = is_calm_round (λ rest. is_calm n rest) (next_round s)

-- What is fed after the bytes before.
abbrev pub after : Fed → Text → Fed
after d t =
    let buf = d.decoder.buf ++ t in
    let g = drain (length buf) buf d.decoder.fields in
    record { done = d.done ++ g.done; decoder = g.decoder }

after-complete :
    (fields : Fields) (d : Fed) (t : Text)
    → complete fields (after d t) ≡ after (complete fields d) t
unfolding complete
after-complete [] d t = refl
after-complete (kv ∷ fields) d t = refl

-- What follows a round, given what follows the later ones.
round_append :
    (n : ℕ) (s t : Text) (fields : Fields) (r : Round)
    → left r ≤ suc n
    → is_calm_round (λ rest. is_calm n rest) r ≡ true
    → length s ≤ suc n
    → IsSame t r (next_round (s ++ t))
    → ((rest : Text) (fs : Fields)
        → length rest ≤ n
        → is_calm n rest ≡ true
        → drain (n + length t) (rest ++ t) fs ≡ after (drain n rest fs) t)
    → drain (suc (n + length t)) (s ++ t) fields
      ≡ after (continue (λ rest fs. drain n rest fs) s fields r) t
unfolding continue drain
round_append n s t fields waits b c h e ih =
    drain_any (suc (n + length t)) (length (s ++ t)) (s ++ t) fields
      (omega (arith, length-append s t, h)) (omega arith)
round_append n s t fields resets b c h e ih = absurd (cc c)
round_append n s t fields (field k v rest) b c h (inl e) ih = absurd (cc e)
round_append n s t fields (field k v rest) b c h (inr e) ih =
    ap (continue (λ rest fs. drain (n + length t) rest fs) (s ++ t) fields) e
    ∙ ih rest (insert k v fields) (omega (arith, b)) c
round_append n s t fields (ends rest) b c h (inl e) ih = absurd (cc e)
round_append n s t fields (ends rest) b c h (inr e) ih =
    ap (continue (λ rest fs. drain (n + length t) rest fs) (s ++ t) fields) e
    ∙ ap (complete fields) (ih rest [] (omega (arith, b)) c)
    ∙ after-complete fields (drain n rest []) t

drain_append :
    (n : ℕ) (s t : Text) (fields : Fields)
    → length s ≤ n
    → is_calm n s ≡ true
    → drain (n + length t) (s ++ t) fields ≡ after (drain n s fields) t
unfolding drain is_calm
drain_append zero [] t fields h c =
    drain_any (0 + length t) (length t) t fields (omega arith) (omega arith)
drain_append zero (b ∷ s) t fields h c = absurd (omega arith)
drain_append (suc n) s t fields h c =
    let e : suc n + length t ≡ suc (n + length t) = omega arith in
    ap (λ m. drain m (s ++ t) fields) e
    ∙ round_append n s t fields (next_round s) (omega (arith, left-next_round s, h)) c h
        (next_round_more s t) (λ rest fs b d. drain_append n rest t fs b d)

continue_le :
    (g : Text → Fields → Fed) (s : Text) (fields : Fields) (r : Round) (n : ℕ)
    → left r ≤ n
    → length s ≤ n
    → ((rest : Text) (fs : Fields) → length rest + 1 ≤ n → length (g rest fs).decoder.buf ≤ n)
    → length (continue g s fields r).decoder.buf ≤ n
unfolding continue complete
continue_le g s fields waits n b h e = h
continue_le g s fields resets n b h e = omega arith
continue_le g s fields (field k v rest) n b h e = e rest (insert k v fields) b
continue_le g s [] (ends rest) n b h e = e rest [] b
continue_le g s (kv ∷ fields) (ends rest) n b h e = e rest [] b

-- What waits in the buffer was there before.
pub drain_le :
    (n : ℕ) (s : Text) (fields : Fields) → length (drain n s fields).decoder.buf ≤ length s
unfolding drain
drain_le zero s fields = omega arith
drain_le (suc n) s fields =
    continue_le (λ rest fs. drain n rest fs) s fields (next_round s) (length s) (left-next_round s)
      (omega arith) (λ rest fs b. omega (arith, b, drain_le n rest fs))

pub feed_fits :
    (d : Decoder) (a : Text)
    → length (d.buf ++ a) ≤ max_journal_buf
    → feed d a ≡ drain (length (d.buf ++ a)) (d.buf ++ a) d.fields
unfolding feed
feed_fits d a h = ground arith

-- What two parts are fed as.
abbrev both_fed : Fed → Fed → Fed
both_fed f g = record { done = f.done ++ g.done; decoder = g.decoder }

-- A datagram that is split anywhere is read like the whole: the entries of the two parts one after
-- the other, and the same decoder afterwards; given that all the bytes fit into the buffer, and that
-- the first part does not make the decoder drop its buffer.
pub feed_split :
    (d : Decoder) (a b : Text)
    → length (d.buf ++ (a ++ b)) ≤ max_journal_buf
    → is_calm (length (d.buf ++ a)) (d.buf ++ a) ≡ true
    → feed d (a ++ b) ≡ record {
      done = (feed d a).done ++ (feed (feed d a).decoder b).done;
      decoder = (feed (feed d a).decoder b).decoder;
    }
feed_split d a b h c =
    let s = d.buf ++ a in
    let f = drain (length s) s d.fields in
    let whole : length (s ++ b) ≤ max_journal_buf =
      omega (arith, ap length (append_assoc d.buf a b), h) in
    let part : length s ≤ max_journal_buf = omega (arith, length-append s b, whole) in
    let fits : length (f.decoder.buf ++ b) ≤ max_journal_buf = omega (
      arith,
      length-append f.decoder.buf b,
      length-append s b,
      drain_le (length s) s d.fields,
      whole,
    ) in
    let p : feed d (a ++ b) ≡ drain (length (s ++ b)) (s ++ b) d.fields =
      feed_fits d (a ++ b) h
      ∙ ap (λ u. drain (length u) u d.fields) (sym (append_assoc d.buf a b)) in
    let q : drain (length (s ++ b)) (s ++ b) d.fields ≡ after f b =
      drain_any (length (s ++ b)) (length s + length b) (s ++ b) d.fields (omega arith)
        (omega (arith, length-append s b))
      ∙ drain_append (length s) s b d.fields (omega arith) c in
    p
    ∙ q
    ∙ ap (both_fed f) (sym (feed_fits f.decoder b fits))
    ∙ ap (λ (g : Fed). both_fed g (feed g.decoder b)) (sym (feed_fits d a part))
