-- ===== src/Ingest/Journald/Tests.antt =====
-- internal/ingest/journald.go: the theorems on concrete datagrams.
use logdoc.Common.{◌≡◌, refl, [], ◌∷◌, ◌++◌, arith}
use logdoc.Common.Text.{Text, bytes}
use logdoc.Samples.{plain_runtime}
use logdoc.Ingest.Bytes.{cut_at, read_full}
use logdoc.Ingest.Journald.{new_decoder, feed, next_round, line_round, binary_field}
use logdoc.Ingest.Journald.Chunks.Split.{feed_split, is_calm}
use logdoc.Ingest.Journald.Bounds.{Datagram, IsBounded, after_datagrams, after_datagrams-IsBounded}

-- A text field and a binary one, split within the size of the binary field.
abbrev first_part : Text
first_part = bytes "MESSAGE=hi\nX\n" ++ (2 ∷ 0 ∷ 0 ∷ [])

abbrev second_part : Text
second_part = 0 ∷ 0 ∷ 0 ∷ 0 ∷ 0 ∷ bytes "a\n\n\n"

feed_split_example : feed new_decoder (first_part ++ second_part) ≡ record {
  done =
      (feed new_decoder first_part).done
      ++ (feed (feed new_decoder first_part).decoder second_part).done;
  decoder = (feed (feed new_decoder first_part).decoder second_part).decoder;
}
unfolding is_calm next_round line_round binary_field cut_at read_full
feed_split_example = feed_split new_decoder first_part second_part (omega arith) refl

abbrev datagram : Datagram
datagram = record { key = bytes "10.0.0.7:99"; ip = bytes "10.0.0.7"; now = 0; chunk = first_part }

after_datagrams-IsBounded_example :
    IsBounded (after_datagrams plain_runtime (datagram ∷ datagram ∷ []) [])
after_datagrams-IsBounded_example =
    after_datagrams-IsBounded plain_runtime (datagram ∷ datagram ∷ []) [] (omega arith, tt)
