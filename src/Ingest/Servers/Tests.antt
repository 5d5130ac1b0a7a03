-- ===== src/Ingest/Servers/Tests.antt =====
-- internal/ingest/http.go: the theorem on a concrete request.
use logdoc.Common.{◌≡◌, refl, none, some, [], ◌∷◌}
use logdoc.Common.Text.{Text, bytes}
use logdoc.Common.Int.{pos}
use logdoc.Ingest.Servers.{JsonRecord, handle_ingest}
use logdoc.Ingest.Servers.Atomic.{first_missing, reply_to, handle_ingest-reply_to}

abbrev plain : Text → JsonRecord
plain m = record {
  msg = m;
  ts = none;
  app = [];
  src = [];
  lvl = bytes "warn";
  pid = [];
  fields = [];
}

-- A body of two records, the second without a message.
handle_ingest-reply_to_example :
    handle_ingest (λ n body. some (plain body ∷ plain [] ∷ [])) (pos 0) 7 (bytes "hi")
    ≡ reply_to 7
        (plain (bytes "hi") ∷ plain [] ∷ [])
        (first_missing 0 (plain (bytes "hi") ∷ plain [] ∷ []))
handle_ingest-reply_to_example =
    handle_ingest-reply_to (λ n body. some (plain body ∷ plain [] ∷ [])) (pos 0) 7 (bytes "hi")
      (plain (bytes "hi")) (plain [] ∷ []) refl
