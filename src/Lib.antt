-- ===== src/Lib.antt =====
-- A model of LogDoc, a log server in one binary, with proofs about its core.
--
-- The program takes log entries in, and hands every entry to several consumers: the batcher that
-- writes to the store, the hub of live tails, the alert engine and the extractor of the service
-- map. Queries and live tails select entries by a plan. Which file models which part:
--
--   Common          the strings, maps, integers and results of Go, with their lemmas
--   Samples         concrete values for the tests
--   Model           internal/model/entry.go: levels and entries
--     Model.Levels  the names of levels
--   Query.Plan      internal/query/plan.go: ParsePlan, Matches
--     Query.Plan.Limits, Query.Plan.Filter
--   Tail.Hub        internal/tail/hub.go: Append, Subscribe and its cancel function
--     Tail.Hub.Stream, Tail.Hub.Stream.Received, Tail.Hub.Isolation
--   Storage.Batcher internal/storage/batcher.go: Append, TryAppend, Close, loop, flushWithRetry
--     Storage.Batcher.Conservation, Storage.Batcher.Retry, Storage.Batcher.Bounds
--   Notify.Match    internal/notify/match.go: compileMatch, Cond.compile
--     Notify.Match.Meaning and the modules below it
--   Notify.Rule     internal/notify/notify.go: buildRule
--     Notify.Rule.Built
--   Notify.Engine   internal/notify/notify.go: Append, tick, countFire, dispatch's choice
--     Notify.Engine.Keeps, Notify.Engine.Firing, Notify.Engine.Window, Notify.Engine.Window.Slides
--   Notify.Registry internal/notify/rules.go: SetRule, DeleteRule, ToRule, toDTO; New
--     Notify.Registry.Keeps, Notify.Registry.Api, Notify.Registry.Dto
--   Graph.Edges     internal/graph/graph.go: origins and keys
--   Graph.Extractor internal/graph/extractor.go: Append, linkGroup, bumpEdge, flush, evictGroups
--     Graph.Extractor.Counts, Graph.Extractor.Shape
--   Auth.Store      internal/auth/store.go: the statements on the tables of users and tokens
--     Auth.Store.Rows
--   Auth.Jwt        internal/auth/jwt.go: signJWT, verifyJWT
--   Auth.Password   internal/auth/password.go: hashPassword, verifyPassword
--   Auth.Service    internal/auth/service.go: Identify, Login, UpsertUser, DeleteUser, tokens
--     Auth.Service.Credentials
--     Auth.Service.Statements     UpsertUser, DeleteUser and guardLastAdmin by their statements;
--       Auth.Service.Statements.Alone, Auth.Service.Statements.Others,
--       Auth.Service.Statements.Admins, Auth.Service.Statements.Rows, Auth.Service.Statements.Counts
--   Pipeline.Names  internal/pipeline/pipeline.go: parseLevelStrict, parseLevelLoose
--     Pipeline.Names.Agree
--   Pipeline.Steps  internal/pipeline/steps.go: what each kind of step does
--     Pipeline.Steps.Cap
--   Pipeline.Engine internal/pipeline/pipeline.go: compileWhen, Append
--     Pipeline.Engine.Keeps
--   Ingest.Bytes    reading of bytes as the decoders of internal/ingest do it
--   Ingest.Runtime  what they take from Go's library; Ingest.Marks: what their entries share
--   Ingest.Syslog   internal/ingest/syslog.go: EntryFromSyslog, parsePRI
--     Ingest.Syslog.Tables, Ingest.Syslog.Priority, Ingest.Syslog.Marked
--     Ingest.Syslog.Codes, Ingest.Syslog.Written: lines as RFC 5424 has them
--     Ingest.Syslog.Structured    parseSD; Ingest.Syslog.Structured.Rendered
--     Ingest.Syslog.Bodies        parse5424, parse3164
--     Ingest.Syslog.Frames        readSyslogFrame, handleConn, udpLoop
--       Ingest.Syslog.Frames.Stream, Ingest.Syslog.Frames.Progress
--   Ingest.Journald internal/ingest/journald.go: feed, loop
--     Ingest.Journald.Mapping     entryFromJournal, journalTime
--     Ingest.Journald.Chunks, Ingest.Journald.Chunks.Split, Ingest.Journald.Bounds
--   Ingest.Ldformat internal/ingest/ldformat.go: readKey, parseLDEvent, ParseLDStream
--     Ingest.Ldformat.Mapping     EntryFromLD, parseTsrc, parseLDLevel
--     Ingest.Ldformat.Written, Ingest.Ldformat.Written.Events, Ingest.Ldformat.Progress
--   Ingest.Python   internal/ingest/python.go: the opcodes of unpickle, one by one
--     Ingest.Python.Memory        the values, and the dicts that they share
--     Ingest.Python.Opcodes       the switch and the loop of unpickle
--     Ingest.Python.Record        pyString, entryFromPython, record, frames
--     Ingest.Python.Pickled, Ingest.Python.Pickled.Batch, Ingest.Python.Pickled.Whole
--     Ingest.Python.Progress
--     Ingest.Python.Rendered, Ingest.Python.Cycle
--   Ingest.Servers  internal/ingest/http.go: NewHTTPHandler; native.go: handleConn
--     Ingest.Servers.Atomic
--
-- An operation is a function from a state to a state, with what it returns; methods of an object
-- under a mutex are atomic, so a history is a list of events, and every interleaving is one of
-- these lists. A goroutine with a channel is the same: the batcher's queue is a list, the choice of
-- its select is an event. The Service of internal/auth has no mutex: Auth.Service has its calls one
-- at a time, and Auth.Service.Statements has UpsertUser and DeleteUser as sequences of statements,
-- which are atomic as the database has one connection, and histories in which those of calls that
-- overlap come in any order. The cached count is a natural number in Auth.Service, which is exact
-- while no two calls overlap; by statements it is the difference of what was added and taken.
--
-- Strings are lists of bytes. Instants are nanoseconds from Go's zero time. Counters that are
-- uint64 in the code wrap at 2 ^ 64 here; an int that only counts (fires, buckets) is a natural
-- number without a bound. Recursion is structural: the attempts of a flush count down from
-- MaxRetries, which is never 0, so no fuel is needed there. The decoders loop on fuel: each round
-- takes a byte at least, so the number of bytes, and one more where the last round takes none, is
-- enough. The depth to which pyString recurses is fuel of its own.
--
-- A reader of the decoders is the list of the bytes that are still to come, each below 256, and its
-- only error is the end. handleConn of syslog.go reads the clock once for a connection in the model.
-- A Go map is an association list, so a loop over it has one order. A dict of a pickle is a
-- reference to a heap, as a Go map is shared by all that hold it; a slice is its items, which is
-- exact unless a list out of the memo is appended to more than once. The pickles that
-- Ingest.Python.Pickled writes have no GET: Python writes one where a text object comes again.
--
-- From Go's library the model takes, as parameters: regular expressions, lower case, trimming of
-- spaces and the parsing of times (Common.Platform), the parsing and printing of durations
-- (Notify.Registry.Dto), the store of the batcher (Storage.Batcher.Inserter), base64, hashes
-- and JSON (Auth.Jwt.Signing, Auth.Password.Hashing), and captures and JSON (Pipeline.Steps.Tools).
-- Auth.Service takes the functions of jwt.go and password.go by a record, Crypto, whose session
-- functions are those of Auth.Jwt at the time of the call, with a random salt for Auth.Password.
-- The decoders take the parsing of times and of floats, and the address of the sender, which
-- hostOnly makes of it (Ingest.Runtime, Ingest.Python.Opcodes.Floats, Ingest.Python.Record.Moments), and the
-- decoding of JSON (Ingest.Servers).
-- A statement of the database in Auth.Service fails or does what its SQL says.
--
-- Not modelled: sockets, the other handlers of HTTP, and gRPC, the SQL of ClickHouse and of the
-- service map, sending to other services, files, log messages and the text of events, since these
-- are I/O or formatting; the OTLP server of internal/ingest, grok patterns and the catalog of
-- internal/graph; pkg/sdk/pluginpb, which is generated.
pub mod Common
pub mod Samples
pub mod Model
pub mod Notify
pub mod Query
pub mod Tail
pub mod Storage
pub mod Graph
pub mod Auth
pub mod Pipeline
pub mod Ingest
