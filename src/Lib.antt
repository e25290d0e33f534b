-- ===== src/Lib.antt =====
-- yet-another-memory-bank: a local memory service for coding agents, written in Go. Agents send
-- observations (HTTP hooks) and memories (MCP tools) to a store in SQLite; memories are searched
-- by text and by embedding, fused by reciprocal rank, superseded, deleted and decayed; at the end
-- of a session the server may ask the agent to compact its observations into memories.
--
-- The parts, by file:
-- - Common: the names that all files share: Boolean tests, lists, tables (SELECT, UPDATE, DELETE
--   and COUNT over lists of rows), results `(value, error)` as `Outcome`, integers (Common/Int),
--   Go's sort.SliceStable (Common/Sort), the functions of package strings (Common/Texts), the values of
--   JSON (Common/Json), handlers as actions (Common/Action).
-- - Floats: float64 values as bit patterns, their operations a parameter.
-- - Search/Rrf: internal/search/rrf.go, `FuseRRF` as `fuse_rrf`, each loop a recursion on its list.
-- - Search/Vectors and Search/Hybrid: internal/search/hybrid.go, `vectorResults` as `vector_results`
--   and `Hybrid` as `hybrid`, which use Store/Text, Store/Embeddings, Embed and Search/Rrf; what
--   the embedder answers is an input.
-- - Store/Rows: internal/store/migrations, the tables, and the state `Db` of a `Store`.
-- - Store/Sessions, Store/Observations, Store/Audit, Store/Memories, Store/Embeddings,
--   Store/Imports, Store/Compaction: the methods of internal/store, under their own names; of
--   mcp_helpers.go, the reading of observations is in Store/Observations; of phase2_helpers.go,
--   the audit trail is in Store/Audit.
-- - Store/Removal: `DeleteMemories` of mcp_helpers.go and `SupersedeMemory` of compaction.go.
-- - Store/Text: `SearchMemories` and `ftsQuery` of internal/store/memories.go, over FTS5 as a
--   parameter.
-- - Store/Decay: `DecayMemories` of internal/store/compaction.go, over an arithmetic of float64 that
--   is a parameter.
-- - Store/Runs: sequences of calls of these methods, from a new store on.
-- - Store/Reports: the queries of mcp_helpers.go and phase2_helpers.go: the profiles and the status,
--   `Timeline`, `Export` and `VerifyMemory`, `FileHistory`, `Patterns`.
-- - Store/Migrations: internal/store/migrations.go, and `migrate` of internal/store/store.go: the versions of the
--   schema, and the scripts that are run, whose effect on the tables is a parameter.
-- - Codec, Secrets, Replay, Integrations: the libraries that handlers share, and internal/dedup,
--   internal/secrets, internal/replay and internal/integrations.
-- - Config: internal/config/config.go, `Default` and `Load`.
-- - Mcp: internal/mcp/server.go. Mcp/Arguments has the decoded structs and what a request is served
--   with (`Env`) and changes (`World`), Mcp/Dtos the values returned, Mcp/Listing the lists of tools,
--   resources and prompts, Mcp/Search, Mcp/Tools and Mcp/Reading the tools, Mcp/Resources the reading of
--   resources and prompts, and Mcp/Rpc the dispatch.
-- - Embed: internal/embed/ollama.go, `Client` from the reply of the server on, and `CircuitBreaker`.
-- - Server: internal/server/server.go. Server/Compaction has `requestCompaction`, Server/Context the
--   texts that are rendered for an agent, Server/Recorder the recorder of the logging, Server/Http the
--   requests, with the handlers (Http/Handlers) and the routes behind the authorisation (Http/Routes).
--   A handler calls Store, Secrets, Integrations, Server/Context and Server/Compaction, and the route
--   /mcp leads to Mcp/Rpc.
-- - Admin: internal/admin. Admin/Flags is the loop that all parsers of arguments share, Admin/Options has the options of
--   run.go, Admin/Commands the commands that use a store (child modules Searching and Dispatch), each from its
--   arguments and the stores at their paths (`Disk`) to an exit code, what it prints, and the stores; they use
--   Admin/Embed (embed.go) and Admin/Import with Admin/Transcript (import_jsonl.go). Admin/Doctor and Admin/Measuring
--   have doctor.go and the options of backup.go, bench.go and perf_seed.go.
-- - Bench: internal/bench. Bench/Metrics, Bench/Adapter and Bench/Runner have metrics.go, adapter.go, and
--   what runner.go and corpus.go do between reading a corpus and writing a report. Bench/Perf is the performance run of
--   perf.go, with its requests (Bench/Requests), types (Bench/Samples), summaries (Bench/Summary) and Bench/Scorecard.
-- - Command: cmd/mcb/main.go: which command is meant, the options of the server, and a server's run as a list of
--   requests and of ticks of the decay.
--
-- How the code is modelled:
-- - A method that writes takes the database and returns the new one; a transaction that fails
--   returns its error alone, since it is rolled back. `requestCompaction`, which is not one
--   transaction, returns the database beside its result in every case.
-- - A handler and a tool are actions (Common/Action): each takes the state and returns an outcome with
--   the state that it leaves, since an error does not undo the calls before it. What the code asks of its
--   surroundings in a request, such as the time, is a field of the environment of that request.
-- - The decoding of a struct by encoding/json is a parameter, from bytes to the struct or a refusal;
--   values that are marshalled are trees (Common/Json), and the marshalling is a parameter.
-- - A query is a condition, a stable sort and a `take` on the list of rows. Failures of SQLite
--   itself (I/O, a cancelled context) are not modelled; the errors that its constraints give are.
-- - Ids are natural numbers: an id that is not positive behaves as 0. Times and limits are
--   integers without wrap-around, as they stay far below 2^63. A count is a natural number.
-- - float64 and float32 values are bit patterns. zstd, FTS5, and the order in which Go ranges over a
--   map, are parameters. A prompt and the payload of an audit event are kept as the data they are
--   made from, as text and JSON are made by libraries.
-- - No definition needs fuel: every loop runs over a list.
--
-- Not modelled: of internal/admin, running bench and perf-seed, and the copying of the database for backup; of
-- internal/bench, the writing of reports, the reading of datasets and the HTTP client of the performance run; the rows that
-- internal/store/perf_seed.go generates; of cmd/mcb, listening, shutting down and signals; `Flush` and `Unwrap` of the recorder; the opening of files;
-- the HTTP request of the embedding client; panics and what the logger writes beside its level; JSON, TOML,
-- HTTP, zstd, SQLite and regular expressions themselves (libraries).
pub mod Common
pub mod Floats
pub mod Search
pub mod Store
pub mod Codec
pub mod Secrets
pub mod Replay
pub mod Config
pub mod Integrations
pub mod Mcp
pub mod Embed
pub mod Server
pub mod Admin
pub mod Bench
pub mod Command
mod Tests
