-- ===== src/Command.antt =====
-- cmd/mcb/main.go: the options of the server, and what changes its store while it runs: requests, and the ticks of the
-- decay.
pub mod Serving
use yet_another_memory_bank.Common.{
  String, Bool, false, Option, none, List, [], ◌∷◌, ◌++◌, if◌then◌else◌, str_eq, exists_where,
  ◌>>=◌, Outcome, ok, err, bad_argument, committed, database,
}
use yet_another_memory_bank.Common.Int.{ℤ, pos, lt_ℤ}
use yet_another_memory_bank.Admin.Flags.{Setter, parse}
use yet_another_memory_bank.Config.{
  Config, EmbeddingConfig, SearchConfig, MemoryConfig, CompactionConfig, Surroundings, load,
}
use yet_another_memory_bank.Mcp.Arguments.{World}
use yet_another_memory_bank.Search.Vectors
use yet_another_memory_bank.Server.Http.{Request, Options, HttpEnv}
use yet_another_memory_bank.Server.Http.Routes.{serve}
use yet_another_memory_bank.Store.Decay.{DecayOps, decay_memories}

pub record ServeOptions : Type 0 where
  pub db_path : String
  pub http : String
  pub dedup_window_seconds : ℤ
  pub session_start_top_n : ℤ
  pub bearer_token : String
  pub embedding : EmbeddingConfig
  pub search : SearchConfig
  pub memory : MemoryConfig
  pub compaction : CompactionConfig

-- What the first argument asks for.
pub data Invocation : Type 0 where
  version healthz serving administration unsupported panicking : Invocation

-- the commands that admin.Run is called for
abbrev pub admin_names : List String
admin_names =
    "migrate" ∷ "add" ∷ "search" ∷ "sessions" ∷ "backup" ∷ "doctor" ∷ "embed-missing"
    ∷ "embed-rebuild" ∷ "compact" ∷ "decay" ∷ "import-jsonl" ∷ "bench" ∷ "perf-seed" ∷ []

-- without an argument the command is "serve", but args[1:] is out of range then
unfoldable pub invocation_of : List String → Invocation
invocation_of [] = panicking
invocation_of (cmd ∷ rest) =
    if str_eq cmd "version"
    then version
    else if str_eq cmd "healthz"
    then healthz
    else if str_eq cmd "serve"
    then serving
    else if exists_where (λ n. str_eq cmd n) admin_names
    then administration
    else unsupported

module _ (e : Surroundings) where
  -- filtered and configPath
  abbrev pub ConfigArgs : Type 0
  ConfigArgs = List String × String

  unfoldable pub config_args : List String → Outcome ConfigArgs
  config_args args =
      parse (("--config", λ value s. ok (s.0, value)) ∷ []) (λ arg s. ok (s.0 ++ arg ∷ [], s.1))
        args ([], e.getenv "MCB_CONFIG")

  unfoldable pub options_of : Config → ServeOptions
  options_of cfg = record {
    db_path = cfg.storage.db_path;
    http = cfg.server.http_bind;
    dedup_window_seconds = cfg.capture.dedup_window_seconds;
    session_start_top_n = cfg.memory.session_start_top_n;
    bearer_token = e.getenv "MCB_BEARER_TOKEN";
    embedding = cfg.embedding;
    search = cfg.search;
    memory = cfg.memory;
    compaction = cfg.compaction;
  }

  abbrev pub set_http : Setter ServeOptions
  set_http value opts = ok (record opts { http = value })

  abbrev pub serve_flags : List (String × Setter ServeOptions)
  serve_flags =
      ("--db", λ value opts. ok (record opts { db_path = value }))
      ∷ ("--http", set_http)
      ∷ ("--http-bind", set_http)
      ∷ []

  unfoldable pub parse_serve_options : List String → Outcome ServeOptions
  unfolding config_args load options_of
  parse_serve_options args = do
    filtered ← config_args args
    cfg ← load e filtered.1
    parse serve_flags (λ arg opts. err bad_argument) filtered.0 (options_of cfg)

-- serverOpts
unfoldable pub server_options : ServeOptions → Options
server_options opts = record {
  bearer_token = opts.bearer_token;
  dedup_window_seconds = opts.dedup_window_seconds;
  session_start_top_n = opts.session_start_top_n;
  compaction = record {
    mode = opts.compaction.mode;
    min_observations = opts.compaction.min_observations;
    max_block_attempts = opts.compaction.max_block_attempts;
    attempt_ttl_seconds = opts.compaction.attempt_ttl_seconds;
    subagent_name = opts.compaction.subagent_name;
  };
}

-- internalmcp.Options.SearchConfig; the MCP server sets `now` and `skip_touch` for each search
unfoldable pub search_config : ServeOptions → Vectors.Config
search_config opts = record {
  bm25_top_k = opts.search.bm25_top_k;
  vector_top_k = opts.search.vector_top_k;
  final_top_k = opts.search.final_top_k;
  rrf_k = opts.search.rrf_k;
  max_per_session = opts.search.max_per_session;
  model = opts.embedding.model;
  dim = opts.embedding.dimensions;
  now = pos 0;
  skip_touch = false;
}

-- what is there only with Ollama as the provider
abbrev pub with_ollama : {A : Type 0} → ServeOptions → Option A → Option A
with_ollama opts x = if str_eq opts.embedding.provider "ollama" then x else none

-- The surroundings of a request, with MCPOptions and ReadinessProbe: what the embedder and the probe answer is given.
unfoldable pub configured : ServeOptions → HttpEnv → HttpEnv
unfolding search_config
configured opts env = record env {
  mcp = record env.mcp {
    searcher = record env.mcp.searcher {
      config = search_config opts;
      embedder = with_ollama opts env.mcp.searcher.embedder;
    };
  };
  probe = with_ollama opts env.probe;
}

-- What a running server meets: a request with its surroundings, or a tick at a time.
pub data Happening : Type 0 where
  request : (env : HttpEnv) (req : Request) → Happening
  tick : (now : ℤ) → Happening

-- What a tick does, if there are ticks: its result and its error are dropped.
unfoldable pub decay_tick : DecayOps → MemoryConfig → ℤ → World → World
decay_tick fl cfg now w =
    if lt_ℤ (pos 0) cfg.decay_interval_hours
    then record w {
      db = committed w.db (
          database (
            decay_memories fl w.db (record {
              now = now;
              tau_days = cfg.decay_tau_days;
              min_importance = cfg.min_importance;
            })));
    }
    else w

unfoldable pub serve_while : DecayOps → ServeOptions → List Happening → World → World
unfolding server_options configured decay_tick
serve_while fl opts [] w = w
serve_while fl opts (request env req ∷ rest) w =
    serve_while fl opts rest (serve (configured opts env) (server_options opts) req w).1
serve_while fl opts (tick now ∷ rest) w = serve_while fl opts rest (decay_tick fl opts.memory now w)
