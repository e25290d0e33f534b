-- ===== src/Config.antt =====
-- internal/config/config.go: the configuration, from the defaults, a file and the environment. The
-- TOML decoder and the parsers of strconv are parameters.
pub mod Valid
use yet_another_memory_bank.Common.{
  ◌>>=◌, ℕ, String, Bool, true, false, ◌&&◌, ◌||◌, not, Option, none, some, List, [], ◌∷◌,
  if◌then◌else◌, blank, Outcome, ok, err, bad_argument,
}
use yet_another_memory_bank.Common.Int.{ℤ, pos, le_ℤ, lt_ℤ}
use yet_another_memory_bank.Floats.{Float64, FloatOps}

pub record StorageConfig : Type 0 where
  pub db_path : String

pub record ServerConfig : Type 0 where
  pub http_bind : String

pub record CaptureConfig : Type 0 where
  pub dedup_window_seconds : ℤ

pub record MemoryConfig : Type 0 where
  pub session_start_top_n : ℤ
  pub decay_tau_days : ℤ
  pub min_importance : Float64
  pub decay_interval_hours : ℤ

pub record EmbeddingConfig : Type 0 where
  pub provider : String
  pub ollama_url : String
  pub model : String
  pub dimensions : ℤ
  pub timeout_ms : ℤ
  pub circuit_breaker_failures : ℤ
  pub circuit_breaker_cooldown_ms : ℤ

pub record SearchConfig : Type 0 where
  pub bm25_top_k : ℤ
  pub vector_top_k : ℤ
  pub final_top_k : ℤ
  pub rrf_k : ℤ
  pub max_per_session : ℤ

pub record CompactionConfig : Type 0 where
  pub mode : String
  pub min_observations : ℤ
  pub max_block_attempts : ℤ
  pub attempt_ttl_seconds : ℤ
  pub subagent_name : String

pub record Config : Type 0 where
  pub storage : StorageConfig
  pub server : ServerConfig
  pub capture : CaptureConfig
  pub memory : MemoryConfig
  pub embedding : EmbeddingConfig
  pub search : SearchConfig
  pub compaction : CompactionConfig

-- `Default`; the minimal importance is the float64 0.05.
unfoldable pub default_config : Config
default_config = record {
  storage = record { db_path = "/var/lib/mcb/memory.db" };
  server = record { http_bind = "0.0.0.0:3411" };
  capture = record { dedup_window_seconds = pos 300 };
  memory = record {
    session_start_top_n = pos 8;
    decay_tau_days = pos 30;
    min_importance = 4587366580439587226;
    decay_interval_hours = pos 24;
  };
  embedding = record {
    provider = "none";
    ollama_url = "";
    model = "nomic-embed-text";
    dimensions = pos 0;
    timeout_ms = pos 30000;
    circuit_breaker_failures = pos 3;
    circuit_breaker_cooldown_ms = pos 120000;
  };
  search = record {
    bm25_top_k = pos 50;
    vector_top_k = pos 50;
    final_top_k = pos 10;
    rrf_k = pos 60;
    max_per_session = pos 3;
  };
  compaction = record {
    mode = "subagent";
    min_observations = pos 5;
    max_block_attempts = pos 2;
    attempt_ttl_seconds = pos 600;
    subagent_name = "mcb-compactor";
  };
}

-- os.Getenv, os.ReadFile, toml.Unmarshal over a configuration, and the parsers of strconv, which refuse
-- what they cannot parse.
pub record Surroundings : Type 0 where
  pub getenv : String → String
  pub read_file : String → Option (List ℕ)
  pub unmarshal : List ℕ → Config → Option Config
  pub atoi : String → Option ℤ
  pub parse_int : String → Option ℤ
  pub parse_float : String → Option Float64
  pub floats : FloatOps

abbrev pub Step : Type 0
Step = Config → Outcome Config

abbrev pub refused : Bool → ℤ → Bool
refused positive n = (positive && le_ℤ n (pos 0)) || (not positive && lt_ℤ n (pos 0))

-- from the answer of the parser on
unfoldable pub assigned : Bool → (ℤ → Config → Config) → Config → Option ℤ → Outcome Config
assigned positive set cfg none = err bad_argument
assigned positive set cfg (some n) = if refused positive n then err bad_argument else ok (set n cfg)

module _ (e : Surroundings) where
  -- the configuration before the environment is read
  unfoldable pub base : String → Outcome Config
  base path = if blank path then ok default_config else (elim (e.read_file path) [
    | none ↦ err bad_argument
    | some bytes ↦ elim (e.unmarshal bytes default_config) [
      | none ↦ err bad_argument
      | some cfg ↦ ok cfg
    ]
  ])

  -- an assignment of a variable that is set
  unfoldable pub text_env : String → (String → Config → Config) → Step
  text_env name set cfg = if blank (e.getenv name) then ok cfg else ok (set (e.getenv name) cfg)

  unfoldable pub apply_int_env : String → (ℤ → Config → Config) → Bool → Step
  unfolding assigned
  apply_int_env name set positive cfg =
      if blank (e.getenv name) then ok cfg else assigned positive set cfg (e.atoi (e.getenv name))

  unfoldable pub apply_int64_env : String → (ℤ → Config → Config) → Bool → Step
  unfolding assigned
  apply_int64_env name set positive cfg =
      if blank (e.getenv name)
      then ok cfg
      else assigned positive set cfg (e.parse_int (e.getenv name))

  abbrev pub refused_float : Bool → Float64 → Bool
  refused_float positive x =
      (positive && (e.floats.lt x 0 || e.floats.eq x 0)) || (not positive && e.floats.lt x 0)

  unfoldable pub apply_float_env : String → (Float64 → Config → Config) → Bool → Step
  apply_float_env name set positive cfg =
      if blank (e.getenv name) then ok cfg else (elim (e.parse_float (e.getenv name)) [
        | none ↦ err bad_argument
        | some x ↦ if refused_float positive x then err bad_argument else ok (set x cfg)
      ])

  -- the variables, in the order in which `Load` reads them
  abbrev pub steps : List Step
  steps =
      text_env "MCB_STORAGE_DB_PATH"
        (λ v c. record c { storage = record c.storage { db_path = v } })
      ∷ text_env "MCB_SERVER_HTTP_BIND"
          (λ v c. record c { server = record c.server { http_bind = v } })
      ∷ apply_int64_env "MCB_CAPTURE_DEDUP_WINDOW_SECONDS"
          (λ v c. record c { capture = record c.capture { dedup_window_seconds = v } }) true
      ∷ apply_int_env "MCB_MEMORY_SESSION_START_TOP_N"
          (λ v c. record c { memory = record c.memory { session_start_top_n = v } }) true
      ∷ apply_int_env "MCB_MEMORY_DECAY_TAU_DAYS"
          (λ v c. record c { memory = record c.memory { decay_tau_days = v } }) true
      ∷ apply_float_env "MCB_MEMORY_MIN_IMPORTANCE"
          (λ v c. record c { memory = record c.memory { min_importance = v } }) false
      ∷ apply_int_env "MCB_MEMORY_DECAY_INTERVAL_HOURS"
          (λ v c. record c { memory = record c.memory { decay_interval_hours = v } }) false
      ∷ text_env "MCB_EMBEDDING_PROVIDER"
          (λ v c. record c { embedding = record c.embedding { provider = v } })
      ∷ text_env "MCB_EMBEDDING_OLLAMA_URL"
          (λ v c. record c { embedding = record c.embedding { ollama_url = v } })
      ∷ text_env "MCB_EMBEDDING_MODEL"
          (λ v c. record c { embedding = record c.embedding { model = v } })
      ∷ apply_int_env "MCB_EMBEDDING_DIMENSIONS"
          (λ v c. record c { embedding = record c.embedding { dimensions = v } }) false
      ∷ apply_int_env "MCB_EMBEDDING_TIMEOUT_MS"
          (λ v c. record c { embedding = record c.embedding { timeout_ms = v } }) true
      ∷ apply_int_env "MCB_EMBEDDING_CIRCUIT_BREAKER_FAILURES"
          (λ v c. record c { embedding = record c.embedding { circuit_breaker_failures = v } }) true
      ∷ apply_int_env "MCB_EMBEDDING_CIRCUIT_BREAKER_COOLDOWN_MS"
          (λ v c. record c { embedding = record c.embedding { circuit_breaker_cooldown_ms = v } })
          true
      ∷ apply_int_env "MCB_SEARCH_BM25_TOP_K"
          (λ v c. record c { search = record c.search { bm25_top_k = v } }) true
      ∷ apply_int_env "MCB_SEARCH_VECTOR_TOP_K"
          (λ v c. record c { search = record c.search { vector_top_k = v } }) true
      ∷ apply_int_env "MCB_SEARCH_FINAL_TOP_K"
          (λ v c. record c { search = record c.search { final_top_k = v } }) true
      ∷ apply_int_env "MCB_SEARCH_RRF_K"
          (λ v c. record c { search = record c.search { rrf_k = v } }) true
      ∷ apply_int_env "MCB_SEARCH_MAX_PER_SESSION"
          (λ v c. record c { search = record c.search { max_per_session = v } }) true
      ∷ text_env "MCB_COMPACTION_MODE"
          (λ v c. record c { compaction = record c.compaction { mode = v } })
      ∷ text_env "MCB_COMPACTION_SUBAGENT_NAME"
          (λ v c. record c { compaction = record c.compaction { subagent_name = v } })
      ∷ apply_int_env "MCB_COMPACTION_MIN_OBSERVATIONS"
          (λ v c. record c { compaction = record c.compaction { min_observations = v } }) true
      ∷ apply_int_env "MCB_COMPACTION_MAX_BLOCK_ATTEMPTS"
          (λ v c. record c { compaction = record c.compaction { max_block_attempts = v } }) true
      ∷ apply_int64_env "MCB_COMPACTION_ATTEMPT_TTL_SECONDS"
          (λ v c. record c { compaction = record c.compaction { attempt_ttl_seconds = v } }) true
      ∷ []

  abbrev pub run_steps : List Step → Step
  run_steps [] cfg = ok cfg
  run_steps (step ∷ rest) cfg = step cfg >>= run_steps rest

  unfoldable pub load : String → Outcome Config
  unfolding base text_env apply_int_env apply_int64_env apply_float_env
  load path = base path >>= run_steps steps
