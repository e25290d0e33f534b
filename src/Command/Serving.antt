-- ===== src/Command/Serving.antt =====
-- cmd/mcb/main.go: the store of a running server, and the options that it runs with.
use yet_another_memory_bank.Common.{
  ◌≡◌, refl, ℕ, zero, suc, true, String, Bool, Option, List, [], ◌∷◌, arith, if_elim, err, Ensures,
  ok, Ensures-value, Ensures-and, Ensures-imp, bad_argument,
}
use yet_another_memory_bank.Common.Int.{ℤ, pos, negsuc, or_default, lt_ℤ}
use yet_another_memory_bank.Admin.Flags.{parse}
use yet_another_memory_bank.Admin.Flags.Keeps.{parse-Ensures}
use yet_another_memory_bank.Command.{
  ServeOptions, Happening, request, tick, options_of, config_args, serve_flags, parse_serve_options,
  server_options, search_config, configured, decay_tick, serve_while,
}
use yet_another_memory_bank.Config.{Config, MemoryConfig, Surroundings, base, load}
use yet_another_memory_bank.Config.Valid.{IsValid, is_positive, load-IsValid}
use yet_another_memory_bank.Embed.Breaker.{CircuitBreaker}
use yet_another_memory_bank.Mcp.Arguments.{World}
use yet_another_memory_bank.Search.Vectors.{Searcher, config_of}
use yet_another_memory_bank.Server.Compaction.{normalize_compaction}
use yet_another_memory_bank.Server.Http.{with_defaults}
use yet_another_memory_bank.Server.Http.Keeps.{serve-keeps}
use yet_another_memory_bank.Store.Decay.{DecayOps}
use yet_another_memory_bank.Store.Runs.{decay, perform, new_db}
use yet_another_memory_bank.Store.Runs.Invariant.{StoreOk, perform-StoreOk, new_db-StoreOk}
use yet_another_memory_bank.Store.Observations.{Zstd}

module _ (z : Zstd) (fl : DecayOps) where
  decay_tick-StoreOk :
      (cfg : MemoryConfig) (now : ℤ) (w : World)
      → StoreOk w.db
      → StoreOk (decay_tick fl cfg now w).db
  unfolding decay_tick perform
  decay_tick-StoreOk cfg now w v =
      if_elim (λ (x : World). StoreOk x.db) (lt_ℤ (pos 0) cfg.decay_interval_hours) _ w
        (perform-StoreOk z fl w.db
          (decay (record {
            now = now;
            tau_days = cfg.decay_tau_days;
            min_importance = cfg.min_importance;
          }))
          v)
        v

  serve_while-StoreOk :
      (opts : ServeOptions) (happenings : List Happening) (w : World)
      → StoreOk w.db
      → StoreOk (serve_while fl opts happenings w).db
  unfolding serve_while
  serve_while-StoreOk opts [] w v = v
  serve_while-StoreOk opts (request env req ∷ rest) w v = serve_while-StoreOk opts rest _ (
      serve-keeps (configured opts env) (server_options opts) fl StoreOk req w
        (λ db c k. perform-StoreOk (configured opts env).codec.zstd fl db c) v)
  serve_while-StoreOk opts (tick now ∷ rest) w v =
      serve_while-StoreOk opts rest _ (decay_tick-StoreOk opts.memory now w v)

-- Whatever requests a server with a new store gets, and whenever the decay ticks between them, the memory tables and
-- the sessions of its store satisfy their invariants after them.
pub serve_while-new_db-StoreOk :
    (z : Zstd) (fl : DecayOps) (opts : ServeOptions) (happenings : List Happening) (fts5 : Bool)
    (b : Option CircuitBreaker)
    → StoreOk (serve_while fl opts happenings (record { db = new_db fts5; breaker = b })).db
serve_while-new_db-StoreOk z fl opts happenings fts5 b =
    serve_while-StoreOk z fl opts happenings _ (new_db-StoreOk fts5)

-- The numbers that the server runs with, after its defaults, and those of its search where a query has no limit, are
-- those of the configuration.
abbrev pub KeepsNumbers : Searcher → Config → ServeOptions → Type 0
KeepsNumbers s cfg opts =
    let d = with_defaults (server_options opts) in
    let q = config_of (record s { config = search_config opts }) (pos 0) in
    ((d.dedup_window_seconds ≡ cfg.capture.dedup_window_seconds)
      × (d.session_start_top_n ≡ cfg.memory.session_start_top_n)
      × (d.compaction.min_observations ≡ cfg.compaction.min_observations)
      × (d.compaction.max_block_attempts ≡ cfg.compaction.max_block_attempts)
      × (d.compaction.attempt_ttl_seconds ≡ cfg.compaction.attempt_ttl_seconds))
    × ((q.bm25_top_k ≡ cfg.search.bm25_top_k)
        × (q.vector_top_k ≡ cfg.search.vector_top_k)
        × (q.final_top_k ≡ cfg.search.final_top_k)
        × (q.rrf_k ≡ cfg.search.rrf_k)
        × (q.max_per_session ≡ cfg.search.max_per_session))

or_default-positive : (n : ℤ) (d : ℕ) → is_positive n ≡ true → pos (or_default n d) ≡ n
or_default-positive (pos zero) d h = ground (arith, h)
or_default-positive (pos (suc n)) d h = refl
or_default-positive (negsuc n) d h = ground (arith, h)

module _ (e : Surroundings) (s : Searcher) (cfg : Config) where
  options_of-KeepsNumbers : IsValid e.floats cfg → KeepsNumbers s cfg (options_of e cfg)
  unfolding options_of server_options search_config config_of with_defaults normalize_compaction
  options_of-KeepsNumbers v = (
    (
      or_default-positive cfg.capture.dedup_window_seconds 300 (ground (arith, v)),
      or_default-positive cfg.memory.session_start_top_n 8 (ground (arith, v)),
      or_default-positive cfg.compaction.min_observations 5 (ground (arith, v)),
      or_default-positive cfg.compaction.max_block_attempts 2 (ground (arith, v)),
      or_default-positive cfg.compaction.attempt_ttl_seconds 600 (ground (arith, v)),
    ),
    (
      or_default-positive cfg.search.bm25_top_k 50 (ground (arith, v)),
      or_default-positive cfg.search.vector_top_k 50 (ground (arith, v)),
      or_default-positive cfg.search.final_top_k 10 (ground (arith, v)),
      or_default-positive cfg.search.rrf_k 60 (ground (arith, v)),
      or_default-positive cfg.search.max_per_session 3 (ground (arith, v)),
    ),
  )

  flags-KeepNumbers :
      (args : List String) (opts : ServeOptions)
      → KeepsNumbers s cfg opts
      → Ensures
          (KeepsNumbers s cfg)
          (parse (serve_flags e) (λ arg opts. err bad_argument) args opts)
  unfolding server_options search_config
  flags-KeepNumbers args opts v =
      parse-Ensures (KeepsNumbers s cfg) (serve_flags e) (λ arg opts. err bad_argument)
        ((λ value o k. k), ((λ value o k. k), ((λ value o k. k), tt))) (λ value o k. tt) args opts v

-- If the configuration that a file gives is valid, and it is loaded from the file that the arguments or the environment
-- name, the server that is started with the arguments, where they are accepted, runs with the loaded configuration's
-- DedupWindowSeconds, SessionStartTopN, MinObservations, MaxBlockAttempts and AttemptTTLSeconds and, in a search whose
-- query has no limit, with its BM25TopK, VectorTopK, FinalTopK, RRFK and MaxPerSession: no default is put in place of
-- one of these.
pub parse_serve_options-KeepsNumbers :
    (e : Surroundings) (s : Searcher) (args : List String)
    → ((path : String) → Ensures (IsValid e.floats) (base e path))
    → Ensures
        (λ filtered.
          Ensures
            (λ cfg. Ensures (KeepsNumbers s cfg) (parse_serve_options e args))
            (load e filtered.1))
        (config_args e args)
unfolding parse_serve_options
parse_serve_options-KeepsNumbers e s args h = Ensures-value _ (config_args e args) λ filtered named.
    Ensures-imp _ _ (load e filtered.1)
      (λ cfg r.
        rw (named, r.0)
          (flags-KeepNumbers e s cfg filtered.0 (options_of e cfg)
            (options_of-KeepsNumbers e s cfg r.1)))
      (Ensures-and (λ cfg. load e filtered.1 ≡ ok cfg) (IsValid e.floats) (load e filtered.1)
        (Ensures-value _ (load e filtered.1) (λ cfg loaded. loaded))
        (load-IsValid e filtered.1 (h filtered.1)))
