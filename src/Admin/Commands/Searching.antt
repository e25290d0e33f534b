-- ===== src/Admin/Commands/Searching.antt =====
-- runSearch and searchMemories of internal/admin/run.go.
use yet_another_memory_bank.Common.{
  String, false, not, Option, none, some, List, map, if◌then◌else◌, str_eq, fts5_unavailable,
  Outcome, ok, err,
}
use yet_another_memory_bank.Common.Action.{Action, ◌>>=◌, query}
use yet_another_memory_bank.Common.Int.{pos}
use yet_another_memory_bank.Admin.Commands.{
  AdminEnv, Disk, Exit, nothing, found, on_store, with_options, with_text,
}
use yet_another_memory_bank.Admin.Embed.{model_name, new_embedding_client}
use yet_another_memory_bank.Admin.Options.{Options, parse_options}
use yet_another_memory_bank.Config.{Config, load}
use yet_another_memory_bank.Embed.Breaker.{CircuitBreaker}
use yet_another_memory_bank.Embed.Client.{Client, embed, current_dim}
use yet_another_memory_bank.Search.Hybrid.{hybrid}
use yet_another_memory_bank.Search.Vectors.{Result, Searcher}
use yet_another_memory_bank.Store.Memories.{Memory}
use yet_another_memory_bank.Store.Rows.{Db}
use yet_another_memory_bank.Store.Text.{search_memories}

module _ (e : AdminEnv) where
  unfoldable pub text_search : Options → String → Action Db (List Memory)
  text_search opts text =
      query λ db. search_memories e.floats e.index db opts.project text opts.limit

  -- the searcher, whose embedder asks the client
  unfoldable pub admin_searcher : Config → Client → Searcher
  unfolding model_name
  admin_searcher cfg c = record {
    floats = e.floats;
    cosine_ops = e.cosine_ops;
    index = e.index;
    order = e.order;
    embedder = some (record {
      answer = (embed c (e.replies 0)).0;
      info = some (model_name cfg, pos (current_dim (embed c (e.replies 0)).1));
    });
    config = record {
      bm25_top_k = cfg.search.bm25_top_k;
      vector_top_k = cfg.search.vector_top_k;
      final_top_k = cfg.search.final_top_k;
      rrf_k = cfg.search.rrf_k;
      max_per_session = cfg.search.max_per_session;
      model = "";
      dim = pos 0;
      now = e.now;
      skip_touch = false;
    };
  }

  -- for what the hybrid search returns
  unfoldable pub of_hybrid :
      Options
      → String
      → (Outcome (List Result) × Db) × Option CircuitBreaker
      → Outcome (List Memory) × Db
  unfolding text_search
  of_hybrid opts text ((ok results, db), b) = (ok (map (λ r. r.memory) results), db)
  of_hybrid opts text ((err x, db), b) = text_search opts text db

  -- for the client, if there is one; no circuit breaker stands before it
  unfoldable pub search_by : Options → String → Config → Outcome Client → Action Db (List Memory)
  unfolding admin_searcher of_hybrid text_search
  search_by opts text cfg (err x) db = text_search opts text db
  search_by opts text cfg (ok c) db = of_hybrid opts text (
      hybrid (admin_searcher cfg c) db
        (record { text = text; project = opts.project; limit = opts.limit }) none e.now)

  -- `searchMemories` of the command
  unfoldable pub command_search : Options → String → Action Db (List Memory)
  unfolding search_by load new_embedding_client
  command_search opts text = do
    cfg ← query λ _. load e.surface.surroundings ""
    if not (str_eq cfg.embedding.provider "ollama")
        then text_search opts text
        else search_by opts text cfg (new_embedding_client cfg)

  abbrev pub search_exit : Outcome (List Memory) → Exit
  search_exit (ok memories) = (0, found memories)
  search_exit (err fts5_unavailable) = (2, nothing)
  search_exit (err x) = (1, nothing)

  unfoldable pub run_search : List String → Disk → Exit × Disk
  unfolding command_search on_store parse_options
  run_search args = with_options e (parse_options e.surface args) λ p. with_text e p.rest λ text.
      on_store e p.opts.db_path
        λ db. let r = command_search p.opts text db in (search_exit r.0, r.1)
