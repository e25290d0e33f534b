-- ===== src/Mcp/Search.antt =====
-- `search` of internal/mcp/server.go: the hybrid search, or the text search where there is no
-- embedder or the hybrid search fails.
use yet_another_memory_bank.Common.{
  ℕ, String, Bool, not, Option, none, some, List, map, if◌then◌else◌, Outcome, ok, err,
}
use yet_another_memory_bank.Common.Action.{Action, ◌>>=◌, ◌>>◌, pure, query, modify}
use yet_another_memory_bank.Common.Int.{ℤ, pos, clamp_limit}
use yet_another_memory_bank.Embed.Breaker.{CircuitBreaker}
use yet_another_memory_bank.Mcp.Arguments.{Env, World, on_db}
use yet_another_memory_bank.Search.Hybrid.{hybrid}
use yet_another_memory_bank.Search.Vectors.{Embedder, Result, Searcher}
use yet_another_memory_bank.Store.Memories.{Memory, touch_memories}
use yet_another_memory_bank.Store.Rows.{Db}
use yet_another_memory_bank.Store.Text.{search_memories}

-- `normalizedLimit`
abbrev pub normalized_limit : ℤ → ℕ → ℕ → ℤ
normalized_limit value default max = pos (clamp_limit value default max)

unfoldable pub search_text : Env → String → String → ℤ → Bool → Action Db (List Memory)
search_text env text project limit touch = do
  memories ←
      query λ db. search_memories env.searcher.floats env.searcher.index db project text limit
  modify λ db. if touch then touch_memories db (map (λ m. m.id) memories) (env.now 0) else db
  pure memories

-- the searcher of a request
unfoldable pub searcher_of : Env → Bool → Searcher
searcher_of env touch = record env.searcher {
  config = record env.searcher.config { skip_touch = not touch; now = env.now 0 };
}

-- for what the hybrid search returns
unfoldable pub after_hybrid :
    Env
    → String
    → String
    → ℤ
    → Bool
    → (Outcome (List Result) × Db) × Option CircuitBreaker
    → Outcome (List Memory) × World
after_hybrid env text project limit touch ((ok results, db), b) =
    (ok (map (λ r. r.memory) results), record { db = db; breaker = b })
after_hybrid env text project limit touch ((err e, db), b) =
    on_db (search_text env text project limit touch) (record { db = db; breaker = b })

-- for the embedder, if there is one
unfoldable pub search_with :
    Env → Option Embedder → String → String → ℤ → Bool → Action World (List Memory)
unfolding search_text after_hybrid
search_with env none text project limit touch w = on_db (search_text env text project limit touch) w
search_with env (some e) text project limit touch w = after_hybrid env text project limit touch (
    hybrid (searcher_of env touch) w.db (record { text = text; project = project; limit = limit })
      w.breaker env.breaker_now)

unfoldable pub search : Env → String → String → ℤ → Bool → Action World (List Memory)
unfolding search_with
search env text project limit touch = search_with env env.searcher.embedder text project limit touch
