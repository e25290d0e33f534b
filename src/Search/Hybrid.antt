-- ===== src/Search/Hybrid.antt =====
-- internal/search/hybrid.go: text and vector search, fused. What the embedder answers is an input,
-- and the arithmetic of `cosine` a parameter.
pub mod Fallback
pub mod Limits
pub mod Keeps
use yet_another_memory_bank.Common.{
  ℕ, Bool, true, false, Option, List, [], ◌∷◌, ◌++◌, map, if◌then◌else◌, ◌==◌, Error, Outcome, ok,
  err, fts5_unavailable,
}
use yet_another_memory_bank.Common.Int.{ℤ, pos}
use yet_another_memory_bank.Store.Rows.{Db}
use yet_another_memory_bank.Store.Memories.{Memory, touch_memories}
use yet_another_memory_bank.Store.Embeddings.{VectorCandidate}
use yet_another_memory_bank.Store.Text.{search_memories}
use yet_another_memory_bank.Embed.Breaker.{CircuitBreaker}
use yet_another_memory_bank.Search.Rrf.{Ranked, fuse_rrf}
use yet_another_memory_bank.Search.Vectors.{
  Config, Query, Result, Searcher, config_of, vector_results,
}

abbrev pub ranked_memory : Memory → ℕ → ℕ → Ranked
ranked_memory m bm25_rank vec_rank = record {
  id = m.id;
  session_id = m.session_id;
  score = 0;
  bm25_rank = bm25_rank;
  vec_rank = vec_rank;
}

-- with the rank `i + 1` at the index `i`
abbrev pub ranked_bm25 : ℕ → List Memory → List Ranked
ranked_bm25 i [] = []
ranked_bm25 i (m ∷ ms) = ranked_memory m (ℕ.suc i) 0 ∷ ranked_bm25 (ℕ.suc i) ms

abbrev pub ranked_vector : ℕ → List VectorCandidate → List Ranked
ranked_vector i [] = []
ranked_vector i (c ∷ cs) = ranked_memory c.memory 0 (ℕ.suc i) ∷ ranked_vector (ℕ.suc i) cs

-- the zero value of `Memory`
abbrev pub no_memory : Memory
no_memory = record {
  id = 0;
  project = "";
  text = "";
  tier = "";
  source = "";
  importance = 0;
  session_id = "";
  created_at = pos 0;
  updated_at = pos 0;
  accessed_at = pos 0;
  superseded_by = 0;
  score = 0;
}

-- memories[id], after the assignments of the list: the last one with the id counts
abbrev pub last_with : ℕ → List Memory → Memory → Memory
last_with id [] m = m
last_with id (x ∷ xs) m = last_with id xs (if x.id == id then x else m)

abbrev pub result_of : List Memory → Ranked → Result
result_of memories item = record {
  memory = record (last_with item.id memories no_memory) { score = item.score };
  score = item.score;
  bm25_rank = item.bm25_rank;
  vec_rank = item.vec_rank;
}

-- from the two result lists on
unfoldable pub fuse : Searcher → Config → List Memory → List VectorCandidate → List Ranked
fuse s cfg bm25 vector =
    fuse_rrf s.floats s.order (ranked_bm25 0 bm25) (ranked_vector 0 vector) cfg.rrf_k
      cfg.final_top_k cfg.max_per_session

-- the results, and the database after TouchMemories
unfoldable pub fused :
    Searcher → Db → Config → List Memory → List VectorCandidate → Outcome (List Result) × Db
fused s db cfg bm25 vector =
    let items = fuse s cfg bm25 vector in
    (
      ok (map (result_of (bm25 ++ map (λ c. c.memory) vector)) items),
      (if cfg.skip_touch then db else touch_memories db (map (λ i. i.id) items) cfg.now),
    )

-- for each result of the two searches
unfoldable pub combine :
    Searcher
    → Db
    → Config
    → Outcome (List Memory)
    → Outcome (List VectorCandidate)
    → Outcome (List Result) × Db
combine s db cfg (ok bm25) (ok vector) = fused s db cfg bm25 vector
combine s db cfg (ok bm25) (err x) = fused s db cfg bm25 []
combine s db cfg (err y) (ok vector) = fused s db cfg [] vector
combine s db cfg (err y) (err x) = (err x, db)

-- errors.Is(bm25Err, store.ErrFTS5Unavailable)
abbrev pub is_unavailable : Error → Bool
is_unavailable fts5_unavailable = true
is_unavailable _ = false

-- The circuit breaker is asked at the time `now`.
unfoldable pub hybrid_from :
    Searcher
    → Db
    → Query
    → Config
    → Option CircuitBreaker
    → ℤ
    → Outcome (List Memory)
    → (Outcome (List Result) × Db) × Option CircuitBreaker
hybrid_from s db q cfg b now (ok bm25) =
    let v = vector_results s db q cfg b now s.embedder in (combine s db cfg (ok bm25) v.0, v.1)
hybrid_from s db q cfg b now (err y) =
    let v = vector_results s db q cfg b now s.embedder in
    if is_unavailable y then (combine s db cfg (err y) v.0, v.1) else ((err y, db), b)

unfoldable pub hybrid :
    Searcher
    → Db
    → Query
    → Option CircuitBreaker
    → ℤ
    → (Outcome (List Result) × Db) × Option CircuitBreaker
hybrid s db q b now =
    let cfg = config_of s q.limit in
    hybrid_from s db q cfg b now
      (search_memories s.floats s.index db q.project q.text cfg.bm25_top_k)
