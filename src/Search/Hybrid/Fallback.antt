-- ===== src/Search/Hybrid/Fallback.antt =====
-- What the hybrid search does when the embedder fails.
use yet_another_memory_bank.Common.{
  ◌≡◌, refl, ap, ◌∙◌, ◌⊎◌, inl, inr, String, true, Option, none, some, List, [], if_elim,
  Bool-cases, blank, Outcome, ok, err, is_ok, Error,
}
use yet_another_memory_bank.Common.Int.{ℤ}
use yet_another_memory_bank.Store.Rows.{Db}
use yet_another_memory_bank.Store.Memories.{Memory}
use yet_another_memory_bank.Store.Text.{is_word, fts_query, search_memories}
use yet_another_memory_bank.Embed.Breaker.{CircuitBreaker}
use yet_another_memory_bank.Search.Hybrid.{fuse, fused, combine, hybrid_from, hybrid}
use yet_another_memory_bank.Search.Vectors.{
  Searcher, Embedder, Config, Query, config_of, answered, vector_results, asked,
}

-- With FTS5, the text search does not fail.
search_memories-is_ok :
    (s : Searcher) (db : Db) (project text : String) (limit : ℤ)
    → db.fts5 ≡ true
    → is_ok (search_memories s.floats s.index db project text limit) ≡ true
unfolding search_memories
search_memories-is_ok s db project text limit h = rw h (
    if_elim (λ (m : Outcome (List Memory)). is_ok m ≡ true)
      (blank (fts_query (is_word s.index) text)) (ok []) (ok _) refl refl)

-- a searcher without an embedder
abbrev pub text_only : Searcher → Searcher
text_only s = record s { embedder = none }

vector_results-fails :
    (s : Searcher) (db : Db) (q : Query) (cfg : Config) (b : Option CircuitBreaker) (now : ℤ)
    (e : Embedder) (x : Error)
    → e.answer ≡ err x
    → ((vector_results s db q cfg b now (some e)).0 ≡ ok [])
      ⊎ ((vector_results s db q cfg b now (some e)).0 ≡ err x)
unfolding vector_results answered
vector_results-fails s db q cfg b now e x h = elim (Bool-cases (asked b now).0) [
  | inl k ↦ inl (rw k refl)
  | inr k ↦ inr (rw (k, h) refl)
]

hybrid_from-fails :
    (s : Searcher) (db : Db) (q : Query) (cfg : Config) (b : Option CircuitBreaker) (now : ℤ)
    (e : Embedder) (x : Error) (m : Outcome (List Memory))
    → s.embedder ≡ some e
    → e.answer ≡ err x
    → is_ok m ≡ true
    → (hybrid_from s db q cfg b now m).0 ≡ (hybrid_from (text_only s) db q cfg b now m).0
unfolding hybrid_from combine fused fuse vector_results
hybrid_from-fails s db q cfg b now e x (err y) k h o = cc
hybrid_from-fails s db q cfg b now e x (ok bm25) k h o =
    ap (λ (o : Option Embedder). combine s db cfg (ok bm25) (vector_results s db q cfg b now o).0) k
    ∙ elim (vector_results-fails s db q cfg b now e x h) [
      | inl r ↦ ap (combine s db cfg (ok bm25)) r
      | inr r ↦ ap (combine s db cfg (ok bm25)) r
    ]

-- With FTS5, an embedder that fails does not show: the results, and what the search changes in the
-- store, are those of a searcher without an embedder, whatever the circuit breaker.
pub hybrid-fails :
    (s : Searcher) (db : Db) (q : Query) (b : Option CircuitBreaker) (now : ℤ) (e : Embedder)
    (x : Error)
    → db.fts5 ≡ true
    → s.embedder ≡ some e
    → e.answer ≡ err x
    → (hybrid s db q b now).0 ≡ (hybrid (text_only s) db q b now).0
unfolding hybrid config_of
hybrid-fails s db q b now e x on k h =
    hybrid_from-fails s db q (config_of s q.limit) b now e x _ k h
      (search_memories-is_ok s db q.project q.text _ on)
