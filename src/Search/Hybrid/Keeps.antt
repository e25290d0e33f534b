-- ===== src/Search/Hybrid/Keeps.antt =====
-- What the hybrid search changes in the store: it touches what it finds, and nothing if it is to skip
-- that.
use yet_another_memory_bank.Common.{◌≡◌, true, Option, List, [], if_elim, Outcome, ok, err, ℕ}
use yet_another_memory_bank.Common.Int.{ℤ}
use yet_another_memory_bank.Embed.Breaker.{CircuitBreaker}
use yet_another_memory_bank.Search.Hybrid.{fused, combine, is_unavailable, hybrid_from, hybrid}
use yet_another_memory_bank.Search.Vectors.{Searcher, Config, Query, Result, config_of}
use yet_another_memory_bank.Store.Embeddings.{VectorCandidate}
use yet_another_memory_bank.Store.Memories.{Memory, touch_memories}
use yet_another_memory_bank.Store.Rows.{Db}

module _ {ℓ} (P : Db → Type ℓ) where
  -- what the end of the search keeps
  abbrev FusedKeeps : Searcher → Db → Config → Type ℓ
  FusedKeeps s db cfg =
      (bm25 : List Memory) (vector : List VectorCandidate) → P (fused s db cfg bm25 vector).1

  combine-keeps :
      (s : Searcher) (db : Db) (cfg : Config) (x : Outcome (List Memory))
      (y : Outcome (List VectorCandidate))
      → FusedKeeps s db cfg
      → P db
      → P (combine s db cfg x y).1
  unfolding combine
  combine-keeps s db cfg (ok bm25) (ok vector) k v = k bm25 vector
  combine-keeps s db cfg (ok bm25) (err x) k v = k bm25 []
  combine-keeps s db cfg (err y) (ok vector) k v = k [] vector
  combine-keeps s db cfg (err y) (err x) k v = v

  hybrid_from-keeps :
      (s : Searcher) (db : Db) (q : Query) (cfg : Config) (b : Option CircuitBreaker) (now : ℤ)
      (m : Outcome (List Memory))
      → FusedKeeps s db cfg
      → P db
      → P (hybrid_from s db q cfg b now m).0.1
  unfolding hybrid_from
  hybrid_from-keeps s db q cfg b now (ok bm25) k v = combine-keeps s db cfg (ok bm25) _ k v
  hybrid_from-keeps s db q cfg b now (err y) k v =
      if_elim (λ (r : (Outcome (List Result) × Db) × Option CircuitBreaker). P r.0.1)
        (is_unavailable y) (combine s db cfg (err y) _, _) ((err y, db), b)
        (combine-keeps s db cfg (err y) _ k v) v

  -- What touching memories keeps, the search keeps.
  pub hybrid-keeps :
      (s : Searcher) (db : Db) (q : Query) (b : Option CircuitBreaker) (now : ℤ)
      → ((ids : List ℕ) (at : ℤ) → P (touch_memories db ids at))
      → P db
      → P (hybrid s db q b now).0.1
  unfolding hybrid fused
  hybrid-keeps s db q b now k v =
      let cfg = config_of s q.limit in
      hybrid_from-keeps s db q cfg b now _
        (λ bm25 vector. if_elim P cfg.skip_touch db _ v (k _ cfg.now)) v

  -- A search that is not to touch keeps everything.
  pub hybrid-skip_keeps :
      (s : Searcher) (db : Db) (q : Query) (b : Option CircuitBreaker) (now : ℤ)
      → s.config.skip_touch ≡ true
      → P db
      → P (hybrid s db q b now).0.1
  unfolding hybrid fused config_of
  hybrid-skip_keeps s db q b now e v =
      hybrid_from-keeps s db q (config_of s q.limit) b now _ (λ bm25 vector. rw e v) v
