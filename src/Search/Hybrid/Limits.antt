-- ===== src/Search/Hybrid/Limits.antt =====
-- How many results the hybrid search gives.
use mathlib.Core.Path.{subst}
use yet_another_memory_bank.Common.{
  ℕ, suc, min, zero, ◌≤◌, ◌≡◌, refl, ◌&&◌, Option, List, [], arith, if◌then◌else◌, if_elim, length,
  length-map, Outcome, ok, err, Ensures,
}
use yet_another_memory_bank.Common.Int.{ℤ, pos, negsuc, or_default, lt_ℤ}
use yet_another_memory_bank.Store.Rows.{Db}
use yet_another_memory_bank.Store.Memories.{Memory}
use yet_another_memory_bank.Store.Embeddings.{VectorCandidate}
use yet_another_memory_bank.Embed.Client.{is_positive}
use yet_another_memory_bank.Embed.Breaker.{CircuitBreaker}
use yet_another_memory_bank.Search.Rrf.Capped.{fuse_rrf-length}
use yet_another_memory_bank.Search.Hybrid.{
  fuse, fused, combine, is_unavailable, hybrid_from, hybrid,
}
use yet_another_memory_bank.Search.Vectors.{Searcher, Config, Query, Result, config_of}

abbrev AtMost : ℕ → Outcome (List Result) → Type 0
AtMost n = Ensures (λ rs. length rs ≤ n)

fused-AtMost :
    (s : Searcher) (db : Db) (cfg : Config) (bm25 : List Memory) (vector : List VectorCandidate)
    → AtMost (or_default cfg.final_top_k 10) (fused s db cfg bm25 vector).0
unfolding fused fuse
fused-AtMost s db cfg bm25 vector =
    rw (length-map _ (fuse s cfg bm25 vector))
      (fuse_rrf-length s.floats s.order _ _ cfg.rrf_k cfg.final_top_k cfg.max_per_session)

combine-AtMost :
    (s : Searcher) (db : Db) (cfg : Config) (x : Outcome (List Memory))
    (y : Outcome (List VectorCandidate))
    → AtMost (or_default cfg.final_top_k 10) (combine s db cfg x y).0
unfolding combine
combine-AtMost s db cfg (ok bm25) (ok vector) = fused-AtMost s db cfg bm25 vector
combine-AtMost s db cfg (ok bm25) (err x) = fused-AtMost s db cfg bm25 []
combine-AtMost s db cfg (err y) (ok vector) = fused-AtMost s db cfg [] vector
combine-AtMost s db cfg (err y) (err x) = tt

hybrid_from-AtMost :
    (s : Searcher) (db : Db) (q : Query) (cfg : Config) (b : Option CircuitBreaker) (now : ℤ)
    (x : Outcome (List Memory))
    → AtMost (or_default cfg.final_top_k 10) (hybrid_from s db q cfg b now x).0.0
unfolding hybrid_from
hybrid_from-AtMost s db q cfg b now (ok bm25) = combine-AtMost s db cfg (ok bm25) _
hybrid_from-AtMost s db q cfg b now (err y) =
    if_elim
      (λ (r : (Outcome (List Result) × Db) × Option CircuitBreaker).
        AtMost (or_default cfg.final_top_k 10) r.0.0)
      (is_unavailable y) (combine s db cfg (err y) _, _) ((err y, db), b)
      (combine-AtMost s db cfg (err y) _) tt

-- the number of results asked for: the limit, if it is positive and less than `final`
abbrev pub wanted : ℤ → ℕ → ℕ
wanted (pos zero) final = final
wanted (pos (suc n)) final = min (suc n) final
wanted (negsuc n) final = final

default_of_wanted :
    (limit : ℤ) (k : ℕ)
    → or_default (if is_positive limit && lt_ℤ limit (pos (suc k)) then limit else pos (suc k)) 10
      ≡ wanted limit (suc k)
default_of_wanted (pos zero) k = refl
default_of_wanted (negsuc n) k = refl
default_of_wanted (pos (suc n)) k = ground arith

final_top_k-wanted :
    (limit top : ℤ)
    → or_default
        (if is_positive limit && lt_ℤ limit (pos (or_default top 10))
          then limit
          else pos (or_default top 10))
        10
      ≡ wanted limit (or_default top 10)
final_top_k-wanted limit (pos zero) = default_of_wanted limit 9
final_top_k-wanted limit (pos (suc n)) = default_of_wanted limit n
final_top_k-wanted limit (negsuc n) = default_of_wanted limit 9

-- The hybrid search gives at most `q.Limit` results, where that is positive, and at most
-- `FinalTopK`, which is 10 if it is not set.
pub hybrid-AtMost :
    (s : Searcher) (db : Db) (q : Query) (b : Option CircuitBreaker) (now : ℤ)
    → Ensures
        (λ rs. length rs ≤ wanted q.limit (or_default s.config.final_top_k 10))
        (hybrid s db q b now).0.0
unfolding hybrid config_of
hybrid-AtMost s db q b now =
    subst (λ n. Ensures (λ (rs : List Result). length rs ≤ n) (hybrid s db q b now).0.0)
      (final_top_k-wanted q.limit s.config.final_top_k)
      (hybrid_from-AtMost s db q (config_of s q.limit) b now _)
