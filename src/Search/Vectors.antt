-- ===== src/Search/Vectors.antt =====
-- The vector search of internal/search/hybrid.go: `vectorResults`, `config` and `cosine`. What the
-- embedder answers is an input, and the arithmetic of `cosine` a parameter.
use yet_another_memory_bank.Common.{
  ℕ, String, Bool, false, ◌&&◌, ◌||◌, not, Option, none, some, List, [], ◌∷◌, map, if◌then◌else◌,
  ◌==◌, ltb, blank, length, take, Outcome, ok, err, no_model, wrong_dim,
}
use yet_another_memory_bank.Common.Int.{ℤ, pos, or_default, lt_ℤ}
use yet_another_memory_bank.Common.Sort.{slice_stable}
use yet_another_memory_bank.Floats.{Float64, FloatOps}
use yet_another_memory_bank.Store.Rows.{Db}
use yet_another_memory_bank.Store.Memories.{Memory}
use yet_another_memory_bank.Store.Embeddings.{VectorCandidate, vector_candidates}
use yet_another_memory_bank.Store.Text.{TextIndex}
use yet_another_memory_bank.Embed.Client.{positive_or, is_positive}
use yet_another_memory_bank.Embed.Breaker.{CircuitBreaker, is_open, record_failure, record_success}

-- `cfg.now()` is the field `now`.
pub record Config : Type 0 where
  pub bm25_top_k : ℤ
  pub vector_top_k : ℤ
  pub final_top_k : ℤ
  pub rrf_k : ℤ
  pub max_per_session : ℤ
  pub model : String
  pub dim : ℤ
  pub now : ℤ
  pub skip_touch : Bool

pub record Query : Type 0 where
  pub text : String
  pub project : String
  pub limit : ℤ

pub record Result : Type 0 where
  pub memory : Memory
  pub score : Float64
  pub bm25_rank : ℕ
  pub vec_rank : ℕ

-- What `Embed` returns, and `Model()` and `Dim()` after it if the embedder has them.
pub record Embedder : Type 0 where
  pub answer : Outcome (List ℕ)
  pub info : Option (String × ℤ)

-- The operations of float64 that `cosine` uses; `of_float32` widens a float32.
pub record CosineOps : Type 0 where
  pub of_float32 : ℕ → Float64
  pub mul : Float64 → Float64 → Float64
  pub div : Float64 → Float64 → Float64
  pub sqrt : Float64 → Float64

-- `Searcher`, its store apart, with what it uses from outside; `order` is the order in which Go
-- ranges over the map of `FuseRRF`.
pub record Searcher : Type 0 where
  pub floats : FloatOps
  pub cosine_ops : CosineOps
  pub index : TextIndex
  pub order : List ℕ → List ℕ
  pub embedder : Option Embedder
  pub config : Config

-- `config`
unfoldable pub config_of : Searcher → ℤ → Config
config_of s limit =
    let final = or_default s.config.final_top_k 10 in
    record s.config {
      bm25_top_k = pos (or_default s.config.bm25_top_k 50);
      vector_top_k = pos (or_default s.config.vector_top_k 50);
      final_top_k = if is_positive limit && lt_ℤ limit (pos final) then limit else pos final;
      rrf_k = pos (or_default s.config.rrf_k 60);
      max_per_session = pos (or_default s.config.max_per_session 3);
    }

-- the loop of `cosine`, with the sums dot, normA and normB
abbrev pub sums :
    FloatOps
    → CosineOps
    → List ℕ
    → List ℕ
    → Float64 × Float64 × Float64
    → Float64 × Float64 × Float64
sums fl co (a ∷ u) (b ∷ v) n =
    let af = co.of_float32 a in
    let bf = co.of_float32 b in
    sums fl co u v (fl.add n.0 (co.mul af bf), fl.add n.1 (co.mul af af), fl.add n.2 (co.mul bf bf))
sums fl co [] v n = n
sums fl co (a ∷ u) [] n = n

unfoldable pub cosine : FloatOps → CosineOps → List ℕ → List ℕ → Float64
cosine fl co a b =
    if length a == 0 || not (length a == length b)
    then fl.zero
    else let n = sums fl co a b (fl.zero, fl.zero, fl.zero) in
      if fl.eq n.1 fl.zero || fl.eq n.2 fl.zero
      then fl.zero
      else co.div n.0 (co.mul (co.sqrt n.1) (co.sqrt n.2))

-- scored
abbrev pub Scored : Type 0
Scored = VectorCandidate × Float64

abbrev pub scores_before : FloatOps → Scored → Scored → Bool
scores_before fl a b = if fl.eq a.1 b.1 then ltb a.0.memory.id b.0.memory.id else fl.lt b.1 a.1

abbrev pub with_score : Scored → VectorCandidate
with_score r = record r.0 { memory = record r.0.memory { score = r.1 } }

unfoldable pub rank_candidates : Searcher → List ℕ → ℤ → List VectorCandidate → List VectorCandidate
rank_candidates s query_vec top_k candidates = map with_score (
    take (or_default top_k 0) (
      slice_stable (scores_before s.floats)
        (map (λ c. (c, cosine s.floats s.cosine_ops query_vec c.vector)) candidates)))

-- model and dimension: of the configuration, or else of the embedder, or else of the vector
abbrev pub model_of : Config → Embedder → String
model_of cfg e = if blank cfg.model then (elim e.info [ none ↦ "" | some i ↦ i.0 ]) else cfg.model

abbrev pub dim_of : Config → Embedder → List ℕ → ℕ
dim_of cfg e vec =
    positive_or cfg.dim (elim e.info [ none ↦ length vec | some i ↦ positive_or i.1 (length vec) ])

-- from the query's vector on
unfoldable pub nearest :
    Searcher → Db → Query → Config → Embedder → List ℕ → Outcome (List VectorCandidate)
nearest s db q cfg e vec =
    if blank (model_of cfg e)
    then err no_model
    else if not (dim_of cfg e vec == length vec)
    then err wrong_dim
    else elim (vector_candidates db q.project (model_of cfg e) (dim_of cfg e vec) (pos 0)) [
      | err x ↦ err x
      | ok candidates ↦ ok (rank_candidates s vec cfg.vector_top_k candidates)
    ]

-- The breaker, if there is one, asked, and told of a result.
abbrev pub asked : Option CircuitBreaker → ℤ → Bool × Option CircuitBreaker
asked none now = (false, none)
asked (some b) now = ((is_open b now).0, some (is_open b now).1)

abbrev pub failed : Option CircuitBreaker → ℤ → Option CircuitBreaker
failed none now = none
failed (some b) now = some (record_failure b now)

abbrev pub succeeded : Option CircuitBreaker → Option CircuitBreaker
succeeded none = none
succeeded (some b) = some (record_success b)

-- from the answer of the embedder on
unfoldable pub answered :
    Searcher
    → Db
    → Query
    → Config
    → Embedder
    → Option CircuitBreaker
    → ℤ
    → Outcome (List ℕ)
    → Outcome (List VectorCandidate) × Option CircuitBreaker
answered s db q cfg e b now (err x) = (err x, failed b now)
answered s db q cfg e b now (ok vec) = (nearest s db q cfg e vec, succeeded b)

unfoldable pub vector_results :
    Searcher
    → Db
    → Query
    → Config
    → Option CircuitBreaker
    → ℤ
    → Option Embedder
    → Outcome (List VectorCandidate) × Option CircuitBreaker
vector_results s db q cfg b now none = (ok [], b)
vector_results s db q cfg b now (some e) =
    if (asked b now).0
    then (ok [], (asked b now).1)
    else answered s db q cfg e (asked b now).1 now e.answer
