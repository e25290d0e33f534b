-- ===== src/Bench/Metrics.antt =====
-- internal/bench/metrics.go. The arithmetic of float64 is a parameter.
pub mod Hits
use yet_another_memory_bank.Common.{
  ℕ, zero, suc, ◌+◌, ◌-◌, String, Bool, true, false, ◌&&◌, ◌||◌, not, List, [], ◌∷◌, map,
  if◌then◌else◌, ◌==◌, ltb, leb, str_eq, blank, length, take, exists_where, rows_where,
}
use yet_another_memory_bank.Common.Int.{ℤ, pos, negsuc, pos_part, lt_ℤ, le_ℤ}
use yet_another_memory_bank.Common.Sort.{slice_stable}
use yet_another_memory_bank.Floats.{Float64}
use yet_another_memory_bank.Store.Sessions.{text_lt}

-- The operations of float64 and of the package math that the metrics use; `of_int` and `to_int` convert.
pub record MetricOps : Type 0 where
  pub zero : Float64
  pub one : Float64
  pub half : Float64
  pub most : Float64
  pub of_int : ℕ → Float64
  pub add : Float64 → Float64 → Float64
  pub mul : Float64 → Float64 → Float64
  pub div : Float64 → Float64 → Float64
  pub log2 : Float64 → Float64
  pub ceil : Float64 → Float64
  pub to_int : Float64 → ℤ
  pub eq : Float64 → Float64 → Bool

abbrev pub is_in : String → List String → Bool
is_in id ids = exists_where (λ x. str_eq x id) ids

-- the keys of the map, without the empty text
unfoldable pub set : List String → List String
set [] = []
set (item ∷ items) =
    let rest = set items in if blank item || is_in item rest then rest else item ∷ rest

-- the loop over the first ids, with the ids that were seen
unfoldable pub count_hits : List String → List String → List String → ℕ
count_hits gold seen [] = 0
count_hits gold seen (id ∷ ids) =
    let fresh = is_in id gold && not (is_in id seen) in
    let rest = count_hits gold (if fresh then id ∷ seen else seen) ids in
    if fresh then suc rest else rest

unfoldable pub hits_at : List String → List String → ℤ → ℕ
unfolding set count_hits
hits_at ranked gold k = count_hits (set gold) [] (take (pos_part k) ranked)

-- if k > len(ranked) { k = len(ranked) }
abbrev pub capped : ℤ → List String → ℕ
capped k ranked = if leb (length ranked) (pos_part k) then length ranked else pos_part k

-- k <= 0 || len(ranked) == 0 || len(gold) == 0
abbrev pub nothing_to_measure : List String → List String → ℤ → Bool
nothing_to_measure ranked gold k = le_ℤ k (pos 0) || length ranked == 0 || length gold == 0

module _ (fl : MetricOps) where
  unfoldable pub precision_at : List String → List String → ℤ → Float64
  unfolding hits_at
  precision_at ranked gold k =
      if nothing_to_measure ranked gold k
      then fl.zero
      else fl.div (fl.of_int (hits_at ranked gold (pos (capped k ranked))))
          (fl.of_int (capped k ranked))

  unfoldable pub recall_at : List String → List String → ℤ → Float64
  unfolding hits_at set
  recall_at ranked gold k =
      if nothing_to_measure ranked gold k
      then fl.zero
      else fl.div (fl.of_int (hits_at ranked gold k)) (fl.of_int (length (set gold)))

  unfoldable pub hit_at : List String → List String → ℤ → Float64
  unfolding hits_at
  hit_at ranked gold k = if ltb 0 (hits_at ranked gold k) then fl.one else fl.zero

  -- the loop from the index `i` on
  unfoldable pub reciprocal_rank : List String → ℕ → List String → Float64
  reciprocal_rank gold i [] = fl.zero
  reciprocal_rank gold i (id ∷ ids) =
      if is_in id gold then fl.div fl.one (fl.of_int (suc i)) else reciprocal_rank gold (suc i) ids

  unfoldable pub mrr : List String → List String → Float64
  unfolding set reciprocal_rank
  mrr ranked gold = if length (set gold) == 0 then fl.zero else reciprocal_rank (set gold) 0 ranked

  -- 1 / math.Log2(float64(i+2))
  abbrev pub gain : ℕ → Float64
  gain i = fl.div fl.one (fl.log2 (fl.of_int (i + 2)))

  unfoldable pub discounted : List String → ℕ → List String → Float64 → Float64
  discounted gold i [] dcg = dcg
  discounted gold i (id ∷ ids) dcg =
      discounted gold (suc i) ids (if is_in id gold then fl.add dcg (gain i) else dcg)

  -- the sum of the first `n` gains, in the order of the loop
  unfoldable pub ideal_gain : ℕ → Float64
  ideal_gain zero = fl.zero
  ideal_gain (suc n) = fl.add (ideal_gain n) (gain n)

  unfoldable pub ndcg_at : List String → List String → ℤ → Float64
  unfolding set discounted ideal_gain
  ndcg_at ranked gold k =
      if nothing_to_measure ranked gold k
      then fl.zero
      else let n = capped k ranked in
        let dcg = discounted (set gold) 0 (take n ranked) fl.zero in
        let idcg = ideal_gain (if ltb n (length (set gold)) then n else length (set gold)) in
        if fl.eq idcg fl.zero then fl.zero else fl.div dcg idcg

  -- the index, kept within the values
  abbrev pub index_within : ℤ → ℕ → ℕ
  index_within (negsuc i) n = 0
  index_within (pos zero) n = 0
  index_within (pos (suc i)) n = if leb n i then n - 1 else i

  abbrev pub value_at : List ℤ → ℕ → ℤ
  value_at [] i = pos 0
  value_at (v ∷ vs) zero = v
  value_at (v ∷ vs) (suc i) = value_at vs i

  unfoldable pub percentile : List ℤ → Float64 → ℤ
  percentile values p =
      let n = length values in
      if n == 0
      then pos 0
      else value_at (slice_stable lt_ℤ values)
          (index_within (fl.to_int (fl.ceil (fl.mul p (fl.of_int n)))) n)

pub record AggregateMetrics : Type 0 where
  pub p_at5 : Float64
  pub r_at5 : Float64
  pub r_at10 : Float64
  pub r_at20 : Float64
  pub hit_at5 : Float64
  pub mean_rr : Float64
  pub ndcg_at10 : Float64
  pub p50_latency_ms : ℤ
  pub p95_latency_ms : ℤ

pub record QueryResult : Type 0 where
  pub query_id : String
  pub query : String
  pub kind : String
  pub gold_ids : List String
  pub ranked_ids : List String
  pub latency_ms : ℤ
  pub metrics : AggregateMetrics

module _ (fl : MetricOps) where
  abbrev pub no_metrics : AggregateMetrics
  no_metrics = record {
    p_at5 = fl.zero;
    r_at5 = fl.zero;
    r_at10 = fl.zero;
    r_at20 = fl.zero;
    hit_at5 = fl.zero;
    mean_rr = fl.zero;
    ndcg_at10 = fl.zero;
    p50_latency_ms = pos 0;
    p95_latency_ms = pos 0;
  }

  -- both metrics, number by number
  abbrev pub each :
      (Float64 → Float64 → Float64) → AggregateMetrics → AggregateMetrics → AggregateMetrics
  each f a b = record {
    p_at5 = f a.p_at5 b.p_at5;
    r_at5 = f a.r_at5 b.r_at5;
    r_at10 = f a.r_at10 b.r_at10;
    r_at20 = f a.r_at20 b.r_at20;
    hit_at5 = f a.hit_at5 b.hit_at5;
    mean_rr = f a.mean_rr b.mean_rr;
    ndcg_at10 = f a.ndcg_at10 b.ndcg_at10;
    p50_latency_ms = a.p50_latency_ms;
    p95_latency_ms = a.p95_latency_ms;
  }

  -- the loop over the results
  unfoldable pub summed : AggregateMetrics → List QueryResult → AggregateMetrics
  summed out [] = out
  summed out (r ∷ rs) = summed (each fl.add out r.metrics) rs

  unfoldable pub aggregate : List QueryResult → AggregateMetrics
  unfolding summed percentile
  aggregate [] = no_metrics
  aggregate (r ∷ rs) =
      let n = fl.of_int (length (r ∷ rs)) in
      let latencies = map (λ q. q.latency_ms) (r ∷ rs) in
      let out = summed no_metrics (r ∷ rs) in
      record (each (λ x y. fl.div x n) out out) {
        p50_latency_ms = percentile fl latencies fl.half;
        p95_latency_ms = percentile fl latencies fl.most;
      }

  -- The map's keys in their order, with their values.
  unfoldable pub aggregate_by_type : List QueryResult → List (String × AggregateMetrics)
  unfolding aggregate set
  aggregate_by_type results =
      map (λ kind. (kind, aggregate (rows_where (λ r. str_eq r.kind kind) results)))
        (slice_stable text_lt (set (map (λ r. r.kind) results)))
