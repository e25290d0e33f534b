-- ===== src/Bench/Summary.antt =====
-- internal/bench/perf.go: the summaries of the samples, and what misses its budget.
pub mod Counted
use Prim.Native.String.{◌++◌ as append_text}
use yet_another_memory_bank.Common.{
  ℕ, zero, suc, ◌-◌, String, Bool, true, false, ◌||◌, not, List, [], ◌∷◌, ◌++◌, map, if◌then◌else◌,
  ◌==◌, ltb, leb, str_eq, blank, or_text, length, exists_where, rows_where, Outcome, ok, err, ◌>>=◌,
  bad_argument,
}
use yet_another_memory_bank.Common.Int.{ℤ, pos, pos_part, le_ℤ}
use yet_another_memory_bank.Common.Json.{Value}
use yet_another_memory_bank.Common.Sort.{slice_stable}
use yet_another_memory_bank.Common.Texts.{concat, joined_by}
use yet_another_memory_bank.Admin.Doctor.{trim_slashes}
use yet_another_memory_bank.Bench.Metrics.{MetricOps, is_in}
use yet_another_memory_bank.Bench.Requests.{Formats, PerfEndpoint, perf_endpoints}
use yet_another_memory_bank.Bench.Samples.{
  PerfOps, PerfSample, PerfEndpointStats, PerfOptions, PerfResult, Sent, unbuilt, failed, cut,
  answered,
}
use yet_another_memory_bank.Floats.{Float64}
use yet_another_memory_bank.Store.Sessions.{text_lt}

module _ {A : Type 0} where
  abbrev pub element_at : A → List A → ℕ → A
  element_at none_such [] i = none_such
  element_at none_such (v ∷ vs) zero = v
  element_at none_such (v ∷ vs) (suc i) = element_at none_such vs i

  -- the numbers 0.50 to 0.99 that it is called with keep the index within the values
  unfoldable pub percentile_of : MetricOps → A → (A → A → Bool) → List A → Float64 → A
  percentile_of fl nil less values p =
      element_at nil (slice_stable less values)
        (pos_part (fl.to_int (fl.mul (fl.of_int (length values - 1)) p)))

abbrev pub distinct_keys : List String → List String
distinct_keys [] = []
distinct_keys (k ∷ ks) = let rest = distinct_keys ks in if is_in k rest then rest else k ∷ rest

abbrev pub is_failed : PerfSample → Bool
is_failed s = not (blank s.error) || leb 500 s.status || s.status == 0

-- StatusCounts[status]++
abbrev pub count_status : ℕ → List (ℕ × ℕ) → List (ℕ × ℕ)
count_status status [] = (status, 1) ∷ []
count_status status ((s, n) ∷ counts) =
    let rest = count_status status counts in
    if s == status then (s, suc n) ∷ counts else (s, n) ∷ rest

abbrev pub count_statuses : List (ℕ × ℕ) → List PerfSample → List (ℕ × ℕ)
count_statuses counts [] = counts
count_statuses counts (s ∷ ss) = count_statuses (count_status s.status counts) ss

module _ (e : PerfOps) where
  abbrev pub perf_budget_p95 : String → Float64
  perf_budget_p95 group = e.metric.of_int (
      if str_eq group "capture"
      then 100
      else if str_eq group "context"
      then 150
      else if str_eq group "compaction"
      then 150
      else if str_eq group "replay"
      then 250
      else if str_eq group "mcp"
      then 500
      else 250)

  abbrev pub sum_latency : Float64 → List PerfSample → Float64
  sum_latency total [] = total
  sum_latency total (s ∷ ss) = sum_latency (e.metric.add total s.latency_ms) ss

  abbrev pub max_latency : Float64 → List PerfSample → Float64
  max_latency most [] = most
  max_latency most (s ∷ ss) = max_latency (if e.lt most s.latency_ms then s.latency_ms else most) ss

  -- the reasons that a summary misses its budget
  abbrev pub miss_reasons : Float64 → Float64 → ℕ → List String
  miss_reasons p95 budget errors =
      (if e.lt budget p95
        then concat ("p95 " ∷ e.show_ms p95 ∷ "ms > " ∷ e.show_ms budget ∷ "ms" ∷ []) ∷ []
        else [])
      ++ (if ltb 0 errors then append_text "errors " (e.formats.decimal errors) ∷ [] else [])

  unfoldable pub summarize_perf_group : PerfSample → List PerfSample → PerfEndpointStats
  unfolding percentile_of
  summarize_perf_group first others =
      let samples = first ∷ others in
      let latency = percentile_of e.metric e.metric.zero e.lt (map (λ s. s.latency_ms) samples) in
      let bytes = percentile_of e.metric 0 ltb (map (λ s. s.response_bytes) samples) in
      let total = sum_latency e.metric.zero samples in
      let workers = e.metric.of_int (if leb first.concurrency 1 then 1 else first.concurrency) in
      let errors = length (rows_where is_failed samples) in
      let budget = perf_budget_p95 first.group in
      let reasons = miss_reasons (latency e.metric.most) budget errors in
      record {
        group = first.group;
        name = first.name;
        method = first.method;
        path = first.path;
        concurrency = first.concurrency;
        requests = length samples;
        errors = errors;
        status_counts = count_statuses [] samples;
        p50_ms = latency e.metric.half;
        p90_ms = latency e.p90;
        p95_ms = latency e.metric.most;
        p99_ms = latency e.p99;
        max_ms = max_latency e.metric.zero samples;
        rps =
            if e.lt e.metric.zero total
            then e.metric.div (e.metric.of_int (length samples))
                (e.metric.div (e.metric.div total (e.metric.of_int 1000)) workers)
            else e.metric.zero;
        response_bytes_p50 = bytes e.metric.half;
        response_bytes_p95 = bytes e.metric.most;
        budget = budget;
        budget_status = if length reasons == 0 then "ok" else "miss";
        budget_miss_reasons = reasons;
        elapsed_milliseconds = e.metric.to_int (e.metric.div total workers);
      }

  abbrev pub key_of : PerfSample → String
  key_of s = concat (s.group ∷ "\0" ∷ s.name ∷ "\0" ∷ e.formats.decimal s.concurrency ∷ [])

  -- the loop over the keys; each has a sample
  unfoldable pub summarize_keys : List PerfSample → List String → List PerfEndpointStats
  unfolding summarize_perf_group
  summarize_keys samples [] = []
  summarize_keys samples (key ∷ keys) = elim (rows_where (λ s. str_eq (key_of s) key) samples) [
    | [] ↦ summarize_keys samples keys
    | first ∷ others ↦ summarize_perf_group first others ∷ summarize_keys samples keys
  ]

  unfoldable pub summarize_perf : List PerfSample → List PerfEndpointStats
  unfolding summarize_keys
  summarize_perf samples =
      summarize_keys samples (slice_stable text_lt (distinct_keys (map key_of samples)))

  unfoldable pub perf_budget_misses : List PerfEndpointStats → List String
  perf_budget_misses summaries =
      map
        (λ s. concat (
          s.group
          ∷ "/"
          ∷ s.name
          ∷ "@"
          ∷ e.formats.decimal s.concurrency
          ∷ ": "
          ∷ joined_by ", " s.budget_miss_reasons
          ∷ []))
        (rows_where (λ s. str_eq s.budget_status "miss") summaries)
