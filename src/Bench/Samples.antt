-- ===== src/Bench/Samples.antt =====
-- The types of internal/bench/perf.go.
use yet_another_memory_bank.Common.{ℕ, String, Bool, List}
use yet_another_memory_bank.Common.Int.{ℤ}
use yet_another_memory_bank.Bench.Metrics.{MetricOps}
use yet_another_memory_bank.Bench.Requests.{Formats}
use yet_another_memory_bank.Floats.{Float64}

-- What float64 has beside the operations of the metrics: `<`, the numbers 0.90 and 0.99, and the verbs %.3f and %.1f.
pub record PerfOps : Type 0 where
  pub metric : MetricOps
  pub lt : Float64 → Float64 → Bool
  pub p90 : Float64
  pub p99 : Float64
  pub show_ms : Float64 → String
  pub show_rate : Float64 → String
  pub formats : Formats

-- What becomes of a request: it cannot be built, it fails after a time, its response breaks off after the status, or it
-- is answered with so many bytes.
pub data Sent : Type 0 where
  unbuilt : String → Sent
  failed : String → Float64 → Sent
  cut : String → Float64 → ℕ → Sent
  answered : Float64 → ℕ → ℕ → Sent

pub record PerfSample : Type 0 where
  pub group : String
  pub name : String
  pub method : String
  pub path : String
  pub concurrency : ℕ
  pub status : ℕ
  pub latency_ms : Float64
  pub response_bytes : ℕ
  pub error : String

pub record PerfEndpointStats : Type 0 where
  pub group : String
  pub name : String
  pub method : String
  pub path : String
  pub concurrency : ℕ
  pub requests : ℕ
  pub errors : ℕ
  pub status_counts : List (ℕ × ℕ)
  pub p50_ms : Float64
  pub p90_ms : Float64
  pub p95_ms : Float64
  pub p99_ms : Float64
  pub max_ms : Float64
  pub rps : Float64
  pub response_bytes_p50 : ℕ
  pub response_bytes_p95 : ℕ
  pub budget : Float64
  pub budget_status : String
  pub budget_miss_reasons : List String
  pub elapsed_milliseconds : ℤ

pub record PerfOptions : Type 0 where
  pub url : String
  pub project : String
  pub run_id : String
  pub concurrency : List ℤ
  pub requests : ℤ
  pub groups : List String
  pub fail_on_budget : Bool

pub record PerfResult : Type 0 where
  pub url : String
  pub project : String
  pub run_id : String
  pub requests : ℕ
  pub concurrency : List ℤ
  pub groups : List String
  pub generated_at : ℤ
  pub samples : List PerfSample
  pub summaries : List PerfEndpointStats
  pub budget_misses : List String
