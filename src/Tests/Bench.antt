-- ===== src/Tests/Bench.antt =====
-- The metrics and the adapter of the benchmarks at concrete inputs.
use yet_another_memory_bank.Common.{
  ℕ, ◌+◌, ◌*◌, ◌/◌, ◌%◌, ◌≡◌, refl, String, Bool, true, false, not, is_ok, [], ◌∷◌, length, ltb,
  ◌==◌, if◌then◌else◌, rows_where, ok,
}
use yet_another_memory_bank.Common.Json.{Value}
use yet_another_memory_bank.Common.Texts.{trim_space}
use yet_another_memory_bank.Bench.Perf.{perf_defaults, run_perf}
use yet_another_memory_bank.Bench.Summary.Counted.{total, is_answered}
use yet_another_memory_bank.Bench.Perf.Runs.{run_perf-total}
use yet_another_memory_bank.Bench.Requests.{perf_endpoints}
use yet_another_memory_bank.Bench.Samples.{PerfOps, PerfOptions, PerfResult, Sent, answered, failed}
use yet_another_memory_bank.Common.Int.{pos}
use yet_another_memory_bank.Bench.Metrics.{MetricOps, hits_at}

-- A hit that is repeated counts once.
repeated : hits_at ("a" ∷ "a" ∷ "c" ∷ []) ("a" ∷ "b" ∷ "" ∷ []) (pos 3) ≡ 1
unfolding hits_at
repeated = refl

-- Numbers in thousandths, for float64.
abbrev thousandths : MetricOps
thousandths = record {
  zero = 0;
  one = 1000;
  half = 500;
  most = 950;
  of_int = λ n. n * 1000;
  add = λ x y. x + y;
  mul = λ x y. x * y / 1000;
  div = λ x y. x * 1000 / y;
  log2 = λ x. x;
  ceil = λ x. x;
  to_int = λ x. pos (x / 1000);
  eq = λ x y. x == y;
}

abbrev perf_ops : PerfOps
perf_ops = record {
  metric = thousandths;
  lt = ltb;
  p90 = 900;
  p99 = 990;
  show_ms = λ x. "1.000";
  show_rate = λ x. "1.0";
  formats = record {
    decimal = λ n. "1";
    three = λ n. "001";
    six = λ n. "000001";
    sha256_hex = λ s. "0123456789";
  };
}

-- every second request fails
abbrev answers : String → Value → ℕ → ℕ → Sent
answers path body concurrency i =
    if i % 2 == 0 then answered 1000 200 64 else failed "timeout" 30000

abbrev perf_options : PerfOptions
perf_options = record {
  url = "";
  project = "p";
  run_id = "";
  concurrency = [];
  requests = pos 4;
  groups = "mcp" ∷ [];
  fail_on_budget = true;
}

run_perf-total_example :
    (is_ok (run_perf perf_ops answers (pos 0) false perf_options) ≡ false)
    × ((r : PerfResult × Bool) × ((run_perf perf_ops answers (pos 0) true perf_options ≡ ok r)
          × ((total (λ s. s.requests) r.0.summaries
                ≡ length (perf_endpoints r.0.groups) * (length r.0.concurrency * r.0.requests))
              × (total (λ s. s.errors) r.0.summaries
                  ≡ length (rows_where (λ s. not (is_answered s)) r.0.samples)))))
unfolding perf_defaults perf_endpoints trim_space
run_perf-total_example =
    run_perf-total perf_ops answers (pos 0) perf_options refl refl (refl, (refl, tt))
