-- ===== src/Bench/Perf/Runs.antt =====
-- internal/bench/perf.go: what a run with usable options comes to.
use yet_another_memory_bank.Common.{
  ℕ, zero, suc, ◌*◌, ◌≡◌, refl, ap, ◌∙◌, String, Bool, true, false, not, is_ok, List, [], ◌∷◌, ◌++◌,
  arith, ◌==◌, blank, ltb, if◌then◌else◌, length, length-append, rows_where, All, Outcome, ok,
}
use yet_another_memory_bank.Common.Int.{ℤ, pos, pos_part, le_ℤ}
use native.Mathlib.Nat.{suc-mul}
use yet_another_memory_bank.Common.Json.{Value}
use yet_another_memory_bank.Bench.Samples.{PerfOps, PerfSample, PerfOptions, PerfResult, Sent}
use yet_another_memory_bank.Bench.Perf.{
  run_perf_endpoint, run_concurrency, run_endpoints, perf_defaults, perf_result, run_perf,
}
use yet_another_memory_bank.Bench.Summary.Counted.{total, is_answered, summarize_perf-total}
use yet_another_memory_bank.Bench.Requests.{PerfEndpoint, perf_endpoints}

-- The result is so many samples.
Sampled : ℕ → Outcome (List PerfSample) → Type 0
Sampled n o = (samples : List PerfSample) × ((o ≡ ok samples) × (length samples ≡ n))

module _ (e : PerfOps) (send : String → Value → ℕ → ℕ → Sent) (url project run_id : String) where
  length-run_perf_endpoint :
      (endpoint : PerfEndpoint) (concurrency i n : ℕ)
      → length (run_perf_endpoint e send url project run_id endpoint concurrency i n) ≡ n
  unfolding run_perf_endpoint
  length-run_perf_endpoint endpoint concurrency i zero = refl
  length-run_perf_endpoint endpoint concurrency i (suc n) =
      ap suc (length-run_perf_endpoint endpoint concurrency (suc i) n)

  run_concurrency-Sampled :
      (n : ℕ) (endpoint : PerfEndpoint) (cs : List ℤ)
      → All (λ c. le_ℤ c (pos 0) ≡ false) cs
      → Sampled (length cs * n) (run_concurrency e send url project run_id n endpoint cs)
  unfolding run_concurrency Sampled
  run_concurrency-Sampled n endpoint [] h = ([], (refl, omega arith))
  run_concurrency-Sampled n endpoint (c ∷ cs) h =
      let r = run_concurrency-Sampled n endpoint cs h.1 in
      let first = run_perf_endpoint e send url project run_id endpoint (pos_part c) 0 n in
      (
        first ++ r.0,
        (
          rw (h.0, r.1.0) refl,
          length-append first r.0
              ∙ rw
                  (length-run_perf_endpoint endpoint (pos_part c) 0 n, r.1.1, suc-mul (length cs) n)
                  (omega arith),
        ),
      )

  run_endpoints-Sampled :
      (n : ℕ) (cs : List ℤ)
      → All (λ c. le_ℤ c (pos 0) ≡ false) cs
      → (endpoints : List PerfEndpoint)
      → Sampled
          (length endpoints * (length cs * n))
          (run_endpoints e send url project run_id n cs endpoints)
  unfolding run_endpoints Sampled
  run_endpoints-Sampled n cs h [] = ([], (refl, omega arith))
  run_endpoints-Sampled n cs h (endpoint ∷ endpoints) =
      let first = run_concurrency-Sampled n endpoint cs h in
      let r = run_endpoints-Sampled n cs h endpoints in
      (
        first.0 ++ r.0,
        (
          rw (first.1.0, r.1.0) refl,
          length-append first.0 r.0
              ∙ rw (first.1.1, r.1.1, suc-mul (length endpoints) (length cs * n)) (omega arith),
        ),
      )

-- If the project is named, the groups select an endpoint, every number of workers is positive and the reports can be
-- written, the run gives a result, whatever the server answers: its summaries count as many requests as there are
-- endpoints, times the numbers of workers, times the requests for each, and as many errors as there are samples that have
-- an error, or no status between 1 and 499. If the reports cannot be written, the run fails.
pub run_perf-total :
    (e : PerfOps) (send : String → Value → ℕ → ℕ → Sent) (now : ℤ) (o : PerfOptions)
    → blank o.project ≡ false
    → (length (perf_endpoints (perf_defaults e o).groups) == 0) ≡ false
    → All (λ c. le_ℤ c (pos 0) ≡ false) (perf_defaults e o).concurrency
    → (is_ok (run_perf e send now false o) ≡ false)
      × ((r : PerfResult × Bool) × ((run_perf e send now true o ≡ ok r)
            × ((total (λ s. s.requests) r.0.summaries
                  ≡ length (perf_endpoints r.0.groups) * (length r.0.concurrency * r.0.requests))
                × (total (λ s. s.errors) r.0.summaries
                    ≡ length (rows_where (λ s. not (is_answered s)) r.0.samples)))))
unfolding run_perf perf_result Sampled
run_perf-total e send now given named selected positive =
    let o = perf_defaults e given in
    let s =
      run_endpoints-Sampled e send o.url o.project o.run_id (pos_part o.requests) o.concurrency
        positive (perf_endpoints o.groups) in
    let counts = summarize_perf-total e s.0 in
    let result = perf_result e now o s.0 in
    (
      rw (named, selected, s.1.0) refl,
      (
        (result, (if o.fail_on_budget then ltb 0 (length result.budget_misses) else false)),
        (rw (named, selected, s.1.0) refl, (counts.0 ∙ s.1.1, counts.1)),
      ),
    )
