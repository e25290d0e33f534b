-- ===== src/Bench/Perf.antt =====
-- internal/bench/perf.go: the performance run. What the server answers to each request, and how long it takes, is an
-- input; each worker writes the samples of its own requests, so that the samples are in the order of the requests
-- however many workers there are. Whether the reports
-- can be written is an input too.
pub mod Runs
use Prim.Native.String.{◌++◌ as append_text}
use yet_another_memory_bank.Common.{
  ℕ, zero, suc, ◌-◌, String, Bool, true, false, ◌||◌, not, List, [], ◌∷◌, ◌++◌, map, if◌then◌else◌,
  ◌==◌, ltb, leb, str_eq, blank, or_text, length, exists_where, rows_where, Outcome, ok, err, ◌>>=◌,
  bad_argument,
}
use yet_another_memory_bank.Common.Int.{ℤ, pos, pos_part, le_ℤ}
use yet_another_memory_bank.Common.Json.{Value}
use yet_another_memory_bank.Common.Sort.{slice_stable}
use yet_another_memory_bank.Common.Texts.{concat, joined_by}
use yet_another_memory_bank.Admin.Doctor.{trim_slashes}
use yet_another_memory_bank.Bench.Metrics.{MetricOps, is_in}
use yet_another_memory_bank.Bench.Requests.{Formats, PerfEndpoint, perf_endpoints}
use yet_another_memory_bank.Bench.Samples.{
  PerfOps, PerfSample, PerfEndpointStats, PerfOptions, PerfResult, Sent, unbuilt, failed, cut,
  answered,
}
use yet_another_memory_bank.Bench.Summary.{summarize_perf, perf_budget_misses}
use yet_another_memory_bank.Floats.{Float64}
use yet_another_memory_bank.Store.Sessions.{text_lt}

module _ (e : PerfOps) where
  unfoldable pub execute_perf_request :
      (String → Value → ℕ → ℕ → Sent) → String → String → String → PerfEndpoint → ℕ → ℕ → PerfSample
  execute_perf_request send url project run_id endpoint concurrency i =
      let sample : PerfSample = record {
        group = endpoint.group;
        name = endpoint.name;
        method = "POST";
        path = endpoint.path;
        concurrency = concurrency;
        status = 0;
        latency_ms = e.metric.zero;
        response_bytes = 0;
        error = "";
      } in
      elim (send (append_text url endpoint.path) (endpoint.body e.formats project run_id i)
        concurrency i) [
          | unbuilt error ↦ record sample { error = error }
          | failed error latency ↦ record sample { error = error; latency_ms = latency }
          | cut error latency status ↦ record sample {
            error = error;
            latency_ms = latency;
            status = status;
          }
          | answered latency status bytes ↦ record sample {
            latency_ms = latency;
            status = status;
            response_bytes = bytes;
          }
        ]

  -- the requests from the index `i` on
  unfoldable pub run_perf_endpoint :
      (String → Value → ℕ → ℕ → Sent)
      → String
      → String
      → String
      → PerfEndpoint
      → ℕ
      → ℕ
      → ℕ
      → List PerfSample
  unfolding execute_perf_request
  run_perf_endpoint send url project run_id endpoint concurrency i zero = []
  run_perf_endpoint send url project run_id endpoint concurrency i (suc requests) =
      execute_perf_request send url project run_id endpoint concurrency i
      ∷ run_perf_endpoint send url project run_id endpoint concurrency (suc i) requests

  -- the loop over the endpoints and, within, over the numbers of workers
  unfoldable pub run_concurrency :
      (String → Value → ℕ → ℕ → Sent)
      → String
      → String
      → String
      → ℕ
      → PerfEndpoint
      → List ℤ
      → Outcome (List PerfSample)
  unfolding run_perf_endpoint
  run_concurrency send url project run_id requests endpoint [] = ok []
  run_concurrency send url project run_id requests endpoint (c ∷ cs) =
      let rest = run_concurrency send url project run_id requests endpoint cs in
      if le_ℤ c (pos 0)
      then err bad_argument
      else rest >>= λ samples.
          ok (run_perf_endpoint send url project run_id endpoint (pos_part c) 0 requests ++ samples)

  unfoldable pub run_endpoints :
      (String → Value → ℕ → ℕ → Sent)
      → String
      → String
      → String
      → ℕ
      → List ℤ
      → List PerfEndpoint
      → Outcome (List PerfSample)
  unfolding run_concurrency
  run_endpoints send url project run_id requests concurrency [] = ok []
  run_endpoints send url project run_id requests concurrency (endpoint ∷ endpoints) =
      run_concurrency send url project run_id requests endpoint concurrency >>= λ samples.
      run_endpoints send url project run_id requests concurrency endpoints >>= λ rest.
      ok (samples ++ rest)

  -- the defaults at the start of RunPerf
  unfoldable pub perf_defaults : PerfOptions → PerfOptions
  unfolding trim_slashes
  perf_defaults o = record o {
    url = trim_slashes (or_text o.url "http://127.0.0.1:3411");
    run_id = or_text o.run_id "perf";
    requests = if le_ℤ o.requests (pos 0) then pos 100 else o.requests;
    concurrency = if length o.concurrency == 0 then pos 1 ∷ pos 10 ∷ [] else o.concurrency;
    groups =
        if length o.groups == 0
        then "capture" ∷ "context" ∷ "compaction" ∷ "replay" ∷ "mcp" ∷ []
        else o.groups;
  }

  unfoldable pub perf_result : ℤ → PerfOptions → List PerfSample → PerfResult
  unfolding summarize_perf perf_budget_misses
  perf_result now o samples =
      let summaries = summarize_perf e samples in
      record {
        url = o.url;
        project = o.project;
        run_id = o.run_id;
        requests = pos_part o.requests;
        concurrency = o.concurrency;
        groups = o.groups;
        generated_at = now;
        samples = samples;
        summaries = summaries;
        budget_misses = perf_budget_misses e summaries;
      }

  -- The result, and whether the run fails on it; `written` says if WritePerfReports succeeds.
  unfoldable pub run_perf :
      (String → Value → ℕ → ℕ → Sent) → ℤ → Bool → PerfOptions → Outcome (PerfResult × Bool)
  unfolding perf_defaults perf_endpoints run_endpoints perf_result
  run_perf send now written given =
      let o = perf_defaults given in
      let endpoints = perf_endpoints o.groups in
      let run =
        run_endpoints send o.url o.project o.run_id (pos_part o.requests) o.concurrency endpoints in
      if blank o.project || length endpoints == 0
      then err bad_argument
      else run >>= λ samples.
          let result = perf_result now o samples in
          if written
          then ok
              (result, (if o.fail_on_budget then ltb 0 (length result.budget_misses) else false))
          else err bad_argument
