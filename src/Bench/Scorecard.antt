-- ===== src/Bench/Scorecard.antt =====
-- The scorecard of internal/bench/perf.go.
use yet_another_memory_bank.Common.{String, [], ◌∷◌, ◌++◌, map, if◌then◌else◌, length, ◌==◌, str_eq}
use yet_another_memory_bank.Common.Texts.{concat, joined_by}
use yet_another_memory_bank.Bench.Samples.{PerfOps, PerfEndpointStats, PerfResult}

module _ (e : PerfOps) where
  -- the row of a summary
  abbrev pub score_row : PerfEndpointStats → String
  score_row s =
      let budget =
        if str_eq s.budget_status "miss"
        then concat ("miss: " ∷ joined_by ", " s.budget_miss_reasons ∷ [])
        else "ok" in
      concat (
        "| "
        ∷ s.group
        ∷ " | "
        ∷ s.name
        ∷ " | "
        ∷ e.formats.decimal s.concurrency
        ∷ " | "
        ∷ e.formats.decimal s.requests
        ∷ " | "
        ∷ e.formats.decimal s.errors
        ∷ " | "
        ∷ e.show_ms s.p50_ms
        ∷ " ms | "
        ∷ e.show_ms s.p90_ms
        ∷ " ms | "
        ∷ e.show_ms s.p95_ms
        ∷ " ms | "
        ∷ e.show_ms s.p99_ms
        ∷ " ms | "
        ∷ e.show_ms s.max_ms
        ∷ " ms | "
        ∷ e.show_rate s.rps
        ∷ " | "
        ∷ budget
        ∷ " |\n"
        ∷ [])

  unfoldable pub render_perf_scorecard : PerfResult → String
  render_perf_scorecard r = concat (
      "# mcb Live Performance Benchmark\n\n"
        ∷ "- url: `"
        ∷ r.url
        ∷ "`\n"
        ∷ "- project: `"
        ∷ r.project
        ∷ "`\n"
        ∷ "- run_id: `"
        ∷ r.run_id
        ∷ "`\n"
        ∷ "- requests per endpoint: `"
        ∷ e.formats.decimal r.requests
        ∷ "`\n\n"
        ∷ "| Group | Endpoint | Concurrency | Requests | Errors | p50 | p90 | p95 | p99 | Max | RPS | Budget |\n"
        ∷ "|---|---|---:|---:|---:|---:|---:|---:|---:|---:|---:|---|\n"
        ∷ map score_row r.summaries
      ++ (if length r.budget_misses == 0
          then []
          else "\n## Budget Misses\n\n"
            ∷ map (λ miss. concat ("- " ∷ miss ∷ "\n" ∷ [])) r.budget_misses))
