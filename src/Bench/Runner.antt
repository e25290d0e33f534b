-- ===== src/Bench/Runner.antt =====
-- internal/bench/runner.go, and the reading of corpora of internal/bench/corpus.go: a store is filled with a corpus,
-- and its queries are measured. The times that they take are an input.
use Prim.Native.String.{◌++◌ as append_text}
use yet_another_memory_bank.Common.{
  ℕ, zero, suc, ◌+◌, String, ◌||◌, not, List, [], ◌∷◌, map, if◌then◌else◌, ◌==◌, blank, or_text,
  length, Outcome, ok, err, ◌>>=◌, bad_argument,
}
use yet_another_memory_bank.Common.Int.{ℤ, pos, negsuc}
use yet_another_memory_bank.Common.Texts.{has_suffix}
use yet_another_memory_bank.Bench.Adapter.{AdapterEnv, SearchResult, adapter_search}
use yet_another_memory_bank.Bench.Metrics.{
  MetricOps, AggregateMetrics, QueryResult, precision_at, recall_at, hit_at, mrr, ndcg_at,
  aggregate, aggregate_by_type,
}
use yet_another_memory_bank.Store.Memories.{MemoryInput, add_memory}
use yet_another_memory_bank.Store.Rows.{Db}

pub record MemoryFixture : Type 0 where
  pub id : String
  pub text : String
  pub tier : String

pub record QueryFixture : Type 0 where
  pub id : String
  pub text : String
  pub kind : String
  pub gold_ids : List String

pub record LmeTurn : Type 0 where
  pub role : String
  pub content : String

pub record LongMemEvalEntry : Type 0 where
  pub question_id : String
  pub question_type : String
  pub question : String
  pub answer_session_ids : List String
  pub haystack_session_ids : List String
  pub haystack_sessions : List (List LmeTurn)

-- the rows that are kept, from the loop of LoadLongMemEvalEntries
unfoldable pub answerable : List LongMemEvalEntry → Outcome (List LongMemEvalEntry)
answerable [] = ok []
answerable (entry ∷ entries) =
    let rest = answerable entries in
    if has_suffix entry.question_type "_abs"
    then rest
    else if blank entry.question_id || blank entry.question || length entry.answer_session_ids == 0
    then err bad_argument
    else if not (length entry.haystack_session_ids == length entry.haystack_sessions)
    then err bad_argument
    else rest >>= λ kept. ok (entry ∷ kept)

-- from the parsed entries on
unfoldable pub filter_entries : List LongMemEvalEntry → Outcome (List LongMemEvalEntry)
unfolding answerable
filter_entries entries =
    answerable entries >>= λ kept. if length kept == 0 then err bad_argument else ok kept

-- strings.Join(parts, "\n")
abbrev pub turns_of : List LmeTurn → String
turns_of [] = ""
turns_of (t ∷ []) = append_text t.role (append_text ": " t.content)
turns_of (t ∷ u ∷ ts) =
    append_text (append_text t.role (append_text ": " t.content))
      (append_text "\n" (turns_of (u ∷ ts)))

unfoldable pub flatten_session : List LmeTurn → String
flatten_session turns = turns_of turns

abbrev pub bench_memory : String → String → String → ℤ → MemoryInput
bench_memory id text tier at = record {
  project = "mcb-benchmark";
  text = text;
  tier = tier;
  source = append_text "bench:" id;
  importance = 0;
  session_id = "";
  created_at = at;
}

-- int64 `n` plus the index `i`
abbrev pub after : ℤ → ℕ → ℤ
after (pos n) i = pos (n + i)
after (negsuc n) zero = negsuc n
after (negsuc zero) (suc i) = pos i
after (negsuc (suc n)) (suc i) = after (negsuc n) i

-- the loop from the index `i` on
unfoldable pub seed_from : ℤ → ℕ → List MemoryFixture → Db → Outcome Db
seed_from now i [] db = ok db
seed_from now i (m ∷ ms) db =
    add_memory db (bench_memory m.id m.text (or_text m.tier "semantic") (after now i)) >>= λ r.
    seed_from now (suc i) ms r.1

unfoldable pub seed_corpus : List MemoryFixture → ℤ → Db → Outcome Db
unfolding seed_from
seed_corpus memories now db = seed_from now 0 memories db

-- the sessions with their ids, from the index `i` on; filter_entries leaves only entries that have as many of both
unfoldable pub seed_entry : ℕ → List String → List (List LmeTurn) → Db → Outcome Db
unfolding flatten_session
seed_entry i [] sessions db = ok db
seed_entry i (id ∷ ids) [] db = err bad_argument
seed_entry i (id ∷ ids) (turns ∷ sessions) db =
    add_memory db (bench_memory id (flatten_session turns) "episodic" (pos (suc i))) >>= λ r.
    seed_entry (suc i) ids sessions r.1

module _ (fl : MetricOps) where
  unfoldable pub query_result : QueryFixture → List SearchResult → ℤ → QueryResult
  unfolding precision_at recall_at hit_at mrr ndcg_at
  query_result q found latency =
      let ranked = map (λ r. r.id) found in
      record {
        query_id = q.id;
        query = q.text;
        kind = q.kind;
        gold_ids = q.gold_ids;
        ranked_ids = ranked;
        latency_ms = latency;
        metrics = record {
          p_at5 = precision_at fl ranked q.gold_ids (pos 5);
          r_at5 = recall_at fl ranked q.gold_ids (pos 5);
          r_at10 = recall_at fl ranked q.gold_ids (pos 10);
          r_at20 = recall_at fl ranked q.gold_ids (pos 20);
          hit_at5 = hit_at fl ranked q.gold_ids (pos 5);
          mean_rr = mrr fl ranked q.gold_ids;
          ndcg_at10 = ndcg_at fl ranked q.gold_ids (pos 10);
          p50_latency_ms = latency;
          p95_latency_ms = latency;
        };
      }

  -- the loop over the queries, each with the time that it takes
  unfoldable pub query_results :
      AdapterEnv → Db → List (QueryFixture × ℤ) → Outcome (List QueryResult)
  unfolding query_result adapter_search
  query_results e db [] = ok []
  query_results e db ((q, latency) ∷ queries) =
      adapter_search e db "mcb-benchmark" q.text (pos 10) >>= λ found.
      query_results e db queries >>= λ rest. ok (query_result q found latency ∷ rest)

  -- Metrics, ByType and Queries of the result
  abbrev pub Measured : Type 0
  Measured = AggregateMetrics × List (String × AggregateMetrics) × List QueryResult

  unfoldable pub run_queries : AdapterEnv → Db → List (QueryFixture × ℤ) → Outcome Measured
  unfolding query_results aggregate aggregate_by_type
  run_queries e db queries = query_results e db queries >>= λ results.
      ok (aggregate fl results, aggregate_by_type fl results, results)

  -- from the open sandbox to the result
  unfoldable pub run_corpus :
      AdapterEnv → List MemoryFixture → List (QueryFixture × ℤ) → ℤ → Db → Outcome Measured
  unfolding seed_corpus run_queries
  run_corpus e memories queries now db =
      seed_corpus memories now db >>= λ filled. run_queries e filled queries

  unfoldable pub entry_result : LongMemEvalEntry → List SearchResult → ℤ → QueryResult
  unfolding hit_at mrr ndcg_at
  entry_result entry found latency =
      let ranked = map (λ r. r.id) found in
      let gold = entry.answer_session_ids in
      record {
        query_id = entry.question_id;
        query = entry.question;
        kind = entry.question_type;
        gold_ids = gold;
        ranked_ids = ranked;
        latency_ms = latency;
        metrics = record {
          p_at5 = fl.zero;
          r_at5 = hit_at fl ranked gold (pos 5);
          r_at10 = hit_at fl ranked gold (pos 10);
          r_at20 = hit_at fl ranked gold (pos 20);
          hit_at5 = hit_at fl ranked gold (pos 5);
          mean_rr = mrr fl ranked gold;
          ndcg_at10 = ndcg_at fl ranked gold (pos 10);
          p50_latency_ms = latency;
          p95_latency_ms = latency;
        };
      }

  -- the loop over the entries, each with a store of its own, and the time that its query takes
  unfoldable pub entry_results :
      AdapterEnv → Db → List (LongMemEvalEntry × ℤ) → Outcome (List QueryResult)
  unfolding entry_result seed_entry adapter_search
  entry_results e empty [] = ok []
  entry_results e empty ((entry, latency) ∷ entries) =
      seed_entry 0 entry.haystack_session_ids entry.haystack_sessions empty >>= λ filled.
      adapter_search e filled "mcb-benchmark" entry.question (pos 20) >>= λ found.
      entry_results e empty entries >>= λ rest. ok (entry_result entry found latency ∷ rest)
