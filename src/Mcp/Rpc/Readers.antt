-- ===== src/Mcp/Rpc/Readers.antt =====
-- The MCP tools that only read, and what they do to the store.
use yet_another_memory_bank.Common.{
  ℕ, String, Bool, true, false, ◌≡◌, refl, Option, none, some, List, Outcome, ok, err,
}
use yet_another_memory_bank.Common.Action.{Action, query, Keeps, keeps, Keeps-modify}
use yet_another_memory_bank.Common.Int.{ℤ}
use yet_another_memory_bank.Embed.Breaker.{CircuitBreaker}
use yet_another_memory_bank.Mcp.Arguments.{Env, World, ForgetArgs, on_db}
use yet_another_memory_bank.Mcp.Search.{
  search_text, searcher_of, after_hybrid, search_with, search as search_memory,
}
use yet_another_memory_bank.Mcp.Tools.{argument, memory_recall, forget_candidates}
use yet_another_memory_bank.Mcp.Rpc.{
  ToolName, recall, save, sessions, session_observations, forget, profile, session_summary_save,
  supersede, update, timeline, file_history, patterns, export, audit, verify, replay, run_tool,
}
use yet_another_memory_bank.Search.Hybrid.Keeps.{hybrid-skip_keeps}
use yet_another_memory_bank.Search.Vectors.{Embedder, Result}
use yet_another_memory_bank.Store.Rows.{Db}

module _ {ℓ} (P : Db → Type ℓ) (env : Env) where
  abbrev Untouched : {A : Type 0} → Action World A → Type ℓ
  Untouched m = Keeps (λ (w : World). P w.db) m

  search_text-quiet :
      (text project : String) (limit : ℤ) → Keeps P (search_text env text project limit false)
  unfolding search_text
  search_text-quiet text project limit = search (keeps, Keeps-modify, λ (db : Db) (v : P db). v)

  after_hybrid-quiet :
      (text project : String) (limit : ℤ) (r : (Outcome (List Result) × Db) × Option CircuitBreaker)
      → P r.0.1
      → P (after_hybrid env text project limit false r).1.db
  unfolding after_hybrid on_db
  after_hybrid-quiet text project limit ((ok results, db), br) v = v
  after_hybrid-quiet text project limit ((err e, db), br) v =
      (search_text-quiet text project limit).apply db v

  search_with-quiet :
      (e : Option Embedder) (text project : String) (limit : ℤ) (w : World)
      → P w.db
      → P (search_with env e text project limit false w).1.db
  unfolding search_with on_db searcher_of
  search_with-quiet none text project limit w v =
      (search_text-quiet text project limit).apply w.db v
  search_with-quiet (some e) text project limit w v =
      after_hybrid-quiet text project limit _
        (hybrid-skip_keeps P (searcher_of env false) w.db _ w.breaker env.breaker_now refl v)

  pub search-quiet :
      (text project : String) (limit : ℤ)
      → Keeps (λ (w : World). P w.db) (search_memory env text project limit false)
  unfolding search_memory
  search-quiet text project limit = record {
    apply = search_with-quiet env.searcher.embedder text project limit;
  }

  needed-quiet :
      {A : Type 0} (o : Option A) → Keeps (λ (w : World). P w.db) (argument {S = World} o)
  unfolding argument
  needed-quiet none = search keeps
  needed-quiet (some a) = search keeps

  memory_search-quiet : (raw : List ℕ) → Keeps (λ (w : World). P w.db) (memory_recall env false raw)
  unfolding memory_recall
  memory_search-quiet raw = search (keeps, needed-quiet, search-quiet)

  pub forget_candidates-quiet :
      (in_ : ForgetArgs) → Keeps (λ (w : World). P w.db) (forget_candidates env in_)
  unfolding forget_candidates
  forget_candidates-quiet in_ = search (keeps, search-quiet)

-- The tools that the list of tools describes as readers.
abbrev pub only_reads : ToolName → Bool
only_reads recall = false
only_reads save = false
only_reads forget = false
only_reads session_summary_save = false
only_reads supersede = false
only_reads update = false
only_reads _ = true

-- Every tool but memory_recall, memory_save, memory_forget, memory_session_summary_save,
-- memory_supersede and memory_update leaves the store as it is, memory_search included, whatever its
-- arguments.
pub run_tool-reads :
    (env : Env) (t : ToolName) (raw : List ℕ) (w : World)
    → only_reads t ≡ true
    → (run_tool env t raw w).1.db ≡ w.db
unfolding run_tool query
run_tool-reads env ToolName.search raw w h =
    (memory_search-quiet (λ db. db ≡ w.db) env raw).apply w refl
run_tool-reads env recall raw w h = cc
run_tool-reads env save raw w h = cc
run_tool-reads env forget raw w h = cc
run_tool-reads env session_summary_save raw w h = cc
run_tool-reads env supersede raw w h = cc
run_tool-reads env update raw w h = cc
run_tool-reads env sessions raw w h = refl
run_tool-reads env session_observations raw w h = refl
run_tool-reads env profile raw w h = refl
run_tool-reads env timeline raw w h = refl
run_tool-reads env file_history raw w h = refl
run_tool-reads env patterns raw w h = refl
run_tool-reads env export raw w h = refl
run_tool-reads env audit raw w h = refl
run_tool-reads env verify raw w h = refl
run_tool-reads env replay raw w h = refl
