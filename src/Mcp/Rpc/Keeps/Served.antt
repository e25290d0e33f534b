-- ===== src/Mcp/Rpc/Keeps/Served.antt =====
-- What requests to the MCP server keep of the store.
use yet_another_memory_bank.Common.{
  ℕ, String, Bool, true, false, not, Option, none, some, List, if_elim, ◌||◌, str_eq, blank,
  Outcome, ok, err,
}
use yet_another_memory_bank.Common.Action.{
  transact, transact_, modify, Keeps, keeps, Keeps-raise, Keeps-query, Keeps-transact,
  Keeps-transact_, Keeps-modify,
}
use yet_another_memory_bank.Common.Int.{ℤ}
use yet_another_memory_bank.Mcp.Arguments.{Env, World, RpcRequest, ForgetArgs}
use yet_another_memory_bank.Mcp.Search.{search as search_memory}
use yet_another_memory_bank.Mcp.Tools.{
  memory_save, forget_ids, forget_candidates, memory_forget, memory_session_summary_save,
  memory_supersede, memory_update,
}
use yet_another_memory_bank.Mcp.Rpc.{
  ToolName, recall, save, sessions, session_observations, forget, profile, session_summary_save,
  supersede, update, timeline, file_history, patterns, export, audit, verify, replay, run_tool,
  dispatch, call_tool, answered, RpcResponse, Method, initialize, notified, list_tools,
  list_resources, read, list_prompts, prompt, call, method_of, serve_method, serve_rpc,
}
use yet_another_memory_bank.Mcp.Resources.{read_resource, get_prompt}
use yet_another_memory_bank.Common.Json.{Value}
use yet_another_memory_bank.Secrets.Calls.{IsRedacted}
use yet_another_memory_bank.Store.Compaction.{mark_compaction_completed}
use yet_another_memory_bank.Store.Decay.{DecayOps}
use yet_another_memory_bank.Store.Memories.{MemoryUpdate, update_memory}
use yet_another_memory_bank.Store.Observations.{Zstd}
use yet_another_memory_bank.Store.Removal.{delete_memories, supersede_memory}
use yet_another_memory_bank.Store.Rows.{Db}
use yet_another_memory_bank.Store.Runs.{
  Call, perform, update as update_call, supersede as supersede_call, summarise, complete,
  forget as forget_call,
}
use yet_another_memory_bank.Store.Sessions.{save_session_summary}
use yet_another_memory_bank.Mcp.Rpc.Keeps.{
  InWorld, Keeps-argument, Keeps-on_db, search-Keeps, memory_recall-Keeps, add_note-Keeps,
  save_own_embedding-Keeps,
}

module _ {ℓ} (z : Zstd) (fl : DecayOps) (P : Db → Type ℓ)
    (kept : (db : Db) (c : Call) → IsRedacted c → P db → P (perform z fl db c)) where
  module _ (env : Env) where
    searched-Keeps :
        (text project : String) (limit : ℤ) (b : Bool)
        → Keeps (InWorld P) (search_memory env text project limit b)
    searched-Keeps = search-Keeps z fl P kept env

    ruleset in_tool = (keeps, Keeps-argument, Keeps-on_db, searched-Keeps)

    memory_save-Keeps : (raw : List ℕ) → Keeps (InWorld P) (memory_save env raw)
    unfolding memory_save
    memory_save-Keeps raw =
        search (in_tool, add_note-Keeps z fl P kept env, save_own_embedding-Keeps z fl P kept env)

    deleted-Keeps : (ids : List ℕ) → Keeps P (transact λ db. delete_memories db ids)
    unfolding perform
    deleted-Keeps ids = Keeps-transact _ (λ db v. kept db (forget_call ids) tt v)

    forget_ids-Keeps : (in_ : ForgetArgs) → Keeps (InWorld P) (forget_ids env in_)
    unfolding forget_ids
    forget_ids-Keeps in_ = search (in_tool, deleted-Keeps)

    forget_candidates-Keeps : (in_ : ForgetArgs) → Keeps (InWorld P) (forget_candidates env in_)
    unfolding forget_candidates
    forget_candidates-Keeps in_ = search in_tool

    memory_forget-Keeps : (raw : List ℕ) → Keeps (InWorld P) (memory_forget env raw)
    unfolding memory_forget
    memory_forget-Keeps raw = search (in_tool, forget_ids-Keeps, forget_candidates-Keeps)

    summarised-Keeps :
        (id summary : String) (at : ℤ)
        → Keeps P (modify λ db. save_session_summary db id summary at)
    unfolding perform
    summarised-Keeps id summary at = Keeps-modify _ (λ db v. kept db (summarise id summary at) tt v)

    marked-Keeps :
        (id : String) (at : ℤ) → Keeps P (modify λ db. mark_compaction_completed db id at)
    unfolding perform
    marked-Keeps id at = Keeps-modify _ (λ db v. kept db (complete id at) tt v)

    summary_save-Keeps : (raw : List ℕ) → Keeps (InWorld P) (memory_session_summary_save env raw)
    unfolding memory_session_summary_save
    summary_save-Keeps raw = search (in_tool, summarised-Keeps, marked-Keeps) depth 12

    superseded-Keeps : (a b : ℕ) → Keeps P (transact_ λ db. supersede_memory db a b)
    unfolding perform
    superseded-Keeps a b = Keeps-transact_ _ (λ db v. kept db (supersede_call a b) tt v)

    memory_supersede-Keeps : (raw : List ℕ) → Keeps (InWorld P) (memory_supersede env raw)
    unfolding memory_supersede
    memory_supersede-Keeps raw = search (in_tool, superseded-Keeps)

    updated-Keeps : (u : MemoryUpdate) → Keeps P (transact_ λ db. update_memory db u)
    unfolding perform
    updated-Keeps u = Keeps-transact_ _ (λ db v. kept db (update_call u) tt v)

    memory_update-Keeps : (raw : List ℕ) → Keeps (InWorld P) (memory_update env raw)
    unfolding memory_update
    memory_update-Keeps raw = search (in_tool, updated-Keeps) depth 12

    run_tool-Keeps : (t : ToolName) (raw : List ℕ) → Keeps (InWorld P) (run_tool env t raw)
    unfolding run_tool
    run_tool-Keeps recall raw = memory_recall-Keeps z fl P kept env true raw
    run_tool-Keeps ToolName.search raw = memory_recall-Keeps z fl P kept env false raw
    run_tool-Keeps save raw = memory_save-Keeps raw
    run_tool-Keeps forget raw = memory_forget-Keeps raw
    run_tool-Keeps session_summary_save raw = summary_save-Keeps raw
    run_tool-Keeps supersede raw = memory_supersede-Keeps raw
    run_tool-Keeps update raw = memory_update-Keeps raw
    run_tool-Keeps sessions raw = Keeps-query _
    run_tool-Keeps session_observations raw = Keeps-query _
    run_tool-Keeps profile raw = Keeps-query _
    run_tool-Keeps timeline raw = Keeps-query _
    run_tool-Keeps file_history raw = Keeps-query _
    run_tool-Keeps patterns raw = Keeps-query _
    run_tool-Keeps export raw = Keeps-query _
    run_tool-Keeps audit raw = Keeps-query _
    run_tool-Keeps verify raw = Keeps-query _
    run_tool-Keeps replay raw = Keeps-query _

    dispatch-Keeps : (t : Option ToolName) (raw : List ℕ) → Keeps (InWorld P) (dispatch env t raw)
    unfolding dispatch
    dispatch-Keeps none raw = Keeps-raise _
    dispatch-Keeps (some t) raw = run_tool-Keeps t raw

    call_tool-Keeps : (raw : List ℕ) → Keeps (InWorld P) (call_tool env raw)
    unfolding call_tool
    call_tool-Keeps raw = search (in_tool, dispatch-Keeps)

    answered-keeps :
        (id : List ℕ) (r : Outcome Value × World) → P r.1.db → P (answered env id r).1.db
    answered-keeps id (ok v, w) k = k
    answered-keeps id (err e, w) k = k

    serve_method-keeps :
        (m : Option Method) (req : RpcRequest) (w : World)
        → P w.db
        → P (serve_method env m req w).1.db
    unfolding serve_method
    serve_method-keeps (some call) req w v =
        answered-keeps req.id (call_tool env req.params w) ((call_tool-Keeps req.params).apply w v)
    serve_method-keeps (some read) req w v =
        answered-keeps req.id (read_resource env w.db req.params, w) v
    serve_method-keeps (some prompt) req w v =
        answered-keeps req.id (get_prompt env req.params, w) v
    serve_method-keeps (some initialize) req w v = v
    serve_method-keeps (some notified) req w v = v
    serve_method-keeps (some list_tools) req w v = v
    serve_method-keeps (some list_resources) req w v = v
    serve_method-keeps (some list_prompts) req w v = v
    serve_method-keeps none req w v = v

    pub serve_rpc-keeps :
        (req : Option RpcRequest) (w : World) → P w.db → P (serve_rpc env req w).1.db
    unfolding serve_rpc
    serve_rpc-keeps none w v = v
    serve_rpc-keeps (some req) w v =
        if_elim (λ (r : RpcResponse × World). P r.1.db)
          (not (str_eq req.jsonrpc "2.0") || blank req.method) _
          (serve_method env (method_of req.method) req w) v
          (serve_method-keeps (method_of req.method) req w v)
