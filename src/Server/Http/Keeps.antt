-- ===== src/Server/Http/Keeps.antt =====
-- What requests to the HTTP server keep of the store.
use yet_another_memory_bank.Common.{
  ℕ, String, Bool, true, false, ◌||◌, not, Option, none, some, if_elim, str_eq, blank, Outcome, ok,
  err, ◌≡◌, inl, inr, Bool-cases,
}
use yet_another_memory_bank.Common.Action.{
  transact, modify, Keeps, keeps, Keeps-pure, Keeps-raise, Keeps-transact, Keeps-modify,
}
use yet_another_memory_bank.Common.Int.{ℤ, pos, le_ℤ}
use Prim.Native.String.{◌++◌ as append_text}
use yet_another_memory_bank.Integrations.{Event}
use yet_another_memory_bank.Mcp.Arguments.{World, on_db}
use yet_another_memory_bank.Mcp.Rpc.Keeps.{ensure_session-Keeps}
use yet_another_memory_bank.Mcp.Rpc.Keeps.Served.{serve_rpc-keeps}
use yet_another_memory_bank.Secrets.Calls.{IsRedacted}
use yet_another_memory_bank.Secrets.Clean.{HasNoSecret, redact-HasNoSecret}
use yet_another_memory_bank.Server.Compaction.{
  CompactionOptions, Handled, Prompt, cutoff_at, attempt, consider, request_compaction,
}
use yet_another_memory_bank.Server.Http.{
  Request, Response, Options, HttpEnv, posted, needed, session_body, responded, with_defaults,
  method_error,
}
use yet_another_memory_bank.Server.Http.Handlers.{
  Normalizer, requested, insert_captured_event, capture_raw, capture, context_of,
  claude_session_start, opencode_context, claude_pre_compact, opencode_enrich, replay_session,
  claude_stop, end_session_of, subagent_stop, opencode_compact,
}
use yet_another_memory_bank.Server.Http.Routes.{
  Hook, Route, post_tool, pre_tool, post_tool_failure, user_prompt, pre_compact, subagent_start,
  notification, task_completed, session_end, stop, subagent_end, session_start, opencode_tool,
  opencode_chat, opencode_event, context, enrich, compact, opencode_end, replay, healthz, readyz,
  mcp, hook, handle, serve_mcp, serve_route, serve, route_of, is_health_check,
}
use yet_another_memory_bank.Store.Compaction.{
  append_attempt, insert_compaction_attempt, session_needs_compaction,
}
use yet_another_memory_bank.Store.Decay.{DecayOps}
use yet_another_memory_bank.Store.Observations.{ObservationInput, insert_observation, has_session}
use yet_another_memory_bank.Store.Rows.{Db}
use yet_another_memory_bank.Store.Runs.{
  Call, perform, observe, end, attempt as attempt_call, expire,
}
use yet_another_memory_bank.Store.Sessions.{ensure_session, end_session}

module _ {ℓ} (env : HttpEnv) (opts : Options) (fl : DecayOps) (P : Db → Type ℓ)
    (kept : (db : Db) (c : Call) → IsRedacted c → P db → P (perform env.codec.zstd fl db c)) where
  Keeps-argument : {A : Type 0} (o : Option A) → Keeps P (needed o)
  unfolding needed
  Keeps-argument none = Keeps-raise _
  Keeps-argument (some a) = Keeps-pure _

  -- a row of the attempts added
  appended-keeps :
      (db : Db) (s status reason : String) (now : ℤ)
      → has_session db s ≡ true
      → P db
      → P (append_attempt db s status reason now)
  unfolding perform insert_compaction_attempt
  appended-keeps db s status reason now h v =
      rw h at (kept db (attempt_call s status reason now) tt v)

  attempt-keeps :
      (db : Db) (s project agent : String) (cfg : CompactionOptions) (now : ℤ) (fresh : ℕ)
      → P db
      → P (attempt db s project agent cfg now fresh).1
  unfolding attempt insert_compaction_attempt
  attempt-keeps db s project agent cfg now fresh v =
      elim (Bool-cases (le_ℤ cfg.max_block_attempts (pos fresh))) [
        | inl m ↦ rw m (elim (Bool-cases (has_session db s)) [
          | inl k ↦ rw k (appended-keeps db s "skipped" "max attempts" now k v)
          | inr k ↦ rw k v
        ])
        | inr m ↦ rw m (elim (Bool-cases (has_session db s)) [
          | inl k ↦ rw k (appended-keeps db s "requested" "" now k v)
          | inr k ↦ rw k v
        ])
      ]

  consider-keeps :
      (db : Db) (s project agent : String) (cfg : CompactionOptions) (now : ℤ)
      (needs : Outcome Bool)
      → P db
      → P (consider db s project agent cfg now needs).1
  unfolding consider perform
  consider-keeps db s project agent cfg now (err e) v = v
  consider-keeps db s project agent cfg now (ok false) v = v
  consider-keeps db s project agent cfg now (ok true) v =
      attempt-keeps _ s project agent cfg now _ (kept db (expire s (cutoff_at cfg now)) tt v)

  request_compaction-Keeps :
      (s project agent : String) (active : Bool) (cfg : CompactionOptions) (now : ℤ)
      → Keeps P (requested s project agent active cfg now)
  unfolding requested request_compaction perform
  request_compaction-Keeps s project agent active cfg now = record {
    apply = λ db v.
        let ended = kept db (end s now) tt v in
        if_elim (λ (r : Handled (Option Prompt)). P r.1)
          (active || str_eq cfg.mode "disabled" || str_eq cfg.mode "manual")
          (ok none, end_session db s now)
          (consider (end_session db s now) s project agent cfg now
            (session_needs_compaction (end_session db s now) s cfg.min_observations))
          ended (consider-keeps _ s project agent cfg now _ ended);
  }

  observed-Keeps :
      (input : ObservationInput) (n : ℕ)
      → HasNoSecret input.payload_json
      → Keeps P (transact λ db. insert_observation env.codec.zstd db input n)
  unfolding perform
  observed-Keeps input n h = Keeps-transact _ (λ db v. kept db (observe input n) h v)

  started-Keeps :
      (agent external_id project : String) (ts : ℤ)
      → Keeps P (transact λ db. ensure_session db agent external_id project ts)
  started-Keeps = ensure_session-Keeps env.codec.zstd fl P kept

  ended-Keeps : (id : String) (at : ℤ) → Keeps P (modify λ db. end_session db id at)
  unfolding perform
  ended-Keeps id at = Keeps-modify _ (λ db v. kept db (end id at) tt v)

  ruleset in_store =
      (keeps, Keeps-argument, observed-Keeps, started-Keeps, ended-Keeps, request_compaction-Keeps)

  insert_captured_event-Keeps : (e : Event) → Keeps P (insert_captured_event env opts e)
  unfolding insert_captured_event
  insert_captured_event-Keeps e = search (in_store, redact-HasNoSecret)

  posted-Keeps : (req : Request) → Keeps P (posted req)
  unfolding posted
  posted-Keeps req = search in_store

  session_body-Keeps : (req : Request) → Keeps P (session_body env req)
  unfolding session_body
  session_body-Keeps req = search (in_store, posted-Keeps)

  ruleset in_handler = (in_store, posted-Keeps, session_body-Keeps, insert_captured_event-Keeps)

  capture_raw-Keeps :
      (normalize : Normalizer) (req : Request) → Keeps P (capture_raw env opts normalize req)
  unfolding capture_raw
  capture_raw-Keeps normalize req = search in_handler

  capture-Keeps :
      (normalize : Normalizer) (req : Request) → Keeps P (capture env opts normalize req)
  unfolding capture
  capture-Keeps normalize req = search (in_handler, capture_raw-Keeps)

  handle-Keeps : (h : Hook) (req : Request) → Keeps P (handle env opts h req)
  unfolding handle context_of claude_session_start opencode_context claude_pre_compact
      opencode_enrich replay_session claude_stop end_session_of subagent_stop opencode_compact
  handle-Keeps post_tool req = capture-Keeps _ req
  handle-Keeps pre_tool req = capture-Keeps _ req
  handle-Keeps post_tool_failure req = capture-Keeps _ req
  handle-Keeps user_prompt req = capture-Keeps _ req
  handle-Keeps subagent_start req = capture-Keeps _ req
  handle-Keeps notification req = capture-Keeps _ req
  handle-Keeps task_completed req = capture-Keeps _ req
  handle-Keeps opencode_tool req = capture-Keeps _ req
  handle-Keeps opencode_chat req = capture-Keeps _ req
  handle-Keeps opencode_event req = capture-Keeps _ req
  handle-Keeps pre_compact req = search (in_handler, capture_raw-Keeps) depth 9
  handle-Keeps session_end req = search in_handler depth 9
  handle-Keeps stop req = search in_handler depth 12
  handle-Keeps subagent_end req = search in_handler depth 9
  handle-Keeps session_start req = search in_handler depth 9
  handle-Keeps context req = search in_handler depth 9
  handle-Keeps enrich req = search in_handler depth 12
  handle-Keeps compact req = search in_handler depth 9
  handle-Keeps opencode_end req = search in_handler depth 9
  handle-Keeps replay req = search in_handler depth 9

  serve_mcp-keeps : (req : Request) (w : World) → P w.db → P (serve_mcp env opts req w).1.db
  unfolding serve_mcp
  serve_mcp-keeps req w v =
      if_elim (λ (r : Response × World). P r.1.db) (not (str_eq req.method "POST"))
        (method_error, w) _ v
        (serve_rpc-keeps env.codec.zstd fl P kept env.mcp (env.mcp.json.rpc req.body) w v)

  responded-keeps : (r : Outcome Response × World) → P r.1.db → P (responded r).1.db
  responded-keeps (ok a, w) v = v
  responded-keeps (err e, w) v = v

  serve_route-keeps :
      (r : Option Route) (req : Request) (w : World)
      → P w.db
      → P (serve_route env opts r req w).1.db
  unfolding serve_route on_db
  serve_route-keeps none req w v = v
  serve_route-keeps (some healthz) req w v = v
  serve_route-keeps (some readyz) req w v = v
  serve_route-keeps (some mcp) req w v = serve_mcp-keeps req w v
  serve_route-keeps (some (hook h)) req w v =
      responded-keeps (on_db (handle env opts h req) w) ((handle-Keeps h req).apply w.db v)

-- Every request, whatever it is and whatever comes of it, keeps what the calls of the store's writing
-- methods keep.
pub serve-keeps {ℓ} :
    (env : HttpEnv) (opts : Options) (fl : DecayOps) (P : Db → Type ℓ) (req : Request) (w : World)
    → ((db : Db) (c : Call) → IsRedacted c → P db → P (perform env.codec.zstd fl db c))
    → P w.db
    → P (serve env opts req w).1.db
unfolding serve
serve-keeps env opts fl P req w kept v =
    if_elim (λ (r : Response × World). P r.1.db)
      (blank opts.bearer_token
        || is_health_check req.path
        || str_eq req.authorization (append_text "Bearer " opts.bearer_token))
      (serve_route env (with_defaults opts) (route_of req.path) req w) (_, w)
      (serve_route-keeps env (with_defaults opts) fl P kept (route_of req.path) req w v) v
