-- ===== src/Server/Http/Routes.antt =====
-- `NewWithOptions` of internal/server/server.go: the routes, and the middleware around them. A handler that
-- panics is not modelled.
use Prim.Native.String.{◌++◌ as append_text}
use yet_another_memory_bank.Common.{
  ℕ, String, Bool, false, ◌||◌, not, Option, none, some, List, [], ◌∷◌, if◌then◌else◌, str_eq,
  blank, Outcome,
}
use yet_another_memory_bank.Common.Action.{Action}
use yet_another_memory_bank.Integrations.{
  Event, normalize_claude_pre_tool, normalize_claude_post_tool, normalize_claude_post_tool_failure,
  normalize_claude_user_prompt, normalize_claude_lifecycle, normalize_opencode_tool,
  normalize_opencode_event, normalize_opencode_chat,
}
use yet_another_memory_bank.Mcp.Arguments.{World, on_db}
use yet_another_memory_bank.Mcp.Rpc.{serve_rpc}
use yet_another_memory_bank.Server.Http.{
  Request, Response, Options, HttpEnv, empty, plain, rpc, method_error, responded, with_defaults,
}
use yet_another_memory_bank.Server.Http.Handlers.{
  capture, claude_session_start, opencode_context, claude_pre_compact, opencode_enrich,
  replay_session, claude_stop, end_session_of, subagent_stop, opencode_compact,
}
use yet_another_memory_bank.Store.Rows.{Db}

-- what a pattern of the mux leads to
pub data Hook : Type 0 where
  post_tool pre_tool post_tool_failure user_prompt pre_compact : Hook
  subagent_start notification task_completed session_end stop subagent_end session_start : Hook
  opencode_tool opencode_chat opencode_event context enrich compact opencode_end : Hook
  replay : Hook

pub data Route : Type 0 where
  healthz readyz mcp : Route
  hook : Hook → Route

abbrev pub patterns : List (String × Route)
patterns =
    ("/healthz", healthz)
    ∷ ("/readyz", readyz)
    ∷ ("/hooks/post-tool", hook post_tool)
    ∷ ("/hooks/pre-tool", hook pre_tool)
    ∷ ("/hooks/post-tool-failure", hook post_tool_failure)
    ∷ ("/hooks/user-prompt", hook user_prompt)
    ∷ ("/hooks/pre-compact", hook pre_compact)
    ∷ ("/hooks/subagent-start", hook subagent_start)
    ∷ ("/hooks/notification", hook notification)
    ∷ ("/hooks/task-completed", hook task_completed)
    ∷ ("/hooks/session-end", hook session_end)
    ∷ ("/hooks/stop", hook stop)
    ∷ ("/hooks/subagent-stop", hook subagent_end)
    ∷ ("/hooks/session-start", hook session_start)
    ∷ ("/integrations/opencode/tool", hook opencode_tool)
    ∷ ("/integrations/opencode/chat", hook opencode_chat)
    ∷ ("/integrations/opencode/event", hook opencode_event)
    ∷ ("/integrations/opencode/context", hook context)
    ∷ ("/integrations/opencode/enrich", hook enrich)
    ∷ ("/integrations/opencode/compact", hook compact)
    ∷ ("/integrations/opencode/session-end", hook opencode_end)
    ∷ ("/integrations/replay/session", hook replay)
    ∷ ("/mcp", mcp)
    ∷ []

abbrev pub route_in : String → List (String × Route) → Option Route
route_in path [] = none
route_in path ((p, r) ∷ rest) = if str_eq path p then some r else route_in path rest

unfoldable pub route_of : String → Option Route
route_of path = route_in path patterns

abbrev pub is_health_check : String → Bool
is_health_check path = str_eq path "/healthz" || str_eq path "/readyz"

abbrev pub not_ready : Response
not_ready = record { status = 503; body = plain "not ready" }

module _ (env : HttpEnv) (opts : Options) where
  -- the handlers of the two checks
  unfoldable pub health : Request → Response
  health req =
      if not (str_eq req.method "GET") then method_error else record { status = 200; body = empty }

  abbrev pub probe_failed : Option Bool → Bool
  probe_failed none = false
  probe_failed (some good) = not good

  unfoldable pub readiness : Request → Response
  readiness req =
      if not (str_eq req.method "GET")
      then method_error
      else if not env.ready || probe_failed env.probe
      then not_ready
      else record { status = 200; body = empty }

  abbrev pub lifecycle : String → List ℕ → Outcome Event
  lifecycle kind = normalize_claude_lifecycle env.codec env.events kind

  -- the routes that lead to the store
  unfoldable pub handle : Hook → Request → Action Db Response
  handle post_tool req = capture env opts (normalize_claude_post_tool env.codec env.events) req
  handle pre_tool req = capture env opts (normalize_claude_pre_tool env.codec env.events) req
  handle post_tool_failure req =
      capture env opts (normalize_claude_post_tool_failure env.codec env.events) req
  handle user_prompt req = capture env opts (normalize_claude_user_prompt env.codec env.events) req
  handle pre_compact req = claude_pre_compact env opts req
  handle subagent_start req = capture env opts (lifecycle "subagent_start") req
  handle notification req = capture env opts (lifecycle "notification") req
  handle task_completed req = capture env opts (lifecycle "task_completed") req
  handle session_end req = end_session_of env opts "claude-code" req
  handle stop req = claude_stop env opts req
  handle subagent_end req = subagent_stop env opts req
  handle session_start req = claude_session_start env opts req
  handle opencode_tool req = capture env opts (normalize_opencode_tool env.codec env.events) req
  handle opencode_chat req = capture env opts (normalize_opencode_chat env.codec env.events) req
  handle opencode_event req = capture env opts (normalize_opencode_event env.codec env.events) req
  handle context req = opencode_context env opts req
  handle enrich req = opencode_enrich env opts req
  handle compact req = opencode_compact env opts req
  handle opencode_end req = end_session_of env opts "opencode" req
  handle replay req = replay_session env opts req

  -- `ServeHTTP` of internal/mcp/server.go
  unfoldable pub serve_mcp : Request → World → Response × World
  serve_mcp req w =
      if not (str_eq req.method "POST")
      then (method_error, w)
      else let r = serve_rpc env.mcp (env.mcp.json.rpc req.body) w in
        (record { status = 200; body = rpc r.0 }, r.1)

  unfoldable pub serve_route : Option Route → Request → World → Response × World
  unfolding health readiness serve_mcp handle
  serve_route none req w = (env.unmatched req.path, w)
  serve_route (some healthz) req w = (health req, w)
  serve_route (some readyz) req w = (readiness req, w)
  serve_route (some mcp) req w = serve_mcp req w
  serve_route (some (hook h)) req w = responded (on_db (handle h req) w)

-- `authMiddleware` around the mux
unfoldable pub serve : HttpEnv → Options → Request → World → Response × World
unfolding serve_route route_of with_defaults
serve env options req w =
    let opts = with_defaults options in
    if blank options.bearer_token
      || is_health_check req.path
      || str_eq req.authorization (append_text "Bearer " options.bearer_token)
    then serve_route env opts (route_of req.path) req w
    else (record { status = 401; body = plain "unauthorized" }, w)
