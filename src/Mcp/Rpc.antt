-- ===== src/Mcp/Rpc.antt =====
-- The requests of internal/mcp/server.go: `callTool`, and `ServeHTTP` from the decoding of the body on.
pub mod Keeps
pub mod Readers
use yet_another_memory_bank.Common.{
  ℕ, String, Bool, true, false, ◌&&◌, ◌||◌, not, Option, none, some, List, [], ◌∷◌, map,
  if◌then◌else◌, ◌==◌, str_eq, blank, length, Error, Outcome, ok, err, bad_argument, unknown_name,
}
use yet_another_memory_bank.Common.Action.{Action, ◌>>=◌, ◌>>◌, pure, raise, require, query}
use yet_another_memory_bank.Common.Int.{ℤ, negsuc}
use yet_another_memory_bank.Common.Json.{Value, null, boolean, string, list, dict}
use yet_another_memory_bank.Codec.{decoded}
use yet_another_memory_bank.Mcp.Arguments.{Env, World, RpcRequest, ToolCallParams}
use yet_another_memory_bank.Mcp.Listing.{tool_value, tools, resources, prompts}
use yet_another_memory_bank.Mcp.Reading.{
  memory_sessions, memory_session_observations, memory_profile, memory_timeline,
  memory_file_history, memory_patterns, memory_export, memory_audit, memory_verify, memory_replay,
}
use yet_another_memory_bank.Mcp.Resources.{read_resource, get_prompt}
use yet_another_memory_bank.Store.Rows.{Db}
use yet_another_memory_bank.Mcp.Tools.{
  argument, memory_recall, memory_save, memory_forget, memory_session_summary_save,
  memory_supersede, memory_update,
}

-- The tools, as the cases of the switch in `callTool`.
pub data ToolName : Type 0 where
  recall search save sessions session_observations forget profile : ToolName
  session_summary_save supersede update timeline file_history patterns : ToolName
  export audit verify replay : ToolName

abbrev pub tool_names : List (String × ToolName)
tool_names =
    ("memory_recall", recall)
    ∷ ("memory_search", search)
    ∷ ("memory_save", save)
    ∷ ("memory_sessions", sessions)
    ∷ ("memory_session_observations", session_observations)
    ∷ ("memory_forget", forget)
    ∷ ("memory_profile", profile)
    ∷ ("memory_session_summary_save", session_summary_save)
    ∷ ("memory_supersede", supersede)
    ∷ ("memory_update", update)
    ∷ ("memory_timeline", timeline)
    ∷ ("memory_file_history", file_history)
    ∷ ("memory_patterns", patterns)
    ∷ ("memory_export", export)
    ∷ ("memory_audit", audit)
    ∷ ("memory_verify", verify)
    ∷ ("memory_replay", replay)
    ∷ []

abbrev pub named {ℓ} : {A : Type ℓ} → String → List (String × A) → Option A
named name [] = none
named name ((n, t) ∷ rest) = if str_eq name n then some t else named name rest

unfoldable pub tool_of : String → Option ToolName
tool_of name = named name tool_names

-- The methods, as the cases of the switch in `ServeHTTP`.
pub data Method : Type 0 where
  initialize notified list_tools list_resources read list_prompts prompt call : Method

unfoldable pub method_of : String → Option Method
method_of name = named name (
    ("initialize", initialize)
    ∷ ("notifications/initialized", notified)
    ∷ ("tools/list", list_tools)
    ∷ ("resources/list", list_resources)
    ∷ ("resources/read", read)
    ∷ ("prompts/list", list_prompts)
    ∷ ("prompts/get", prompt)
    ∷ ("tools/call", call)
    ∷ [])

-- "{}"
abbrev pub no_arguments : List ℕ
no_arguments = b'{' ∷ b'}' ∷ []

abbrev pub is_null : List ℕ → Bool
is_null (a ∷ b ∷ c ∷ d ∷ []) = a == b'n' && b == b'u' && c == b'l' && d == b'l'
is_null _ = false

abbrev pub given_arguments : List ℕ → List ℕ
given_arguments raw = if length raw == 0 || is_null raw then no_arguments else raw

-- The response: the id of the request, which is null if it has none, and the result or the code
-- and the message of the error.
pub record RpcResponse : Type 0 where
  pub id : Option (List ℕ)
  pub result : Option Value
  pub error : Option (ℤ × String)

abbrev pub response_id : List ℕ → Option (List ℕ)
response_id id = if length id == 0 then none else some id

abbrev pub with_result : List ℕ → Value → RpcResponse
with_result id v = record { id = response_id id; result = some v; error = none }

abbrev pub with_error : List ℕ → ℤ → String → RpcResponse
with_error id code message = record {
  id = response_id id;
  result = none;
  error = some (code, message);
}

module _ (env : Env) where
  -- a tool that only reads
  abbrev pub reading : (Env → Db → List ℕ → Outcome Value) → List ℕ → Action World Value
  reading f raw = query λ w. f env w.db raw

  unfoldable pub run_tool : ToolName → List ℕ → Action World Value
  run_tool recall raw = memory_recall env true raw
  run_tool search raw = memory_recall env false raw
  run_tool save raw = memory_save env raw
  run_tool sessions raw = reading memory_sessions raw
  run_tool session_observations raw = reading memory_session_observations raw
  run_tool forget raw = memory_forget env raw
  run_tool profile raw = reading memory_profile raw
  run_tool session_summary_save raw = memory_session_summary_save env raw
  run_tool supersede raw = memory_supersede env raw
  run_tool update raw = memory_update env raw
  run_tool timeline raw = reading memory_timeline raw
  run_tool file_history raw = reading memory_file_history raw
  run_tool patterns raw = reading memory_patterns raw
  run_tool export raw = reading memory_export raw
  run_tool audit raw = reading memory_audit raw
  run_tool verify raw = reading memory_verify raw
  run_tool replay raw = reading memory_replay raw

  -- `toolText`
  unfoldable pub tool_text : Value → Outcome Value
  tool_text payload = elim (env.codec.marshal payload) [
    | none ↦ err Error.bad_json
    | some bytes ↦ ok (
        dict (
          (
            "content",
            list (
                dict (("type", string "text") ∷ ("text", string (env.codec.text bytes)) ∷ []) ∷ []),
          )
          ∷ []))
  ]

  unfoldable pub dispatch : Option ToolName → List ℕ → Action World Value
  unfolding run_tool
  dispatch none raw = raise unknown_name
  dispatch (some t) raw = run_tool t raw

  unfoldable pub call_tool : List ℕ → Action World Value
  unfolding dispatch tool_text tool_of
  call_tool raw = do
    params ← argument (env.json.tool_call raw)
    require (not (blank params.name)) bad_argument
    payload ← dispatch (tool_of params.name) (given_arguments params.arguments)
    query λ _. tool_text payload

  -- -32602 for the errors of the calls
  abbrev pub answered : List ℕ → Outcome Value × World → RpcResponse × World
  answered id (ok v, w) = (with_result id v, w)
  answered id (err e, w) = (with_error id (negsuc 32601) (env.message e), w)

  abbrev pub capability : Value
  capability = dict (("listChanged", boolean false) ∷ [])

  abbrev pub initialized : Value
  initialized = dict (
      ("protocolVersion", string "2024-11-05")
      ∷ (
        "capabilities",
        dict (("tools", capability) ∷ ("resources", capability) ∷ ("prompts", capability) ∷ []),
      )
      ∷ ("serverInfo", dict (("name", string "mcb") ∷ ("version", string "dev") ∷ []))
      ∷ [])

  -- the cases of the switch in `ServeHTTP`
  unfoldable pub serve_method : Option Method → RpcRequest → World → RpcResponse × World
  unfolding call_tool
  serve_method (some initialize) req w = (with_result req.id initialized, w)
  serve_method (some notified) req w = (with_result req.id (dict []), w)
  serve_method (some list_tools) req w =
      (with_result req.id (dict (("tools", list (map (tool_value env.range) tools)) ∷ [])), w)
  serve_method (some list_resources) req w =
      (with_result req.id (dict (("resources", list resources) ∷ [])), w)
  serve_method (some read) req w = answered req.id (read_resource env w.db req.params, w)
  serve_method (some list_prompts) req w =
      (with_result req.id (dict (("prompts", list prompts) ∷ [])), w)
  serve_method (some prompt) req w = answered req.id (get_prompt env req.params, w)
  serve_method (some call) req w = answered req.id (call_tool req.params w)
  serve_method none req w = (with_error req.id (negsuc 32600) "method not found", w)

  -- for the decoded body, if it can be decoded
  unfoldable pub serve_rpc : Option RpcRequest → World → RpcResponse × World
  unfolding serve_method method_of
  serve_rpc none w = (with_error [] (negsuc 32699) "invalid json-rpc request", w)
  serve_rpc (some req) w =
      if not (str_eq req.jsonrpc "2.0") || blank req.method
      then (with_error [] (negsuc 32699) "invalid json-rpc request", w)
      else serve_method (method_of req.method) req w
