-- ===== src/Bench/Requests.antt =====
-- The requests of internal/bench/perf.go, and the names of the seeded sessions of internal/store/perf_seed.go.
use Prim.Native.String.{◌++◌ as append_text}
use yet_another_memory_bank.Common.{
  ℕ, suc, ◌%◌, String, true, false, List, [], ◌∷◌, str_eq, rows_where, exists_where,
}
use yet_another_memory_bank.Common.Json.{Value, string, boolean, dict, list, count}
use yet_another_memory_bank.Common.Texts.{concat, take_runes, trim_space}

-- The verbs %d, %03d and %06d, and sha256 of a text in hexadecimal digits.
pub record Formats : Type 0 where
  pub decimal : ℕ → String
  pub three : ℕ → String
  pub six : ℕ → String
  pub sha256_hex : String → String

module _ (f : Formats) (project run_id : String) where
  -- the first four bytes
  unfoldable pub perf_seed_scope_key : String
  perf_seed_scope_key = take_runes 8 (f.sha256_hex (append_text project (append_text "\0" run_id)))

  unfoldable pub perf_session_external_id_prefix : String
  unfolding perf_seed_scope_key
  perf_session_external_id_prefix = concat ("perf-" ∷ perf_seed_scope_key ∷ "-session-" ∷ [])

  unfoldable pub perf_session_external_id : ℕ → String
  unfolding perf_session_external_id_prefix
  perf_session_external_id i = append_text perf_session_external_id_prefix (f.six (suc i))

  abbrev pub perf_session_id : ℕ → String
  perf_session_id i = perf_session_external_id (i % 100)

  abbrev pub perf_live_session_id : String → ℕ → String
  perf_live_session_id kind i =
      concat (perf_session_external_id 0 ∷ "-" ∷ kind ∷ "-" ∷ f.six i ∷ [])

  -- a session and its directory, before the fields of the request's own
  abbrev pub session_fields : String → List (String × Value) → Value
  session_fields id fields = dict (("session_id", string id) ∷ ("cwd", string project) ∷ fields)

  abbrev pub session_body : ℕ → Value
  session_body i = session_fields (perf_session_id i) []

  abbrev pub replay_body : ℕ → Value
  replay_body i = dict (
      ("session_id", string (append_text "opencode:" (perf_session_id i)))
      ∷ ("limit", count 1000)
      ∷ [])

  abbrev pub enrich_body : ℕ → Value
  enrich_body i = session_fields (perf_session_id i) (
      (
        "files",
        list (
            string "README.md"
            ∷ string "internal/server/server.go"
            ∷ string (concat ("src/module_" ∷ f.three (i % 200) ∷ ".go" ∷ []))
            ∷ []),
      )
      ∷ [])

  abbrev pub opencode_event_body : ℕ → Value
  opencode_event_body i = session_fields (perf_live_session_id "event" i) (
      ("kind", string "session_status")
      ∷ ("payload", dict (("status_type", string "idle") ∷ ("i", count i) ∷ []))
      ∷ [])

  abbrev pub opencode_tool_body : ℕ → Value
  opencode_tool_body i = session_fields (perf_live_session_id "tool" i) (
      ("tool", string "Read")
      ∷ ("input", dict (("file", string "README.md") ∷ []))
      ∷ ("output", dict (("ok", boolean true) ∷ ("i", count i) ∷ []))
      ∷ [])

  abbrev pub opencode_chat_body : ℕ → Value
  opencode_chat_body i = session_fields (perf_live_session_id "chat" i) (
      (
        "message",
        string (concat ("perf chat message " ∷ f.decimal i ∷ " about jwt sqlite docker" ∷ [])),
      )
      ∷ [])

  abbrev pub claude_post_tool_body : ℕ → Value
  claude_post_tool_body i = session_fields (perf_live_session_id "claude-tool" i) (
      ("tool_name", string "Read")
      ∷ ("tool_input", dict (("file_path", string "README.md") ∷ []))
      ∷ ("tool_response", dict (("ok", boolean true) ∷ []))
      ∷ [])

  abbrev pub claude_user_prompt_body : ℕ → Value
  claude_user_prompt_body i =
      session_fields (perf_live_session_id "claude-prompt" i)
        (("prompt", string (concat ("perf prompt " ∷ f.decimal i ∷ " about memory" ∷ []))) ∷ [])

  abbrev pub claude_stop_body : ℕ → Value
  claude_stop_body i = session_fields (perf_session_id i) (("stop_hook_active", boolean false) ∷ [])

  abbrev pub mcp_call : String → List (String × Value) → ℕ → Value
  mcp_call name arguments i = dict (
      ("jsonrpc", string "2.0")
      ∷ ("id", count (suc i))
      ∷ ("method", string "tools/call")
      ∷ ("params", dict (("name", string name) ∷ ("arguments", dict arguments) ∷ []))
      ∷ [])

  abbrev pub mcp_memory_search_body : ℕ → Value
  mcp_memory_search_body i =
      mcp_call "memory_search"
        (("project", string project)
          ∷ ("query", string "jwt sqlite docker ollama")
          ∷ ("limit", count 10)
          ∷ [])
        i

  abbrev pub mcp_memory_recall_body : ℕ → Value
  mcp_memory_recall_body i =
      mcp_call "memory_recall"
        (("project", string project)
          ∷ ("query", string "docker compose embeddings")
          ∷ ("limit", count 10)
          ∷ [])
        i

  abbrev pub mcp_memory_save_body : ℕ → Value
  mcp_memory_save_body i =
      mcp_call "memory_save"
        (("project", string project)
          ∷ (
            "text",
            string (
                concat (
                  "perf live saved memory "
                  ∷ f.six i
                  ∷ ": benchmark fact for jwt sqlite docker"
                  ∷ [])),
          )
          ∷ ("tier", string "semantic")
          ∷ [])
        i

  abbrev pub mcp_memory_session_observations_body : ℕ → Value
  mcp_memory_session_observations_body i =
      mcp_call "memory_session_observations"
        (("session_id", string (append_text "opencode:" (perf_session_id i)))
          ∷ ("limit", count 100)
          ∷ [])
        i

pub record PerfEndpoint : Type 0 where
  pub group : String
  pub name : String
  pub path : String
  pub body : Formats → String → String → ℕ → Value

abbrev pub endpoint :
    String → String → String → (Formats → String → String → ℕ → Value) → PerfEndpoint
endpoint group name path body = record { group = group; name = name; path = path; body = body }

abbrev pub all_endpoints : List PerfEndpoint
all_endpoints =
    endpoint "capture" "opencode_event" "/integrations/opencode/event" opencode_event_body
    ∷ endpoint "capture" "opencode_tool" "/integrations/opencode/tool" opencode_tool_body
    ∷ endpoint "capture" "opencode_chat" "/integrations/opencode/chat" opencode_chat_body
    ∷ endpoint "capture" "claude_post_tool" "/hooks/post-tool" claude_post_tool_body
    ∷ endpoint "capture" "claude_user_prompt" "/hooks/user-prompt" claude_user_prompt_body
    ∷ endpoint "context" "opencode_context" "/integrations/opencode/context" session_body
    ∷ endpoint "context" "opencode_enrich" "/integrations/opencode/enrich" enrich_body
    ∷ endpoint "context" "claude_session_start" "/hooks/session-start" session_body
    ∷ endpoint "compaction" "opencode_compact" "/integrations/opencode/compact" session_body
    ∷ endpoint "compaction" "claude_stop" "/hooks/stop" claude_stop_body
    ∷ endpoint "replay" "replay_session" "/integrations/replay/session" replay_body
    ∷ endpoint "mcp" "memory_search" "/mcp" mcp_memory_search_body
    ∷ endpoint "mcp" "memory_recall" "/mcp" mcp_memory_recall_body
    ∷ endpoint "mcp" "memory_save" "/mcp" mcp_memory_save_body
    ∷ endpoint "mcp" "memory_session_observations" "/mcp" mcp_memory_session_observations_body
    ∷ []

unfoldable pub perf_endpoints : List String → List PerfEndpoint
perf_endpoints groups =
    rows_where (λ e. exists_where (λ group. str_eq (trim_space group) e.group) groups) all_endpoints
