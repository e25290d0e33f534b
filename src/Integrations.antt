-- ===== src/Integrations.antt =====
-- internal/integrations: what the hooks of the agents send, as events. The decoding of each struct by
-- encoding/json and the marshalling of the payloads are parameters; a json.RawMessage is its bytes.
use yet_another_memory_bank.Common.{
  ◌>>=◌, ℕ, String, Bool, ◌||◌, Option, none, some, List, if◌then◌else◌, ◌==◌, str_eq, or_text,
  length, delete_where, Outcome, ok,
}
use yet_another_memory_bank.Common.Json.{Value, null, dict}
use yet_another_memory_bank.Codec.{Codec, decoded}

pub record Event : Type 0 where
  pub agent : String
  pub external_session_id : String
  pub cwd : String
  pub kind : String
  pub tool : String
  pub payload_json : List ℕ

-- The structs of the handlers, by their fields.
pub record SessionBody : Type 0 where
  pub session_id : String
  pub cwd : String

pub record ToolBody : Type 0 where
  pub session_id : String
  pub cwd : String
  pub tool_name : String
  pub tool_input : List ℕ
  pub tool_response : List ℕ

pub record TextBody : Type 0 where
  pub session_id : String
  pub cwd : String
  pub message : String

pub record EventBody : Type 0 where
  pub session_id : String
  pub cwd : String
  pub kind : String
  pub tool : String
  pub payload : List ℕ

-- json.Unmarshal into each of the structs, and into map[string]any, where `none` is the nil map;
-- json.Marshal of the payload structs
pub record EventJson : Type 0 where
  pub session : List ℕ → Option SessionBody
  pub pre_tool : List ℕ → Option ToolBody
  pub claude_tool : List ℕ → Option ToolBody
  pub opencode_tool : List ℕ → Option ToolBody
  pub prompt : List ℕ → Option TextBody
  pub chat : List ℕ → Option TextBody
  pub event : List ℕ → Option EventBody
  pub map_of : List ℕ → Option (Option (List (String × Value)))
  pub pre_tool_payload : List ℕ → Option (List ℕ)
  pub tool_payload : List ℕ → List ℕ → Option (List ℕ)
  pub prompt_payload : String → Option (List ℕ)
  pub message_payload : String → Option (List ℕ)

module _ (c : Codec) (j : EventJson) where
  -- `delete` of the four keys
  abbrev pub is_session_key : String × Value → Bool
  is_session_key m =
      str_eq m.0 "session_id"
      || str_eq m.0 "cwd"
      || str_eq m.0 "transcript_path"
      || str_eq m.0 "hook_event_name"

  abbrev pub without_session : Option (List (String × Value)) → Value
  without_session none = null
  without_session (some ms) = dict (delete_where is_session_key ms)

  unfoldable pub payload_without_session : List ℕ → Outcome (List ℕ)
  payload_without_session raw = do
    payload ← decoded (j.map_of raw)
    decoded (c.marshal (without_session payload))

  unfoldable pub normalize_claude_pre_tool : List ℕ → Outcome Event
  normalize_claude_pre_tool raw = do
    in_ ← decoded (j.pre_tool raw)
    payload ← decoded (j.pre_tool_payload in_.tool_input)
    ok (record {
      agent = "claude-code";
      external_session_id = in_.session_id;
      cwd = in_.cwd;
      kind = "pre_tool_use";
      tool = in_.tool_name;
      payload_json = payload;
    })

  -- `NormalizeClaudePostTool` and `NormalizeClaudePostToolFailure` differ in the kind alone.
  unfoldable pub normalize_claude_tool : String → List ℕ → Outcome Event
  normalize_claude_tool kind raw = do
    in_ ← decoded (j.claude_tool raw)
    payload ← decoded (j.tool_payload in_.tool_input in_.tool_response)
    ok (record {
      agent = "claude-code";
      external_session_id = in_.session_id;
      cwd = in_.cwd;
      kind = kind;
      tool = in_.tool_name;
      payload_json = payload;
    })

  unfoldable pub normalize_claude_post_tool : List ℕ → Outcome Event
  unfolding normalize_claude_tool
  normalize_claude_post_tool = normalize_claude_tool "tool_use"

  unfoldable pub normalize_claude_post_tool_failure : List ℕ → Outcome Event
  unfolding normalize_claude_tool
  normalize_claude_post_tool_failure = normalize_claude_tool "tool_error"

  unfoldable pub normalize_claude_user_prompt : List ℕ → Outcome Event
  normalize_claude_user_prompt raw = do
    in_ ← decoded (j.prompt raw)
    payload ← decoded (j.prompt_payload in_.message)
    ok (record {
      agent = "claude-code";
      external_session_id = in_.session_id;
      cwd = in_.cwd;
      kind = "user_message";
      tool = "";
      payload_json = payload;
    })

  unfoldable pub normalize_claude_lifecycle : String → List ℕ → Outcome Event
  unfolding payload_without_session
  normalize_claude_lifecycle kind raw = do
    base ← decoded (j.session raw)
    payload ← payload_without_session raw
    ok (record {
      agent = "claude-code";
      external_session_id = base.session_id;
      cwd = base.cwd;
      kind = kind;
      tool = "";
      payload_json = payload;
    })

  unfoldable pub normalize_opencode_tool : List ℕ → Outcome Event
  normalize_opencode_tool raw = do
    in_ ← decoded (j.opencode_tool raw)
    payload ← decoded (j.tool_payload in_.tool_input in_.tool_response)
    ok (record {
      agent = "opencode";
      external_session_id = in_.session_id;
      cwd = in_.cwd;
      kind = "tool_use";
      tool = in_.tool_name;
      payload_json = payload;
    })

  unfoldable pub normalize_opencode_event : List ℕ → Outcome Event
  unfolding payload_without_session
  normalize_opencode_event raw = do
    in_ ← decoded (j.event raw)
    payload ← if length in_.payload == 0 then payload_without_session raw else ok in_.payload
    ok (record {
      agent = "opencode";
      external_session_id = in_.session_id;
      cwd = in_.cwd;
      kind = or_text in_.kind "opencode_event";
      tool = in_.tool;
      payload_json = payload;
    })

  unfoldable pub normalize_opencode_chat : List ℕ → Outcome Event
  normalize_opencode_chat raw = do
    in_ ← decoded (j.chat raw)
    payload ← decoded (j.message_payload in_.message)
    ok (record {
      agent = "opencode";
      external_session_id = in_.session_id;
      cwd = in_.cwd;
      kind = "user_message";
      tool = "";
      payload_json = payload;
    })
