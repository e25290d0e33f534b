-- ===== src/Mcp/Resources.antt =====
-- The resources and prompts of internal/mcp/server.go.
use yet_another_memory_bank.Common.{
  ◌>>=◌, ◌>>◌, guard, ℕ, String, ◌&&◌, not, List, [], ◌∷◌, if◌then◌else◌, str_eq, blank, Outcome,
  ok, err, bad_argument, unknown_name,
}
use yet_another_memory_bank.Common.Int.{pos}
use yet_another_memory_bank.Common.Json.{Value, string, list, dict}
use yet_another_memory_bank.Common.Texts.{has_prefix, has_suffix, trim_prefix, trim_suffix, concat}
use yet_another_memory_bank.Codec.{decoded}
use yet_another_memory_bank.Mcp.Arguments.{Env, PromptArgs, project}
use yet_another_memory_bank.Mcp.Dtos.{memory_dtos, session_dtos, audit_dtos, status_value}
use yet_another_memory_bank.Mcp.Tools.{is_blank}
use yet_another_memory_bank.Store.Audit.{audit_events}
use yet_another_memory_bank.Store.Memories.{recent_memories}
use yet_another_memory_bank.Store.Reports.Profiles.{status}
use yet_another_memory_bank.Store.Rows.{Db}
use yet_another_memory_bank.Store.Sessions.{list_sessions}
use yet_another_memory_bank.Mcp.Reading.{argument, profile_payload}

module _ (env : Env) (db : Db) where
  open env use {codec, json}

  -- the cases of the switch in `readResource`, in their order
  unfoldable pub resource_payload : String → Outcome Value
  unfolding profile_payload
  resource_payload uri =
      if str_eq uri "mcb://status"
      then ok (status_value (status db))
      else if has_prefix uri "mcb://project/" && has_suffix uri "/profile"
      then profile_payload env db (trim_suffix (trim_prefix uri "mcb://project/") "/profile")
      else if str_eq uri "mcb://memories/latest"
      then ok (dict (("memories", memory_dtos (recent_memories db (project env "") (pos 10))) ∷ []))
      else if str_eq uri "mcb://sessions/latest"
      then ok (dict (("sessions", session_dtos (list_sessions db (project env "") (pos 10))) ∷ []))
      else if str_eq uri "mcb://audit/latest"
      then ok (dict (("audit", audit_dtos (audit_events db 0 (pos 10))) ∷ []))
      else err unknown_name

  unfoldable pub read_resource : List ℕ → Outcome Value
  unfolding resource_payload
  read_resource raw = do
    uri ← argument (json.uri raw)
    guard (not (blank uri)) bad_argument
    payload ← resource_payload uri
    bytes ← decoded (codec.marshal payload)
    ok (
        dict (
          (
            "contents",
            list (
                dict (
                  ("uri", string uri)
                  ∷ ("mimeType", string "application/json")
                  ∷ ("text", string (codec.text bytes))
                  ∷ [])
                ∷ []),
          )
          ∷ []))

abbrev pub prompt_messages : String → String → Value
prompt_messages name text = dict (
    ("description", string name)
    ∷ (
      "messages",
      list (
          dict (
            ("role", string "user")
            ∷ ("content", dict (("type", string "text") ∷ ("text", string text) ∷ []))
            ∷ [])
          ∷ []),
    )
    ∷ [])

abbrev pub prompt_text : Env → PromptArgs → Outcome Value
prompt_text env in_ =
    if str_eq in_.name "recall_context"
    then (if is_blank in_.query
        then err bad_argument
        else ok (
            prompt_messages "recall_context" (
              concat (
                "Search mcb memory for "
                ∷ env.quoted in_.query
                ∷ ". Return only durable facts relevant to the current task, with memory IDs when available."
                ∷ []))))
    else if str_eq in_.name "session_handoff"
    then ok (
        prompt_messages "session_handoff" (
          concat (
            "Prepare a concise handoff for session "
            ∷ env.quoted in_.session_id
            ∷ ". Include completed work, decisions, unresolved risks, and durable facts worth saving to mcb."
            ∷ [])))
    else err unknown_name

unfoldable pub get_prompt : Env → List ℕ → Outcome Value
get_prompt env raw = do
  in_ ← argument (env.json.prompt raw)
  guard (not (blank in_.name)) bad_argument
  prompt_text env in_
