-- ===== src/Mcp/Listing.antt =====
-- What internal/mcp/server.go lists: the tools, the resources and the prompts.
pub mod Names
use yet_another_memory_bank.Common.{String, Bool, true, false, List, [], ◌∷◌, map, if◌then◌else◌}
use yet_another_memory_bank.Common.Json.{Value, boolean, string, list, dict}

-- A property of a tool's arguments, with the members of its schema.
pub record Property : Type 0 where
  pub name : String
  pub schema : List (String × Value)
  pub required : Bool

-- `schema`, from which `tool` deletes "x-required" where it is true
abbrev pub schema : String → String → Bool → Property
schema name type required = record {
  name = name;
  schema = ("type", string type) ∷ (if required then [] else ("x-required", boolean false) ∷ []);
  required = required;
}

abbrev pub array_schema : String → String → Bool → Property
array_schema name type required = record {
  name = name;
  schema = ("type", string "array") ∷ ("items", dict (("type", string type) ∷ [])) ∷ [];
  required = required;
}

abbrev pub required_names : List Property → List String
required_names [] = []
required_names (p ∷ ps) = if p.required then p.name ∷ required_names ps else required_names ps

pub record Tool : Type 0 where
  pub name : String
  pub description : String
  pub properties : List Property

-- `tool`: the required names come in the order in which Go ranges over the map of the properties.
unfoldable pub tool_value : (List String → List String) → Tool → Value
tool_value range t = dict (
    ("name", string t.name)
    ∷ ("description", string t.description)
    ∷ (
      "inputSchema",
      dict (
          ("type", string "object")
          ∷ ("properties", dict (map (λ p. (p.name, dict p.schema)) t.properties))
          ∷ ("required", list (map string (range (required_names t.properties))))
          ∷ []),
    )
    ∷ [])

abbrev pub tool : String → String → List Property → Tool
tool name description properties = record {
  name = name;
  description = description;
  properties = properties;
}

unfoldable pub tools : List Tool
tools =
    tool "memory_recall"
      "Search project memories and refresh access metadata for returned memories."
      (schema "query" "string" true
        ∷ schema "project" "string" false
        ∷ schema "limit" "integer" false
        ∷ [])
    ∷ tool "memory_save" "Save a durable memory fact for the current project." (
        schema "text" "string" true
        ∷ schema "tier" "string" false
        ∷ schema "project" "string" false
        ∷ schema "importance" "number" false
        ∷ schema "session_id" "string" false
        ∷ [])
    ∷ tool "memory_search" "Search project memories without refreshing access metadata." (
        schema "query" "string" true
        ∷ schema "project" "string" false
        ∷ schema "limit" "integer" false
        ∷ [])
    ∷ tool "memory_sessions" "List captured sessions for a project."
        (schema "project" "string" false ∷ schema "limit" "integer" false ∷ [])
    ∷ tool "memory_session_observations" "List decoded observations captured for a session."
        (schema "session_id" "string" true ∷ schema "limit" "integer" false ∷ [])
    ∷ tool "memory_forget" "Dry-run by query or delete explicitly confirmed memory IDs." (
        schema "query" "string" false
        ∷ schema "project" "string" false
        ∷ schema "dry_run" "boolean" false
        ∷ array_schema "ids" "integer" false
        ∷ schema "confirm" "boolean" false
        ∷ schema "limit" "integer" false
        ∷ [])
    ∷ tool "memory_profile" "Return aggregate memory and capture statistics for a project."
        (schema "project" "string" false ∷ [])
    ∷ tool "memory_session_summary_save" "Save a concise compaction summary for a captured session."
        (schema "session_id" "string" true ∷ schema "summary" "string" true ∷ [])
    ∷ tool "memory_supersede" "Mark an old memory as superseded by a newer memory."
        (schema "old_id" "integer" true ∷ schema "new_id" "integer" true ∷ [])
    ∷ tool "memory_update" "Edit an existing memory's text, tier, or importance." (
        schema "id" "integer" true
        ∷ schema "text" "string" false
        ∷ schema "tier" "string" false
        ∷ schema "importance" "number" false
        ∷ [])
    ∷ tool "memory_timeline"
        "Return chronological memories and observations for a project or session."
        (schema "project" "string" false
          ∷ schema "session_id" "string" false
          ∷ schema "limit" "integer" false
          ∷ [])
    ∷ tool "memory_file_history" "Return memories and observations related to file paths." (
        schema "project" "string" false
        ∷ array_schema "files" "string" true
        ∷ schema "limit" "integer" false
        ∷ [])
    ∷ tool "memory_patterns"
        "Aggregate recurring tools, observation kinds, and files for a project."
        (schema "project" "string" false ∷ schema "limit" "integer" false ∷ [])
    ∷ tool "memory_export" "Export project memories, sessions, and observations as JSON."
        (schema "project" "string" false ∷ schema "limit" "integer" false ∷ [])
    ∷ tool "memory_audit" "List memory mutation audit events."
        (schema "memory_id" "integer" false ∷ schema "limit" "integer" false ∷ [])
    ∷ tool "memory_verify" "Trace a memory back to source session observations and audit events."
        (schema "id" "integer" true ∷ [])
    ∷ tool "memory_replay" "Return ordered replay records for a captured session."
        (schema "session_id" "string" true ∷ schema "limit" "integer" false ∷ [])
    ∷ []

abbrev pub resource : String → String → String → Value
resource uri name description = dict (
    ("uri", string uri)
    ∷ ("name", string name)
    ∷ ("mimeType", string "application/json")
    ∷ ("description", string description)
    ∷ [])

unfoldable pub resources : List Value
resources =
    resource "mcb://status" "mcb status" "Counts and status for the memory bank."
    ∷ resource "mcb://project/{project}/profile" "project profile"
        "Aggregate memory and capture statistics for one project."
    ∷ resource "mcb://memories/latest" "latest memories"
        "Latest active memories for the default project."
    ∷ resource "mcb://sessions/latest" "latest sessions" "Latest sessions for the default project."
    ∷ resource "mcb://audit/latest" "latest audit events" "Latest memory mutation audit events."
    ∷ []

abbrev pub prompt : String → String → String → String → Bool → Value
prompt name description argument about required = dict (
    ("name", string name)
    ∷ ("description", string description)
    ∷ (
      "arguments",
      list (
          dict (
            ("name", string argument)
            ∷ ("description", string about)
            ∷ ("required", boolean required)
            ∷ [])
          ∷ []),
    )
    ∷ [])

unfoldable pub prompts : List Value
prompts =
    prompt "recall_context" "Search mcb memory and produce compact task context." "query"
      "Task or question to recall context for." true
    ∷ prompt "session_handoff"
        "Prepare a concise handoff summary for another agent or future session." "session_id"
        "Normalized session ID to summarize." false
    ∷ []
