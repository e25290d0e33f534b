-- ===== src/Mcp/Dtos.antt =====
-- The values that internal/mcp/server.go makes of the store's records.
use yet_another_memory_bank.Common.{true, List, [], ◌∷◌, map, if◌then◌else◌, ◌==◌, length}
use yet_another_memory_bank.Common.Json.{
  Value, null, boolean, integer, float, string, list, dict, count,
}
use yet_another_memory_bank.Codec.{Codec}
use yet_another_memory_bank.Replay.{ReplayRecord, parsed_or_text}
use yet_another_memory_bank.Store.Rows.{AuditPayload, created, updated, deleted, superseded}
use yet_another_memory_bank.Store.Audit.{AuditEvent}
use yet_another_memory_bank.Store.Memories.{Memory}
use yet_another_memory_bank.Store.Observations.{Observation}
use yet_another_memory_bank.Store.Sessions.{Session}
use yet_another_memory_bank.Store.Reports.Patterns.{Counts}
use yet_another_memory_bank.Store.Reports.Profiles.{ProjectProfile, StatusCounts}
use yet_another_memory_bank.Store.Reports.Timeline.{TimelineItem}

unfoldable pub memory_dto : Memory → Value
memory_dto m = dict (
    ("id", count m.id)
    ∷ ("project", string m.project)
    ∷ ("text", string m.text)
    ∷ ("tier", string m.tier)
    ∷ ("source", string m.source)
    ∷ ("importance", float m.importance)
    ∷ ("session_id", string m.session_id)
    ∷ ("created_at", integer m.created_at)
    ∷ ("updated_at", integer m.updated_at)
    ∷ ("accessed_at", integer m.accessed_at)
    ∷ ("score", float m.score)
    ∷ [])

unfoldable pub session_dto : Session → Value
session_dto s = dict (
    ("id", string s.id)
    ∷ ("agent", string s.agent)
    ∷ ("external_id", string s.external_id)
    ∷ ("project", string s.project)
    ∷ ("started_at", integer s.started_at)
    ∷ ("ended_at", integer s.ended_at)
    ∷ ("summary", string s.summary)
    ∷ ("n_obs", count s.n_obs)
    ∷ [])

unfoldable pub observation_dto : Codec → Observation → Value
observation_dto c o = dict (
    ("id", count o.id)
    ∷ ("session_id", string o.session_id)
    ∷ ("cwd", string o.cwd)
    ∷ ("ts", integer o.ts)
    ∷ ("kind", string o.kind)
    ∷ ("tool", string o.tool)
    ∷ ("payload", parsed_or_text c o.payload_json)
    ∷ [])

unfoldable pub timeline_dto : Codec → TimelineItem → Value
timeline_dto c i = dict (
    ("type", string i.type)
    ∷ ("id", count i.id)
    ∷ ("project", string i.project)
    ∷ ("session_id", string i.session_id)
    ∷ ("ts", integer i.ts)
    ∷ ("kind", string i.kind)
    ∷ ("tool", string i.tool)
    ∷ ("text", string i.text)
    ∷ ("payload", (if length i.payload_json == 0 then null else parsed_or_text c i.payload_json))
    ∷ [])

-- what json.Unmarshal makes of the payload of an audit event
unfoldable pub audit_value : AuditPayload → Value
audit_value (created tier source) = dict (("tier", string tier) ∷ ("source", string source) ∷ [])
audit_value (updated text tier importance) =
    dict (("text", boolean text) ∷ ("tier", boolean tier) ∷ ("importance", boolean importance) ∷ [])
audit_value deleted = dict (("explicit", boolean true) ∷ [])
audit_value (superseded new_id) = dict (("new_id", count new_id) ∷ [])

unfoldable pub audit_dto : AuditEvent → Value
unfolding audit_value
audit_dto e = dict (
    ("id", count e.id)
    ∷ ("ts", integer e.ts)
    ∷ ("action", string e.action)
    ∷ ("memory_id", count e.memory_id)
    ∷ ("session_id", string e.session_id)
    ∷ ("project", string e.project)
    ∷ ("payload", audit_value e.payload)
    ∷ [])

unfoldable pub counts_value : Counts → Value
counts_value counts = dict (map (λ e. (e.0, count e.1)) counts)

unfoldable pub project_profile_dto : ProjectProfile → Value
unfolding counts_value
project_profile_dto p = dict (
    ("project", string p.project)
    ∷ ("memory_count", count p.memory_count)
    ∷ ("session_count", count p.session_count)
    ∷ ("observation_count", count p.observation_count)
    ∷ ("top_tiers", counts_value p.top_tiers)
    ∷ ("top_tools", counts_value p.top_tools)
    ∷ ("files_touched", counts_value p.files_touched)
    ∷ [])

unfoldable pub status_value : StatusCounts → Value
status_value s = dict (
    ("memory_count", count s.memory_count)
    ∷ ("session_count", count s.session_count)
    ∷ ("observation_count", count s.observation_count)
    ∷ [])

-- the JSON of a replay record, by its tags
unfoldable pub record_value : ReplayRecord → Value
record_value r = dict (
    ("id", string r.id)
    ∷ ("observation_id", count r.observation_id)
    ∷ ("timestamp", integer r.timestamp)
    ∷ ("actor", string r.actor)
    ∷ ("type", string r.type)
    ∷ ("tool", string r.tool)
    ∷ ("payload_preview", string r.payload_preview)
    ∷ ("payload_detail", r.payload_detail)
    ∷ [])

abbrev pub memory_dtos : List Memory → Value
memory_dtos memories = list (map memory_dto memories)

abbrev pub session_dtos : List Session → Value
session_dtos sessions = list (map session_dto sessions)

abbrev pub observation_dtos : Codec → List Observation → Value
observation_dtos c observations = list (map (observation_dto c) observations)

abbrev pub timeline_dtos : Codec → List TimelineItem → Value
timeline_dtos c items = list (map (timeline_dto c) items)

abbrev pub audit_dtos : List AuditEvent → Value
audit_dtos events = list (map audit_dto events)
