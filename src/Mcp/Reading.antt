-- ===== src/Mcp/Reading.antt =====
-- The tools of internal/mcp/server.go that only read the store.
use yet_another_memory_bank.Common.{
  ◌>>=◌, ◌>>◌, guard, ℕ, String, ◌||◌, not, Option, none, some, List, [], ◌∷◌, map, if◌then◌else◌,
  ◌==◌, ltb, str_eq, blank, length, Outcome, ok, err, bad_argument,
}
use yet_another_memory_bank.Common.Json.{Value, string, list, dict}
use yet_another_memory_bank.Common.Texts.{to_lower, concat}
use yet_another_memory_bank.Codec.{decoded}
use yet_another_memory_bank.Mcp.Arguments.{Env, project}
use yet_another_memory_bank.Mcp.Dtos.{
  memory_dto, session_dto, observation_dto, memory_dtos, session_dtos, observation_dtos,
  timeline_dtos, audit_dtos, counts_value, project_profile_dto, record_value,
}
use yet_another_memory_bank.Mcp.Search.{normalized_limit}
use yet_another_memory_bank.Replay.{records}
use yet_another_memory_bank.Store.Audit.{audit_events}
use yet_another_memory_bank.Store.Observations.{list_session_observations}
use yet_another_memory_bank.Store.Reports.Files.{file_history}
use yet_another_memory_bank.Store.Reports.Patterns.{patterns}
use yet_another_memory_bank.Store.Reports.Profiles.{project_profile, project_profiles}
use yet_another_memory_bank.Store.Reports.Timeline.{ExportData, timeline, export, verify_memory}
use yet_another_memory_bank.Store.Rows.{Db}
use yet_another_memory_bank.Store.Sessions.{list_sessions}

abbrev pub argument {ℓ} : {A : Type ℓ} → Option A → Outcome A
argument none = err bad_argument
argument (some a) = ok a

module _ (env : Env) (db : Db) where
  open env use {codec, json}

  unfoldable pub memory_sessions : List ℕ → Outcome Value
  memory_sessions raw = do
    in_ ← argument (json.by_project raw)
    let sessions = list_sessions db (project env in_.project) (normalized_limit in_.limit 10 100)
    ok (dict (("sessions", session_dtos sessions) ∷ []))

  unfoldable pub memory_session_observations : List ℕ → Outcome Value
  memory_session_observations raw = do
    in_ ← argument (json.by_session raw)
    guard (not (blank in_.session_id)) bad_argument
    observations ←
        list_session_observations codec.zstd db in_.session_id (normalized_limit in_.limit 100 1000)
    ok (dict (("observations", observation_dtos codec observations) ∷ []))

  unfoldable pub profile_payload : String → Outcome Value
  profile_payload name =
      if blank name
      then (do
        profiles ← project_profiles codec.zstd codec.lower codec.parse db
        ok (dict (("projects", list (map project_profile_dto profiles)) ∷ [])))
      else (do
        profile ← project_profile codec.zstd codec.lower codec.parse db (project env name)
        ok (project_profile_dto profile))

  unfoldable pub memory_profile : List ℕ → Outcome Value
  unfolding profile_payload
  memory_profile raw = do name ← argument (json.profile raw); profile_payload name

  unfoldable pub memory_timeline : List ℕ → Outcome Value
  memory_timeline raw = do
    in_ ← argument (json.timeline raw)
    items ← timeline codec.zstd env.unstable db (project env in_.project) in_.session_id in_.limit
    ok (dict (("timeline", timeline_dtos codec items) ∷ []))

  unfoldable pub memory_file_history : List ℕ → Outcome Value
  memory_file_history raw = do
    in_ ← argument (json.files raw)
    guard (not (length in_.files == 0)) bad_argument
    history ←
        file_history codec.zstd codec.lower codec.text db (project env in_.project) in_.files
          in_.limit
    ok (
        dict (
          ("memories", memory_dtos history.memories)
          ∷ ("observations", observation_dtos codec history.observations)
          ∷ []))

  unfoldable pub memory_patterns : List ℕ → Outcome Value
  memory_patterns raw = do
    in_ ← argument (json.by_project raw)
    result ← patterns codec.zstd codec.lower codec.parse db (project env in_.project) in_.limit
    ok (
        dict (
          ("top_tools", counts_value result.top_tools)
          ∷ ("top_kinds", counts_value result.top_kinds)
          ∷ ("files", counts_value result.files)
          ∷ []))

  -- `writeLine`, for each of the values
  unfoldable pub lines : List Value → Outcome String
  lines [] = ok ""
  lines (v ∷ vs) = do
    line ← decoded (codec.marshal v)
    rest ← lines vs
    ok (concat (codec.text line ∷ "\n" ∷ rest ∷ []))

  abbrev pub tagged : String → Value → Value
  tagged tag v = dict (("type", string tag) ∷ (tag, v) ∷ [])

  unfoldable pub export_ndjson : ExportData → Outcome String
  unfolding lines
  export_ndjson e = do
    memories ← lines (map (λ m. tagged "memory" (memory_dto m)) e.memories)
    sessions ← lines (map (λ s. tagged "session" (session_dto s)) e.sessions)
    observations ← lines (map (λ o. tagged "observation" (observation_dto codec o)) e.observations)
    ok (concat (memories ∷ sessions ∷ observations ∷ []))

  unfoldable pub exported_as : String → ExportData → Outcome Value
  unfolding export_ndjson
  exported_as format e =
      if blank format || str_eq format "json"
      then ok (
          dict (
            ("memories", memory_dtos e.memories)
            ∷ ("sessions", session_dtos e.sessions)
            ∷ ("observations", observation_dtos codec e.observations)
            ∷ []))
      else if str_eq format "ndjson"
      then (do
        ndjson ← export_ndjson e
        ok (dict (("format", string "ndjson") ∷ ("ndjson", string ndjson) ∷ [])))
      else err bad_argument

  unfoldable pub memory_export : List ℕ → Outcome Value
  unfolding exported_as
  memory_export raw = do
    in_ ← argument (json.export raw)
    exported ← export codec.zstd db (project env in_.project) in_.limit
    exported_as (to_lower codec.lower in_.format) exported

  unfoldable pub memory_audit : List ℕ → Outcome Value
  memory_audit raw = do
    in_ ← argument (json.audit raw)
    ok (dict (("audit", audit_dtos (audit_events db in_.memory_id in_.limit)) ∷ []))

  unfoldable pub memory_verify : List ℕ → Outcome Value
  memory_verify raw = do
    id ← argument (json.verify raw)
    guard (ltb 0 id) bad_argument
    verified ← verify_memory codec.zstd db id
    ok (
        dict (
          ("memory", memory_dto verified.memory)
          ∷ ("observations", observation_dtos codec verified.observations)
          ∷ ("audit", audit_dtos verified.audit)
          ∷ []))

  unfoldable pub memory_replay : List ℕ → Outcome Value
  memory_replay raw = do
    in_ ← argument (json.by_session raw)
    guard (not (blank in_.session_id)) bad_argument
    observations ←
        list_session_observations codec.zstd db in_.session_id (normalized_limit in_.limit 100 1000)
    ok (dict (("events", list (map record_value (records codec observations))) ∷ []))
