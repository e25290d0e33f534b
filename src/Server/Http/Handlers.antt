-- ===== src/Server/Http/Handlers.antt =====
-- The handlers of internal/server/server.go, each as what it does to the store and the response with which
-- it ends; the errors at which they return are answered in Server/Http.
use yet_another_memory_bank.Common.{
  ℕ, String, Bool, true, false, ◌&&◌, not, Option, none, some, List, [], ◌∷◌, map, blank, Outcome,
  bad_request,
}
use yet_another_memory_bank.Common.Action.{
  Action, ◌>>=◌, ◌>>◌, pure, require, query, gets, modify, transact, blame,
}
use yet_another_memory_bank.Common.Int.{ℤ, pos, clamp_limit, or_default}
use yet_another_memory_bank.Common.Json.{boolean, string, list, dict}
use yet_another_memory_bank.Codec.{hash_canonical_json}
use yet_another_memory_bank.Integrations.{Event, normalize_claude_lifecycle}
use yet_another_memory_bank.Mcp.Dtos.{record_value}
use yet_another_memory_bank.Replay.{records}
use yet_another_memory_bank.Secrets.{redact}
use yet_another_memory_bank.Server.Compaction.{CompactionOptions, Prompt, request_compaction}
use yet_another_memory_bank.Server.Context.{
  render_memory_context, render_file_memory_context, compactor_prompt, compactor_hint,
}
use yet_another_memory_bank.Server.Http.{
  Request, Response, Options, HttpEnv, posted, needed, session_body, no_content, ok_json,
}
use yet_another_memory_bank.Store.Memories.{recent_memories}
use yet_another_memory_bank.Store.Observations.{insert_observation, list_session_observations}
use yet_another_memory_bank.Store.Rows.{Db}
use yet_another_memory_bank.Store.Sessions.{ensure_session, end_session, recent_session_summaries}

abbrev pub Normalizer : Type 0
Normalizer = List ℕ → Outcome Event

-- `requestCompaction` as an action
unfoldable pub requested :
    String → String → String → Bool → CompactionOptions → ℤ → Action Db (Option Prompt)
requested session_id project agent active cfg now db =
    request_compaction db session_id project agent active cfg now

-- `opts` are the options after `with_defaults`.
module _ (env : HttpEnv) (opts : Options) where
  -- the length of the window, which is positive
  abbrev pub window : ℕ
  window = or_default opts.dedup_window_seconds 300

  unfoldable pub insert_captured_event : Event → Action Db (Unit {0})
  insert_captured_event event = do
    hash ← query λ _. hash_canonical_json env.codec event.payload_json
    _ ← transact λ db.
        insert_observation env.codec.zstd db
          (record {
            agent = event.agent;
            external_session_id = event.external_session_id;
            cwd = event.cwd;
            ts = env.now;
            kind = event.kind;
            tool = event.tool;
            payload_json = redact event.payload_json;
            hash = hash;
          })
          window
    pure tt

  -- no field that an event needs is empty
  abbrev pub is_complete : Event → Bool
  is_complete e =
      not (blank e.agent)
      && (not (blank e.external_session_id) && (not (blank e.cwd) && not (blank e.kind)))

  unfoldable pub capture_raw : Normalizer → Request → Action Db Event
  unfolding posted insert_captured_event
  capture_raw normalize req = do
    raw ← posted req
    event ← query λ _. blame bad_request (normalize raw)
    require (is_complete event) bad_request
    insert_captured_event event
    pure event

  unfoldable pub capture : Normalizer → Request → Action Db Response
  unfolding capture_raw
  capture normalize req = do _ ← capture_raw normalize req; pure no_content

  -- RecentMemories and RecentSessionSummaries, rendered
  unfoldable pub context_of : String → String → Action Db String
  context_of agent cwd = gets λ db.
      render_memory_context (recent_memories db cwd opts.session_start_top_n)
        (recent_session_summaries db cwd (pos 3)) (compactor_hint agent opts.compaction)

  abbrev pub hook_output : String → String → Response
  hook_output event context = ok_json (
      dict (
        (
          "hookSpecificOutput",
          dict (("hookEventName", string event) ∷ ("additionalContext", string context) ∷ []),
        )
        ∷ []))

  unfoldable pub claude_session_start : Request → Action Db Response
  unfolding session_body context_of
  claude_session_start req = do
    in_ ← session_body env req
    _ ← transact λ db. ensure_session db "claude-code" in_.session_id in_.cwd env.now
    context ← context_of "claude-code" in_.cwd
    pure (hook_output "SessionStart" context)

  unfoldable pub opencode_context : Request → Action Db Response
  unfolding session_body context_of
  opencode_context req = do
    in_ ← session_body env req
    _ ← transact λ db. ensure_session db "opencode" in_.session_id in_.cwd env.now
    context ← context_of "opencode" in_.cwd
    pure (ok_json (dict (("additional_context", string context) ∷ [])))

  unfoldable pub claude_pre_compact : Request → Action Db Response
  unfolding capture_raw context_of
  claude_pre_compact req = do
    event ← capture_raw (normalize_claude_lifecycle env.codec env.events "pre_compact") req
    context ← context_of "claude-code" event.cwd
    pure (hook_output "PreCompact" context)

  unfoldable pub opencode_enrich : Request → Action Db Response
  unfolding posted
  opencode_enrich req = do
    raw ← posted req
    in_ ← needed (env.bodies.enrich raw)
    require (not (blank in_.session_id) && not (blank in_.cwd)) bad_request
    _ ← transact λ db. ensure_session db "opencode" in_.session_id in_.cwd env.now
    context ← gets λ db. render_file_memory_context env.codec.lower db in_.cwd in_.files
    pure
        (ok_json (dict (("additional_context", string context) ∷ ("context", string context) ∷ [])))

  -- `normalizeReplayLimit`
  abbrev pub normalize_replay_limit : ℤ → ℤ
  normalize_replay_limit limit = pos (clamp_limit limit 100 1000)

  unfoldable pub replay_session : Request → Action Db Response
  unfolding posted
  replay_session req = do
    raw ← posted req
    in_ ← needed (env.bodies.replay raw)
    require (not (blank in_.session_id)) bad_request
    observations ← query λ db.
        list_session_observations env.codec.zstd db in_.session_id
          (normalize_replay_limit in_.limit)
    pure
        (ok_json (dict (("events", list (map record_value (records env.codec observations))) ∷ [])))

  -- The response to a stop, and to a request to compact. A prompt is not the empty text.
  abbrev pub stop_response : Option Prompt → Response
  stop_response none = no_content
  stop_response (some p) = ok_json (
      dict (
        ("decision", string "block")
        ∷ ("reason", string (compactor_prompt env.codec env.quoted p))
        ∷ []))

  abbrev pub compact_response : Option Prompt → Response
  compact_response none =
      ok_json (dict (("compact", boolean false) ∷ ("reason", string "compaction not needed") ∷ []))
  compact_response (some p) = ok_json (
      dict (
        ("compact", boolean true)
        ∷ ("prompt", string (compactor_prompt env.codec env.quoted p))
        ∷ []))

  unfoldable pub claude_stop : Request → Action Db Response
  unfolding posted
  claude_stop req = do
    raw ← posted req
    in_ ← needed (env.bodies.stop raw)
    require (not (blank in_.session_id) && not (blank in_.cwd)) bad_request
    session_id ← transact λ db. ensure_session db "claude-code" in_.session_id in_.cwd env.now
    decision ←
        requested session_id in_.cwd "claude-code" in_.stop_hook_active opts.compaction env.now
    pure (stop_response decision)

  unfoldable pub end_session_of : String → Request → Action Db Response
  unfolding session_body
  end_session_of agent req = do
    in_ ← session_body env req
    session_id ← transact λ db. ensure_session db agent in_.session_id in_.cwd env.now
    modify λ db. end_session db session_id env.now
    pure no_content

  unfoldable pub subagent_stop : Request → Action Db Response
  unfolding posted
  subagent_stop req = do raw ← posted req; _ ← needed (env.bodies.session_id raw); pure no_content

  unfoldable pub opencode_compact : Request → Action Db Response
  unfolding session_body
  opencode_compact req = do
    in_ ← session_body env req
    session_id ← transact λ db. ensure_session db "opencode" in_.session_id in_.cwd env.now
    prompt ← requested session_id in_.cwd "opencode" false opts.compaction env.now
    pure (compact_response prompt)
