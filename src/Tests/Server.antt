-- ===== src/Tests/Server.antt =====
-- internal/server at concrete inputs.
use yet_another_memory_bank.Common.{
  ℕ, ◌≡◌, refl, List, exists_where, arith, true, false, ◌&&◌, ◌||◌, not, none, [], ◌∷◌, str_eq,
}
use yet_another_memory_bank.Common.Int.{pos, le_ℤ, ◌-ℤ◌}
use yet_another_memory_bank.Store.Rows.{Db}
use yet_another_memory_bank.Store.Sessions.{end_session, save_session_summary}
use yet_another_memory_bank.Store.Compaction.{
  fresh_requested_compaction_attempts, session_needs_compaction,
}
use yet_another_memory_bank.Server.Compaction.{
  CompactionOptions, normalize_compaction, cutoff_at, request_compaction,
}
use yet_another_memory_bank.Server.Compaction.Attempts.{Counted, request_compaction-Counted}
use yet_another_memory_bank.Server.Compaction.Decision.{
  is_prompt, holds, request_compaction-is_prompt,
}
use yet_another_memory_bank.Tests.Observations.{padding, reading}
use yet_another_memory_bank.Server.Compaction.Ends.{Stop, prompted, request_compaction-end}
use yet_another_memory_bank.Server.Compaction.Summary.{request_compaction-save_session_summary}

-- a session with six observations
abbrev one_session : Db
one_session = record {
  sessions =
      record {
        id = "claude:1";
        agent = "claude";
        external_id = "1";
        project = "p";
        started_at = pos 10;
        ended_at = none;
        summary = none;
        n_obs = 6;
      }
      ∷ [];
  observations = [];
  memories = [];
  embeddings = [];
  attempts = [];
  audit = [];
  imported = [];
  fts = [];
  fts5 = true;
  next_observation = 1;
  next_memory = 1;
  next_attempt = 1;
  next_audit = 1;
  next_imported = 1;
}

abbrev defaults : CompactionOptions
defaults = record {
  mode = "";
  min_observations = pos 0;
  max_block_attempts = pos 0;
  attempt_ttl_seconds = pos 0;
  subagent_name = "";
}

request_compaction-Counted_example :
    let cfg = normalize_compaction defaults in
    let r = request_compaction one_session "claude:1" "p" "claude" false cfg (pos 1000000) in
    Counted cfg.max_block_attempts
      (fresh_requested_compaction_attempts one_session "claude:1" (cutoff_at cfg (pos 1000000)))
      (fresh_requested_compaction_attempts r.1 "claude:1" (cutoff_at cfg (pos 1000000)))
      r.0
request_compaction-Counted_example =
    request_compaction-Counted one_session "claude:1" "p" "claude" false defaults (pos 1000000)

request_compaction-is_prompt_example :
    is_prompt
      (request_compaction one_session "claude:1" "p" "claude" false defaults (pos 1000000)).0
    ≡ (not (false || str_eq "" "disabled" || str_eq "" "manual")
        && (holds (
              session_needs_compaction
                (end_session one_session "claude:1" (pos 1000000))
                "claude:1"
                (pos 0))
            && not (
                le_ℤ (pos 0) (
                  pos (
                    fresh_requested_compaction_attempts one_session "claude:1"
                      (cutoff_at defaults (pos 1000000)))))))
request_compaction-is_prompt_example =
    request_compaction-is_prompt one_session "claude:1" "p" "claude" false defaults (pos 1000000)

request_compaction-save_session_summary_example :
    is_prompt
      (request_compaction
        (save_session_summary one_session "claude:1" "done" (pos 20))
        "claude:1"
        "p"
        "claude"
        false
        defaults
        (pos 1000000)).0
    ≡ false
request_compaction-save_session_summary_example =
    request_compaction-save_session_summary one_session "claude:1" "done" "p" "claude" false
      defaults (pos 20) (pos 1000000) refl

-- three requests for the session, one of them while a stop hook is active
abbrev stop_at : ℕ → Stop
stop_at now = record { before = (reading "h" now, 0) ∷ []; is_active = false; now = pos now }

abbrev three_stops : List Stop
three_stops = stop_at 1000000 ∷ stop_at 1000001 ∷ stop_at 1000002 ∷ []

request_compaction-end_example :
    exists_where not (
      prompted padding one_session "claude:1" "p" "claude"
        (normalize_compaction defaults)
        three_stops)
    ≡ true
unfolding normalize_compaction ◌-ℤ◌
request_compaction-end_example =
    request_compaction-end padding defaults three_stops one_session "claude:1" "p" "claude"
      (pos 1000000) ((refl, refl), ((refl, refl), ((refl, refl), tt))) (omega arith)
