-- ===== src/Server/Compaction.antt =====
-- `requestCompaction` and `normalizeCompaction` of internal/server/server.go: when the end of a
-- session asks the agent to run the compactor.
pub mod Attempts
pub mod Decision
pub mod Summary
pub mod Captured
pub mod Ends
use yet_another_memory_bank.Common.{
  ℕ, ◌+◌, ◌*◌, String, Bool, true, false, ◌||◌, Option, none, some, List, if◌then◌else◌, str_eq,
  or_text, Outcome, ok, err,
}
use yet_another_memory_bank.Common.Int.{ℤ, pos, negsuc, or_default, le_ℤ, ◌-ℤ◌}
use yet_another_memory_bank.Store.Rows.{Db}
use yet_another_memory_bank.Store.Sessions.{end_session}
use yet_another_memory_bank.Store.Compaction.{
  insert_compaction_attempt, expire_compaction_attempts, fresh_requested_compaction_attempts,
  session_needs_compaction, session_cwds,
}

pub record CompactionOptions : Type 0 where
  pub mode : String
  pub min_observations : ℤ
  pub max_block_attempts : ℤ
  pub attempt_ttl_seconds : ℤ
  pub subagent_name : String

unfoldable pub normalize_compaction : CompactionOptions → CompactionOptions
normalize_compaction cfg = record {
  mode = or_text cfg.mode "subagent";
  min_observations = pos (or_default cfg.min_observations 5);
  max_block_attempts = pos (or_default cfg.max_block_attempts 2);
  attempt_ttl_seconds = pos (or_default cfg.attempt_ttl_seconds 600);
  subagent_name = or_text cfg.subagent_name "mcb-compactor";
}

-- What `compactorPrompt` puts in its text.
pub record Prompt : Type 0 where
  pub agent : String
  pub session_id : String
  pub project : String
  pub cwds : List String
  pub subagent : String

-- seconds * 1000
abbrev pub millis : ℤ → ℤ
millis (pos n) = pos (n * 1000)
millis (negsuc n) = negsuc (n * 1000 + 999)

abbrev pub cutoff_at : CompactionOptions → ℤ → ℤ
cutoff_at cfg now = now -ℤ millis cfg.attempt_ttl_seconds

-- What an error or a return leaves behind: the statements before it are not undone.
abbrev pub Handled {ℓ} : Type ℓ → Type ℓ
Handled A = Outcome A × Db

-- from the test of `fresh` on
unfoldable pub attempt :
    Db → String → String → String → CompactionOptions → ℤ → ℕ → Handled (Option Prompt)
attempt db session_id project agent cfg now fresh =
    if le_ℤ cfg.max_block_attempts (pos fresh)
    then (elim (insert_compaction_attempt db session_id "skipped" "max attempts" now) [
      | err e ↦ (err e, db)
      | ok db' ↦ (ok none, db')
    ])
    else (elim (insert_compaction_attempt db session_id "requested" "" now) [
      | err e ↦ (err e, db)
      | ok db' ↦ (
        ok (
            some (record {
              agent = agent;
              session_id = session_id;
              project = project;
              cwds = session_cwds db' session_id (pos 10);
              subagent = cfg.subagent_name;
            })),
        db',
      )
    ])

-- what follows the call of `SessionNeedsCompaction`, for each result of it
unfoldable pub consider :
    Db → String → String → String → CompactionOptions → ℤ → Outcome Bool → Handled (Option Prompt)
consider db session_id project agent cfg now (err e) = (err e, db)
consider db session_id project agent cfg now (ok false) = (ok none, db)
consider db session_id project agent cfg now (ok true) =
    let db' = expire_compaction_attempts db session_id (cutoff_at cfg now) in
    attempt db' session_id project agent cfg now
      (fresh_requested_compaction_attempts db' session_id (cutoff_at cfg now))

-- `none` stands for the empty prompt.
unfoldable pub request_compaction :
    Db → String → String → String → Bool → CompactionOptions → ℤ → Handled (Option Prompt)
request_compaction db session_id project agent stop_hook_active cfg now =
    let db' = end_session db session_id now in
    if stop_hook_active || str_eq cfg.mode "disabled" || str_eq cfg.mode "manual"
    then (ok none, db')
    else consider db' session_id project agent cfg now
        (session_needs_compaction db' session_id cfg.min_observations)
