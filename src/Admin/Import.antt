-- ===== src/Admin/Import.antt =====
-- internal/admin/import_jsonl.go: the import of transcripts, each of them the list of its lines.
pub mod Kept
pub mod Twice
pub mod Calls
use yet_another_memory_bank.Common.{
  ℕ, suc, ◌+◌, String, Bool, true, false, ◌&&◌, Option, none, some, List, [], ◌∷◌, if◌then◌else◌,
  ◌==◌, length, Outcome, ok, err, bad_argument, bad_request,
}
use yet_another_memory_bank.Common.Action.{
  Action, ◌>>=◌, ◌>>◌, pure, raise, require, query, gets, transact,
}
use yet_another_memory_bank.Common.Int.{ℤ}
use yet_another_memory_bank.Admin.Transcript.{Transcripts, parse_claude_transcript_event}
use yet_another_memory_bank.Store.Imports.{imported_event_exists, record_imported_event}
use yet_another_memory_bank.Store.Observations.{ObservationInput, insert_observation}
use yet_another_memory_bank.Store.Rows.{Db}

pub record ImportStats : Type 0 where
  pub files : ℕ
  pub imported : ℕ
  pub skipped : ℕ

-- What one line comes to: it is blank, its event was imported, or it was there.
pub data LineResult : Type 0 where
  blank_line new_event old_event : LineResult

unfoldable pub counted : ImportStats → LineResult → ImportStats
counted s blank_line = s
counted s new_event = record s { imported = s.imported + 1 }
counted s old_event = record s { skipped = s.skipped + 1 }

abbrev pub inserted_as : Bool → LineResult
inserted_as true = new_event
inserted_as false = old_event

-- A transcript: its absolute path, its lines, and if the scanner ends without an error, such as a line
-- that is too long.
pub record Transcript : Type 0 where
  pub path : String
  pub lines : List (List ℕ)
  pub complete : Bool

-- RecordImportedEvent
unfoldable pub recorded : String → String → ℤ → Action Db Bool
recorded path event_id at db = let r = record_imported_event db path event_id at in (ok r.0, r.1)

module _ (e : Transcripts) (project : String) (at : ℤ) where
  -- The event of a line. The insertion and the record are two transactions.
  unfoldable pub import_new : String → ObservationInput × String → Action Db LineResult
  unfolding recorded
  import_new path event = do
    inserted ← transact λ db. insert_observation e.zstd db event.0 0
    fresh ← recorded path event.1 at
    pure (inserted_as (inserted && fresh))

  unfoldable pub import_event : String → ObservationInput × String → Action Db LineResult
  unfolding import_new
  import_event path event = do
    exists ← gets λ db. imported_event_exists db path event.1
    if exists then pure old_event else import_new path event

  unfoldable pub import_raw : String → ℕ → List ℕ → Action Db LineResult
  unfolding import_event
  import_raw path line raw = do
    event ← query λ _. parse_claude_transcript_event e raw path line project at
    import_event path event

  unfoldable pub import_line : String → ℕ → List ℕ → Action Db LineResult
  unfolding import_raw
  import_line path line bytes =
      if length (e.trimmed bytes) == 0
      then pure blank_line
      else import_raw path line (e.trimmed bytes)

  -- the loop, from the number of the next line on
  unfoldable pub import_lines : Transcript → ℕ → List (List ℕ) → ImportStats → Action Db ImportStats
  unfolding import_line counted
  import_lines t line [] stats = do require t.complete bad_argument; pure stats
  import_lines t line (bytes ∷ rest) stats = do
    result ← import_line t.path line bytes
    import_lines t (suc line) rest (counted stats result)

  unfoldable pub import_claude_jsonl_file : Transcript → Action Db ImportStats
  unfolding import_lines
  import_claude_jsonl_file t =
      import_lines t 1 t.lines (record { files = 1; imported = 0; skipped = 0 })

abbrev pub added : ImportStats → ImportStats → ImportStats
added a b = record {
  files = a.files + b.files;
  imported = a.imported + b.imported;
  skipped = a.skipped + b.skipped;
}

module _ (e : Transcripts) (project : String) where
  -- the loop over the paths of a root, each a transcript if it can be opened, with the time at which its
  -- import begins
  unfoldable pub import_paths : List (Option Transcript × ℤ) → ImportStats → Action Db ImportStats
  unfolding import_claude_jsonl_file
  import_paths [] total = pure total
  import_paths ((none, at) ∷ paths) total = raise bad_request
  import_paths ((some t, at) ∷ paths) total = do
    stats ← import_claude_jsonl_file e project at t
    import_paths paths (added total stats)

  -- the loop over the roots, for the paths that each leads to, if they can be collected
  unfoldable pub import_roots :
      List (Option (List (Option Transcript × ℤ))) → ImportStats → Action Db ImportStats
  unfolding import_paths
  import_roots [] total = pure total
  import_roots (none ∷ roots) total = raise bad_request
  import_roots (some paths ∷ roots) total = do
    stats ← import_paths paths total
    import_roots roots stats
