-- ===== src/Store/Imports.antt =====
-- internal/store/imports.go: which events of which transcripts were imported.
pub mod Once
use yet_another_memory_bank.Common.{
  suc, String, Bool, true, false, ◌&&◌, [], ◌∷◌, ◌++◌, if◌then◌else◌, str_eq, exists_where,
}
use yet_another_memory_bank.Common.Int.{ℤ}
use yet_another_memory_bank.Store.Rows.{Db}

unfoldable pub imported_event_exists : Db → String → String → Bool
imported_event_exists db path event_id =
    exists_where (λ r. str_eq r.transcript_path path && str_eq r.event_id event_id) db.imported

-- ON CONFLICT(transcript_path, event_id) DO NOTHING; the flag says if a row was inserted.
unfoldable pub record_imported_event : Db → String → String → ℤ → Bool × Db
record_imported_event db path event_id imported_at =
    if exists_where (λ r. str_eq r.transcript_path path && str_eq r.event_id event_id) db.imported
    then (false, db)
    else (
      true,
      record db {
        imported =
            db.imported
            ++ record {
              id = db.next_imported;
              transcript_path = path;
              event_id = event_id;
              imported_at = imported_at;
            }
              ∷ [];
        next_imported = suc db.next_imported;
      },
    )
