-- ===== src/Store/Imports/Once.antt =====
-- An event of a transcript is recorded once.
use yet_another_memory_bank.Common.{
  ◌≡◌, refl, ◌∙◌, inl, inr, String, true, false, ◌&&◌, not, arith, str_eq, eq_refl, Bool-cases,
  exists_where, exists_where-append,
}
use yet_another_memory_bank.Common.Int.{ℤ}
use yet_another_memory_bank.Store.Rows.{Db}
use yet_another_memory_bank.Store.Imports.{imported_event_exists, record_imported_event}

-- After `RecordImportedEvent` the event exists; it says that it inserted exactly if the event was
-- not there.
pub record_imported_event_lem :
    (db : Db) (path event_id : String) (at : ℤ)
    → let r = record_imported_event db path event_id at in
      (r.0 ≡ not (imported_event_exists db path event_id))
      × (imported_event_exists r.1 path event_id ≡ true)
unfolding record_imported_event imported_event_exists
record_imported_event_lem db path event_id at =
    elim (Bool-cases (
      exists_where (λ r. str_eq r.transcript_path path && str_eq r.event_id event_id)
        db.imported)) [
          | inl e ↦ rw e (refl, e)
          | inr e ↦ rw e (
            refl,
            exists_where-append (λ r. str_eq r.transcript_path path && str_eq r.event_id event_id)
                  db.imported _
                ∙ ground (arith, eq_refl path, eq_refl event_id),
          )
        ]

-- A second record of an event changes nothing, and says so.
pub record_imported_event-twice :
    (db : Db) (path event_id : String) (first second : ℤ)
    → let r = record_imported_event db path event_id first in
      record_imported_event r.1 path event_id second ≡ (false, r.1)
unfolding record_imported_event imported_event_exists
record_imported_event-twice db path event_id first second =
    again (record_imported_event db path event_id first).1
      (record_imported_event_lem db path event_id first).1
  where
    again :
        (d : Db)
        → exists_where (λ r. str_eq r.transcript_path path && str_eq r.event_id event_id) d.imported
          ≡ true
        → record_imported_event d path event_id second ≡ (false, d)
    again d h = rw h refl
