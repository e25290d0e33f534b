-- ===== src/Admin/Import/Kept.antt =====
-- internal/admin/import_jsonl.go: what the import of a line leaves of the events before it.
use yet_another_memory_bank.Common.{
  ℕ, suc, ◌≡◌, ap, ◌∙◌, String, Bool, true, false, ◌&&◌, Option, none, some, List, [], ◌∷◌, arith,
  if_elim, exists_where, exists_where-append, str_eq, Ensures-imp, committed-database,
}
use yet_another_memory_bank.Common.Action.{
  Action, transact, Keeps, keeps, Keeps-transact, Keeps-bind,
}
use yet_another_memory_bank.Common.Int.{ℤ}
use yet_another_memory_bank.Admin.Transcript.{Transcripts}
use yet_another_memory_bank.Admin.Import.{
  ImportStats, counted, Transcript, recorded, import_new, import_event, import_raw, import_line,
  import_lines,
}
use yet_another_memory_bank.Store.Imports.{imported_event_exists, record_imported_event}
use yet_another_memory_bank.Store.Observations.{ObservationInput, insert_observation}
use yet_another_memory_bank.Store.Observations.Frame.{insert_observation-OnlyCaptured}
use yet_another_memory_bank.Store.Rows.{Db}

-- The event is recorded.
abbrev pub Exists : String → String → Db → Type 0
Exists path id db = imported_event_exists db path id ≡ true

recorded-Exists :
    (path id path' id' : String) (at : ℤ) (db : Db)
    → Exists path id db
    → Exists path id (record_imported_event db path' id' at).1
unfolding record_imported_event imported_event_exists
recorded-Exists path id path' id' at db h =
    if_elim (λ (r : Bool × Db). Exists path id r.1)
      (exists_where (λ r. str_eq r.transcript_path path' && str_eq r.event_id id') db.imported)
      (false, db) _ h
      (exists_where-append (λ r. str_eq r.transcript_path path && str_eq r.event_id id) db.imported
          _
        ∙ ground (arith, h))

Exists-of_imported :
    (path id : String) (db db' : Db)
    → db'.imported ≡ db.imported
    → Exists path id db
    → Exists path id db'
unfolding imported_event_exists
Exists-of_imported path id db db' e h = rw e h

module _ (e : Transcripts) (project : String) (at : ℤ) (path id : String) where
  observed-Keeps :
      (input : ObservationInput)
      → Keeps (Exists path id) (transact λ db. insert_observation e.zstd db input 0)
  observed-Keeps input = Keeps-transact _ (λ db v.
      committed-database (Exists path id) db (insert_observation e.zstd db input 0) v (
        Ensures-imp _ _ (insert_observation e.zstd db input 0)
          (λ r k. Exists-of_imported path id db r.1 (ap (λ d. d.imported) k) v)
          (insert_observation-OnlyCaptured e.zstd db input 0)))

  recorded-Keeps : (path' id' : String) → Keeps (Exists path id) (recorded path' id' at)
  unfolding recorded
  recorded-Keeps path' id' = record { apply = λ db v. recorded-Exists path id path' id' at db v }

  import_event-Keeps :
      (path' : String) (event : ObservationInput × String)
      → Keeps (Exists path id) (import_event e project at path' event)
  unfolding import_event import_new
  import_event-Keeps path' event = search (keeps, observed-Keeps, recorded-Keeps)

  import_line-Keeps :
      (path' : String) (line : ℕ) (bytes : List ℕ)
      → Keeps (Exists path id) (import_line e project at path' line bytes)
  unfolding import_line import_raw
  import_line-Keeps path' line bytes = search (keeps, import_event-Keeps)

  pub import_lines-Keeps :
      (t : Transcript) (line : ℕ) (lines : List (List ℕ)) (stats : ImportStats)
      → Keeps (Exists path id) (import_lines e project at t line lines stats)
  unfolding import_lines
  import_lines-Keeps t line [] stats = search keeps
  import_lines-Keeps t line (bytes ∷ rest) stats =
      Keeps-bind (import_line-Keeps t.path line bytes)
        (λ r. import_lines-Keeps t (suc line) rest (counted stats r))

-- The line's event is recorded, if it has one: it is not blank, and an object.
abbrev pub RecordedEvent : Bool → Option String → String → Db → Type 0
RecordedEvent true o path db = Unit
RecordedEvent false none path db = false ≡ true
RecordedEvent false (some id) path db = Exists path id db

pub RecordedEvent-Keeps :
    {A : Type 0} (m : Action Db A) (path : String)
    → ((id : String) → Keeps (Exists path id) m)
    → (b : Bool) (o : Option String) → Keeps (RecordedEvent b o path) m
RecordedEvent-Keeps m path k true o = record { apply = λ s v. v }
RecordedEvent-Keeps m path k false none = record { apply = λ s v. v }
RecordedEvent-Keeps m path k false (some id) = k id
