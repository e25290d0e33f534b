-- ===== src/Store/Runs/Frames.antt =====
-- What a method that writes leaves alone: databases that agree on tables, and the methods that leave
-- the memories as they are.
pub mod Memories
use yet_another_memory_bank.Common.{
  ℕ, ◌*◌, ◌≡◌, refl, sym, ◌∙◌, String, Bool, true, false, ◌&&◌, List, [], ◌∷◌, arith, if_elim,
  str_eq, ok, err, Ensures, Ensures-bind, exists_where, foreign_key,
}
use yet_another_memory_bank.Common.Int.{ℤ, pos, ◌-ℤ◌}
use yet_another_memory_bank.Store.Rows.{Db, AttemptRow}
use yet_another_memory_bank.Store.Sessions.{ensure_session}
use yet_another_memory_bank.Store.Observations.{
  Zstd, ObservationInput, has_session, is_duplicate, count_up, append_observation,
  insert_observation,
}
use yet_another_memory_bank.Store.Imports.{record_imported_event}
use yet_another_memory_bank.Store.Compaction.{
  append_attempt, insert_compaction_attempt, complete_first,
}
use yet_another_memory_bank.Store.Memories.Invariant.{MemoriesOk}
use yet_another_memory_bank.Store.Observations.Counts.{SessionsOk}

-- Two databases with the same memories, index and embeddings.
abbrev pub SameMemories : Db → Db → Type 0
SameMemories db db' =
    (db'.memories ≡ db.memories)
    × ((db'.next_memory ≡ db.next_memory)
        × ((db'.fts ≡ db.fts) × ((db'.fts5 ≡ db.fts5) × (db'.embeddings ≡ db.embeddings))))

pub SameMemories-MemoriesOk : (db db' : Db) → SameMemories db db' → MemoriesOk db → MemoriesOk db'
SameMemories-MemoriesOk db db' s v = record {
  distinct = rw (s.0) v.distinct;
  positive = rw (s.1.0) v.positive;
  fresh = λ id h. rw (s.0) (v.fresh id (omega (arith, s.1.0)));
  indexed = λ on id. rw (s.0, s.1.1.0) (v.indexed (sym s.1.1.1.0 ∙ on) id);
  targets = rw (s.0) v.targets;
  embedded = rw (s.0, s.1.1.1.1) v.embedded;
}

-- Two databases with the same sessions and observations.
abbrev pub SameSessions : Db → Db → Type 0
SameSessions db db' = (db'.sessions ≡ db.sessions) × (db'.observations ≡ db.observations)

pub SameSessions-SessionsOk : (db db' : Db) → SameSessions db db' → SessionsOk db → SessionsOk db'
SameSessions-SessionsOk db db' s v = record {
  keyed = rw (s.0) v.keyed;
  counted = rw (s.0, s.1) v.counted;
  referring = rw (s.0, s.1) v.referring;
}

pub refl_SameMemories : (db : Db) → SameMemories db db
refl_SameMemories db = (refl, (refl, (refl, (refl, refl))))

pub ensure_session-SameMemories :
    (db : Db) (agent external_id project : String) (ts : ℤ)
    → Ensures (λ r. SameMemories db r.1) (ensure_session db agent external_id project ts)
unfolding ensure_session
ensure_session-SameMemories db agent external_id project ts =
    if_elim (Ensures (λ (r : String × Db). SameMemories db r.1))
      (exists_where (λ s. str_eq s.agent agent && str_eq s.external_id external_id) db.sessions)
      (ok (_, db)) _ (refl_SameMemories db)
      (if_elim (Ensures (λ (r : String × Db). SameMemories db r.1)) _ (err _) (ok _) tt
        (refl_SameMemories db))

pub insert_observation-SameMemories :
    (z : Zstd) (db : Db) (input : ObservationInput) (window : ℕ)
    → Ensures (λ r. SameMemories db r.1) (insert_observation z db input window)
unfolding insert_observation count_up append_observation
insert_observation-SameMemories z db input window =
    Ensures-bind (λ r. SameMemories db r.1) (λ r. SameMemories db r.1)
      (ensure_session db input.agent input.external_session_id input.cwd input.ts) _
      (ensure_session-SameMemories db input.agent input.external_session_id input.cwd input.ts)
      λ r w.
        if_elim (Ensures (λ (q : Bool × Db). SameMemories db q.1))
          (is_duplicate r.1 input.hash (input.ts -ℤ pos (window * 1000))) (ok (false, r.1)) _ w
          (if_elim (Ensures (λ (q : Bool × Db). SameMemories db q.1)) (has_session r.1 r.0)
            (ok (true, _)) (err foreign_key) w tt)

pub record_imported_event-SameMemories :
    (db : Db) (path event_id : String) (at : ℤ)
    → SameMemories db (record_imported_event db path event_id at).1
unfolding record_imported_event
record_imported_event-SameMemories db path event_id at =
    if_elim (λ (r : Bool × Db). SameMemories db r.1)
      (exists_where (λ r. str_eq r.transcript_path path && str_eq r.event_id event_id) db.imported)
      (false, db) _ (refl_SameMemories db) (refl_SameMemories db)

pub record_imported_event-SameSessions :
    (db : Db) (path event_id : String) (at : ℤ)
    → SameSessions db (record_imported_event db path event_id at).1
unfolding record_imported_event
record_imported_event-SameSessions db path event_id at =
    if_elim (λ (r : Bool × Db). SameSessions db r.1)
      (exists_where (λ r. str_eq r.transcript_path path && str_eq r.event_id event_id) db.imported)
      (false, db) _ (refl, refl) (refl, refl)

pub insert_compaction_attempt-Same :
    (db : Db) (session_id status reason : String) (at : ℤ)
    → Ensures
        (λ db'. SameMemories db db' × SameSessions db db')
        (insert_compaction_attempt db session_id status reason at)
unfolding insert_compaction_attempt append_attempt
insert_compaction_attempt-Same db session_id status reason at =
    if_elim (Ensures (λ db'. SameMemories db db' × SameSessions db db')) (has_session db session_id)
      (ok _) (err foreign_key) (refl_SameMemories db, (refl, refl)) tt

pub complete_first-Same :
    (db : Db) (rows : List AttemptRow) (at : ℤ)
    → SameMemories db (complete_first db rows at) × SameSessions db (complete_first db rows at)
unfolding complete_first
complete_first-Same db [] at = (refl_SameMemories db, (refl, refl))
complete_first-Same db (a ∷ rows) at = (refl_SameMemories db, (refl, refl))
