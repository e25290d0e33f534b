-- ===== src/Store/Runs.antt =====
-- Runs of the methods of internal/store that write, in any order: what a store goes through when
-- the server, the MCP tools and the admin commands use it. A call that fails is rolled back.
pub mod Frames
pub mod Memories
pub mod Quiet
pub mod Invariant
use yet_another_memory_bank.Common.{
  ℕ, String, Bool, List, [], ◌∷◌, ◌++◌, ◌≡◌, refl, committed, database,
}
use yet_another_memory_bank.Common.Int.{ℤ}
use yet_another_memory_bank.Store.Rows.{Db}
use yet_another_memory_bank.Store.Sessions.{ensure_session, end_session, save_session_summary}
use yet_another_memory_bank.Store.Observations.{Zstd, ObservationInput, insert_observation}
use yet_another_memory_bank.Store.Memories.{
  MemoryInput, MemoryUpdate, add_memory, update_memory, touch_memories,
}
use yet_another_memory_bank.Store.Removal.{supersede_memory, delete_memories}
use yet_another_memory_bank.Store.Embeddings.{save_memory_embedding, delete_embeddings}
use yet_another_memory_bank.Store.Imports.{record_imported_event}
use yet_another_memory_bank.Store.Compaction.{
  insert_compaction_attempt, expire_compaction_attempts, mark_compaction_completed,
}
use yet_another_memory_bank.Store.Decay.{DecayOps, DecayOptions, decay_memories}

-- A call of a method that writes.
pub data Call : Type 0 where
  ensure : (agent external_id project : String) (ts : ℤ) → Call
  end : (id : String) (ended_at : ℤ) → Call
  summarise : (id summary : String) (ended_at : ℤ) → Call
  observe : (input : ObservationInput) (window : ℕ) → Call
  add : (input : MemoryInput) → Call
  update : (change : MemoryUpdate) → Call
  supersede : (old_id new_id : ℕ) → Call
  forget : (ids : List ℕ) → Call
  touch : (ids : List ℕ) (accessed_at : ℤ) → Call
  decay : (opts : DecayOptions) → Call
  embed : (id : ℕ) (model : String) (vec : List ℕ) → Call
  unembed : (project model : String) → Call
  imported : (path event_id : String) (imported_at : ℤ) → Call
  attempt : (session_id status reason : String) (attempted_at : ℤ) → Call
  expire : (session_id : String) (before : ℤ) → Call
  complete : (session_id : String) (completed_at : ℤ) → Call

module _ (z : Zstd) (fl : DecayOps) where
  -- the database after the call
  unfoldable pub perform : Db → Call → Db
  perform db (ensure agent external_id project ts) =
      committed db (database (ensure_session db agent external_id project ts))
  perform db (end id ended_at) = end_session db id ended_at
  perform db (summarise id summary ended_at) = save_session_summary db id summary ended_at
  perform db (observe input window) = committed db (database (insert_observation z db input window))
  perform db (add input) = committed db (database (add_memory db input))
  perform db (update change) = committed db (update_memory db change)
  perform db (supersede old_id new_id) = committed db (supersede_memory db old_id new_id)
  perform db (forget ids) = committed db (database (delete_memories db ids))
  perform db (touch ids accessed_at) = touch_memories db ids accessed_at
  perform db (decay opts) = committed db (database (decay_memories fl db opts))
  perform db (embed id model vec) = committed db (save_memory_embedding db id model vec)
  perform db (unembed project model) = delete_embeddings db project model
  perform db (imported path event_id at) = (record_imported_event db path event_id at).1
  perform db (attempt session_id status reason at) =
      committed db (insert_compaction_attempt db session_id status reason at)
  perform db (expire session_id before) = expire_compaction_attempts db session_id before
  perform db (complete session_id at) = mark_compaction_completed db session_id at

  unfoldable pub run : Db → List Call → Db
  run db [] = db
  run db (c ∷ calls) = run (perform db c) calls

pub run-append :
    (z : Zstd) (fl : DecayOps) (db : Db) (cs ds : List Call)
    → run z fl db (cs ++ ds) ≡ run z fl (run z fl db cs) ds
unfolding run
run-append z fl db [] ds = refl
run-append z fl db (c ∷ cs) ds = run-append z fl (perform z fl db c) cs ds

-- The database of a new store.
abbrev pub new_db : Bool → Db
new_db fts5 = record {
  sessions = [];
  observations = [];
  memories = [];
  embeddings = [];
  attempts = [];
  audit = [];
  imported = [];
  fts = [];
  fts5 = fts5;
  next_observation = 1;
  next_memory = 1;
  next_attempt = 1;
  next_audit = 1;
  next_imported = 1;
}
