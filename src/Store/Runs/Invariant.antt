-- ===== src/Store/Runs/Invariant.antt =====
-- The invariants of the tables over runs of the methods that write.
use yet_another_memory_bank.Common.{
  ◌≡◌, refl, ◌∙◌, Bool, arith, All-imp, All-update_where, update_where, Ensures-imp,
  committed-database, exists_where-update,
}
use yet_another_memory_bank.Store.Rows.{Db, SessionRow}
use yet_another_memory_bank.Store.Sessions.{ensure_session, end_session, save_session_summary}
use yet_another_memory_bank.Store.Observations.{Zstd, insert_observation}
use yet_another_memory_bank.Store.Observations.Counts.{
  SessionsOk, ensure_session-SessionsOk, insert_observation-SessionsOk,
}
use yet_another_memory_bank.Store.Memories.Invariant.{MemoriesOk}
use yet_another_memory_bank.Store.Embeddings.{delete_embeddings}
use yet_another_memory_bank.Store.Compaction.{expire_compaction_attempts, mark_compaction_completed}
use yet_another_memory_bank.Store.Decay.{DecayOps, decay_memories}
use yet_another_memory_bank.Store.Runs.{
  Call, ensure, end, summarise, observe, add, update, supersede, forget, touch, decay, embed,
  unembed, imported, attempt, expire, complete, perform, new_db,
}
use yet_another_memory_bank.Store.Runs.Frames.{SameSessions-SessionsOk}
use yet_another_memory_bank.Store.Runs.Memories.{perform-MemoriesOk}
use yet_another_memory_bank.Store.Runs.Quiet.{perform-SameSessions}

pub record StoreOk (db : Db) : Type 0 where
  pub memories : MemoriesOk db
  pub sessions : SessionsOk db

-- A change of sessions that keeps ids, agents and counts.
change_sessions-SessionsOk :
    (db : Db) (p : SessionRow → Bool) (f : SessionRow → SessionRow)
    → ((s : SessionRow)
        → ((f s).id ≡ s.id)
          × (((f s).agent ≡ s.agent)
              × (((f s).external_id ≡ s.external_id) × ((f s).n_obs ≡ s.n_obs))))
    → SessionsOk db
    → SessionsOk (record db { sessions = update_where p f db.sessions })
change_sessions-SessionsOk db p f e v = record {
  keyed =
      All-update_where _ p f (λ s k. rw ((e s).0, (e s).1.0, (e s).1.1.0) k) db.sessions v.keyed;
  counted = All-update_where _ p f (λ s k. rw ((e s).0, (e s).1.1.1) k) db.sessions v.counted;
  referring =
      All-imp _ _ (λ o k. exists_where-update _ p f (λ s. rw ((e s).0) refl) db.sessions ∙ k)
        db.observations v.referring;
}

pub new_db-StoreOk : (fts5 : Bool) → StoreOk (new_db fts5)
new_db-StoreOk fts5 = record {
  memories = record {
    distinct = tt;
    positive = omega arith;
    fresh = λ id h. refl;
    indexed = λ on id. refl;
    targets = tt;
    embedded = tt;
  };
  sessions = record { keyed = tt; counted = tt; referring = tt };
}

module _ (z : Zstd) (fl : DecayOps) where
  perform-SessionsOk : (db : Db) (c : Call) → SessionsOk db → SessionsOk (perform z fl db c)
  unfolding perform end_session save_session_summary expire_compaction_attempts
      mark_compaction_completed delete_embeddings decay_memories
  perform-SessionsOk db (ensure agent external_id project ts) v =
      committed-database SessionsOk db (ensure_session db agent external_id project ts) v (
        Ensures-imp _ _ (ensure_session db agent external_id project ts) (λ r s. s.0)
          (ensure_session-SessionsOk db agent external_id project ts v))
  perform-SessionsOk db (end id ended_at) v =
      change_sessions-SessionsOk db _ _ (λ s. (refl, (refl, (refl, refl)))) v
  perform-SessionsOk db (summarise id summary ended_at) v =
      change_sessions-SessionsOk db _ _ (λ s. (refl, (refl, (refl, refl)))) v
  perform-SessionsOk db (observe input window) v =
      committed-database SessionsOk db (insert_observation z db input window) v
        (insert_observation-SessionsOk z db input window v)
  perform-SessionsOk db (add input) v =
      SameSessions-SessionsOk db _ (perform-SameSessions z fl db (add input) refl) v
  perform-SessionsOk db (update change) v =
      SameSessions-SessionsOk db _ (perform-SameSessions z fl db (update change) refl) v
  perform-SessionsOk db (supersede old_id new_id) v =
      SameSessions-SessionsOk db _ (perform-SameSessions z fl db (supersede old_id new_id) refl) v
  perform-SessionsOk db (forget ids) v =
      SameSessions-SessionsOk db _ (perform-SameSessions z fl db (forget ids) refl) v
  perform-SessionsOk db (touch ids at) v =
      SameSessions-SessionsOk db _ (perform-SameSessions z fl db (touch ids at) refl) v
  perform-SessionsOk db (decay opts) v =
      SameSessions-SessionsOk db _ (perform-SameSessions z fl db (decay opts) refl) v
  perform-SessionsOk db (embed id model vec) v =
      SameSessions-SessionsOk db _ (perform-SameSessions z fl db (embed id model vec) refl) v
  perform-SessionsOk db (unembed project model) v =
      SameSessions-SessionsOk db _ (perform-SameSessions z fl db (unembed project model) refl) v
  perform-SessionsOk db (imported path event_id at) v =
      SameSessions-SessionsOk db _ (perform-SameSessions z fl db (imported path event_id at) refl) v
  perform-SessionsOk db (attempt session_id status reason at) v =
      SameSessions-SessionsOk db _
        (perform-SameSessions z fl db (attempt session_id status reason at) refl) v
  perform-SessionsOk db (expire session_id before) v =
      SameSessions-SessionsOk db _ (perform-SameSessions z fl db (expire session_id before) refl) v
  perform-SessionsOk db (complete session_id at) v =
      SameSessions-SessionsOk db _ (perform-SameSessions z fl db (complete session_id at) refl) v

  pub perform-StoreOk : (db : Db) (c : Call) → StoreOk db → StoreOk (perform z fl db c)
  perform-StoreOk db c v = record {
    memories = perform-MemoriesOk z fl db c v.memories;
    sessions = perform-SessionsOk db c v.sessions;
  }
