-- ===== src/Store/Runs/Memories.antt =====
-- Every method that writes keeps the invariant of the memory tables.
use yet_another_memory_bank.Common.{
  ℕ, ◌≡◌, String, true, not, List, arith, if_elim, if_split, blank, All-append, All-update_where,
  All-delete_where, has, length, ◌==◌, rows_where, ok, err, Ensures, Ensures-imp, committed-Ensures,
  committed-database,
}
use yet_another_memory_bank.Common.Sort.{slice_stable}
use yet_another_memory_bank.Store.Rows.{Db, EmbeddingRow}
use yet_another_memory_bank.Store.Sessions.{ensure_session, end_session, save_session_summary}
use yet_another_memory_bank.Store.Observations.{Zstd, insert_observation}
use yet_another_memory_bank.Store.Memories.{memory_id, add_memory, update_memory}
use yet_another_memory_bank.Store.Removal.{supersede_memory, delete_memories}
use yet_another_memory_bank.Store.Memories.Invariant.{MemoriesOk, EmbeddingsIn}
use yet_another_memory_bank.Store.Memories.Invariant.Updates.{
  add_memory-MemoriesOk, update_memory-MemoriesOk, supersede_memory-MemoriesOk,
  touch_memories-MemoriesOk,
}
use yet_another_memory_bank.Store.Memories.Invariant.Deletion.{delete_memories-MemoriesOk}
use yet_another_memory_bank.Store.Embeddings.{
  new_embedding, embedding_id, upsert_embedding, save_memory_embedding, delete_embeddings,
}
use yet_another_memory_bank.Store.Compaction.{
  is_requested, later_attempt, insert_compaction_attempt, expire_compaction_attempts,
  mark_compaction_completed,
}
use yet_another_memory_bank.Store.Decay.{DecayOps, decay_memories}
use yet_another_memory_bank.Store.Decay.Kept.{decay_memories-MemoriesOk}
use yet_another_memory_bank.Store.Runs.{
  Call, ensure, end, summarise, observe, add, update, supersede, forget, touch, decay, embed,
  unembed, imported, attempt, expire, complete, perform,
}
use yet_another_memory_bank.Store.Runs.Frames.{
  SameMemories-MemoriesOk, ensure_session-SameMemories, insert_observation-SameMemories,
  record_imported_event-SameMemories, insert_compaction_attempt-Same, complete_first-Same,
  refl_SameMemories,
}

upsert-EmbeddingsIn :
    (db : Db) (e : EmbeddingRow)
    → has memory_id e.memory_id db.memories ≡ true
    → EmbeddingsIn db.memories db.embeddings
    → EmbeddingsIn db.memories (upsert_embedding e db.embeddings)
unfolding upsert_embedding
upsert-EmbeddingsIn db e h v =
    if_elim (EmbeddingsIn db.memories) (has embedding_id e.memory_id db.embeddings) _ _
      (All-update_where _ _ _ (λ _ _. h) db.embeddings v) (All-append _ db.embeddings _ v (h, tt))

save_memory_embedding-MemoriesOk :
    (db : Db) (id : ℕ) (model : String) (vec : List ℕ)
    → MemoriesOk db
    → Ensures MemoriesOk (save_memory_embedding db id model vec)
unfolding save_memory_embedding
save_memory_embedding-MemoriesOk db id model vec v =
    if_elim (Ensures MemoriesOk) (blank model) (err _) _ tt (
      if_elim (Ensures MemoriesOk) (length vec == 0) (err _) _ tt (
        if_split (Ensures MemoriesOk) (not (has memory_id id db.memories)) (err _) (ok _) (λ _. tt)
          λ h. record {
            distinct = v.distinct;
            positive = v.positive;
            fresh = v.fresh;
            indexed = v.indexed;
            targets = v.targets;
            embedded =
                upsert-EmbeddingsIn db (new_embedding id model vec) (ground (arith, h)) v.embedded;
          }))

delete_embeddings-MemoriesOk :
    (db : Db) (project model : String)
    → MemoriesOk db
    → MemoriesOk (delete_embeddings db project model)
unfolding delete_embeddings
delete_embeddings-MemoriesOk db project model v = record {
  distinct = v.distinct;
  positive = v.positive;
  fresh = v.fresh;
  indexed = v.indexed;
  targets = v.targets;
  embedded = All-delete_where _ _ db.embeddings v.embedded;
}

module _ (z : Zstd) (fl : DecayOps) where
  pub perform-MemoriesOk : (db : Db) (c : Call) → MemoriesOk db → MemoriesOk (perform z fl db c)
  unfolding perform end_session save_session_summary expire_compaction_attempts
      mark_compaction_completed
  perform-MemoriesOk db (ensure agent external_id project ts) v =
      committed-database MemoriesOk db (ensure_session db agent external_id project ts) v (
        Ensures-imp _ _ (ensure_session db agent external_id project ts)
          (λ r s. SameMemories-MemoriesOk db r.1 s v)
          (ensure_session-SameMemories db agent external_id project ts))
  perform-MemoriesOk db (end id ended_at) v = SameMemories-MemoriesOk db _ (refl_SameMemories db) v
  perform-MemoriesOk db (summarise id summary ended_at) v =
      SameMemories-MemoriesOk db _ (refl_SameMemories db) v
  perform-MemoriesOk db (observe input window) v =
      committed-database MemoriesOk db (insert_observation z db input window) v (
        Ensures-imp _ _ (insert_observation z db input window)
          (λ r s. SameMemories-MemoriesOk db r.1 s v)
          (insert_observation-SameMemories z db input window))
  perform-MemoriesOk db (add input) v =
      committed-database MemoriesOk db (add_memory db input) v (add_memory-MemoriesOk db input v)
  perform-MemoriesOk db (update change) v =
      committed-Ensures MemoriesOk db (update_memory db change) v
        (update_memory-MemoriesOk db change v)
  perform-MemoriesOk db (supersede old_id new_id) v =
      committed-Ensures MemoriesOk db (supersede_memory db old_id new_id) v
        (supersede_memory-MemoriesOk db old_id new_id v)
  perform-MemoriesOk db (forget ids) v =
      committed-database MemoriesOk db (delete_memories db ids) v
        (delete_memories-MemoriesOk db ids v)
  perform-MemoriesOk db (touch ids at) v = touch_memories-MemoriesOk db ids at v
  perform-MemoriesOk db (decay opts) v =
      committed-database MemoriesOk db (decay_memories fl db opts) v
        (decay_memories-MemoriesOk fl db opts v)
  perform-MemoriesOk db (embed id model vec) v =
      committed-Ensures MemoriesOk db (save_memory_embedding db id model vec) v
        (save_memory_embedding-MemoriesOk db id model vec v)
  perform-MemoriesOk db (unembed project model) v = delete_embeddings-MemoriesOk db project model v
  perform-MemoriesOk db (imported path event_id at) v =
      SameMemories-MemoriesOk db _ (record_imported_event-SameMemories db path event_id at) v
  perform-MemoriesOk db (attempt session_id status reason at) v =
      committed-Ensures MemoriesOk db (insert_compaction_attempt db session_id status reason at) v (
        Ensures-imp _ _ (insert_compaction_attempt db session_id status reason at)
          (λ db' s. SameMemories-MemoriesOk db db' s.0 v)
          (insert_compaction_attempt-Same db session_id status reason at))
  perform-MemoriesOk db (expire session_id before) v =
      SameMemories-MemoriesOk db _ (refl_SameMemories db) v
  perform-MemoriesOk db (complete session_id at) v =
      SameMemories-MemoriesOk db _
        (complete_first-Same db
          (slice_stable later_attempt (rows_where (λ a. is_requested session_id a) db.attempts))
          at).0
        v
