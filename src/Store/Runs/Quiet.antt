-- ===== src/Store/Runs/Quiet.antt =====
-- The calls that leave sessions and observations as they are.
use yet_another_memory_bank.Common.{
  ℕ, ◌≡◌, refl, String, Bool, true, false, not, List, if_elim, blank, has, length, ◌==◌, rows_where,
  err, ok, Ensures, committed-Ensures, committed-database, Ensures-imp,
}
use yet_another_memory_bank.Common.Sort.{slice_stable}
use yet_another_memory_bank.Store.Compaction.{
  is_requested, later_attempt, insert_compaction_attempt, expire_compaction_attempts,
  mark_compaction_completed,
}
use yet_another_memory_bank.Store.Decay.{DecayOps, decay_memories}
use yet_another_memory_bank.Store.Embeddings.{save_memory_embedding, delete_embeddings}
use yet_another_memory_bank.Store.Memories.{memory_id, add_memory, update_memory}
use yet_another_memory_bank.Store.Observations.{Zstd}
use yet_another_memory_bank.Store.Removal.{supersede_memory, delete_memories}
use yet_another_memory_bank.Store.Rows.{Db}
use yet_another_memory_bank.Store.Runs.{
  Call, ensure, end, summarise, observe, add, update, supersede, forget, touch, decay, embed,
  unembed, imported, attempt, expire, complete, perform,
}
use yet_another_memory_bank.Store.Runs.Frames.{
  SameSessions, record_imported_event-SameSessions, insert_compaction_attempt-Same,
  complete_first-Same,
}
use yet_another_memory_bank.Store.Runs.Frames.Memories.{
  add_memory-SameSessions, update_memory-SameSessions, supersede_memory-SameSessions,
  delete_memories-SameSessions, touch_memories-SameSessions, decay_all-SameSessions,
}

-- The call writes to the sessions or the observations.
abbrev pub is_captured : Call → Bool
is_captured (ensure agent external_id project ts) = true
is_captured (end id ended_at) = true
is_captured (summarise id summary ended_at) = true
is_captured (observe input window) = true
is_captured _ = false

save_memory_embedding-SameSessions :
    (db : Db) (id : ℕ) (model : String) (vec : List ℕ)
    → Ensures (SameSessions db) (save_memory_embedding db id model vec)
unfolding save_memory_embedding
save_memory_embedding-SameSessions db id model vec =
    if_elim (Ensures (SameSessions db)) (blank model) (err _) _ tt (
      if_elim (Ensures (SameSessions db)) (length vec == 0) (err _) _ tt (
        if_elim (Ensures (SameSessions db)) (not (has memory_id id db.memories)) (err _) (ok _) tt
          (refl, refl)))

module _ (z : Zstd) (fl : DecayOps) where
  pub perform-SameSessions :
      (db : Db) (c : Call) → is_captured c ≡ false → SameSessions db (perform z fl db c)
  unfolding perform expire_compaction_attempts mark_compaction_completed delete_embeddings
      decay_memories
  perform-SameSessions db (ensure agent external_id project ts) h = absurd (cc (h))
  perform-SameSessions db (end id ended_at) h = absurd (cc (h))
  perform-SameSessions db (summarise id summary ended_at) h = absurd (cc (h))
  perform-SameSessions db (observe input window) h = absurd (cc (h))
  perform-SameSessions db (add input) h =
      committed-database (SameSessions db) db (add_memory db input) (refl, refl)
        (add_memory-SameSessions db input)
  perform-SameSessions db (update change) h =
      committed-Ensures (SameSessions db) db (update_memory db change) (refl, refl)
        (update_memory-SameSessions db change)
  perform-SameSessions db (supersede old_id new_id) h =
      committed-Ensures (SameSessions db) db (supersede_memory db old_id new_id) (refl, refl)
        (supersede_memory-SameSessions db old_id new_id)
  perform-SameSessions db (forget ids) h =
      committed-database (SameSessions db) db (delete_memories db ids) (refl, refl)
        (delete_memories-SameSessions ids db)
  perform-SameSessions db (touch ids at) h = touch_memories-SameSessions ids db at
  perform-SameSessions db (decay opts) h =
      committed-database (SameSessions db) db (decay_memories fl db opts) (refl, refl)
        (decay_all-SameSessions _ db)
  perform-SameSessions db (embed id model vec) h =
      committed-Ensures (SameSessions db) db (save_memory_embedding db id model vec) (refl, refl)
        (save_memory_embedding-SameSessions db id model vec)
  perform-SameSessions db (unembed project model) h = (refl, refl)
  perform-SameSessions db (imported path event_id at) h =
      record_imported_event-SameSessions db path event_id at
  perform-SameSessions db (attempt session_id status reason at) h =
      committed-Ensures (SameSessions db) db
        (insert_compaction_attempt db session_id status reason at) (refl, refl)
        (Ensures-imp _ _ (insert_compaction_attempt db session_id status reason at) (λ db' s. s.1)
          (insert_compaction_attempt-Same db session_id status reason at))
  perform-SameSessions db (expire session_id before) h = (refl, refl)
  perform-SameSessions db (complete session_id at) h =
      (complete_first-Same db
        (slice_stable later_attempt (rows_where (λ a. is_requested session_id a) db.attempts)) at).1
