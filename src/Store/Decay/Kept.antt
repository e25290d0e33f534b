-- ===== src/Store/Decay/Kept.antt =====
-- Decay and the invariant of the memory tables.
use yet_another_memory_bank.Common.{refl, List, [], ◌∷◌, ok, Ensures, Ensures-bind, if_elim}
use yet_another_memory_bank.Store.Rows.{Db}
use yet_another_memory_bank.Store.Removal.{delete_memory}
use yet_another_memory_bank.Store.Memories.Invariant.{MemoriesOk}
use yet_another_memory_bank.Store.Memories.Invariant.Rows.{change_row-MemoriesOk}
use yet_another_memory_bank.Store.Memories.Invariant.Deletion.{delete_memory-MemoriesOk}
use yet_another_memory_bank.Store.Decay.{
  DecayOps, DecayOptions, Decayed, set_importance, decay_step, decay_all, decay_memories,
}

decay_step-MemoriesOk :
    (db : Db) (u : Decayed) → MemoriesOk db → Ensures (λ r. MemoriesOk r.1) (decay_step db u)
unfolding decay_step set_importance
decay_step-MemoriesOk db u v =
    if_elim (Ensures (λ r. MemoriesOk r.1)) u.delete (delete_memory db u.id) (ok (0, _))
      (delete_memory-MemoriesOk db u.id v)
      (change_row-MemoriesOk _ (λ m. refl) u.id db (λ m. refl) (λ m h. h) v)

decay_all-MemoriesOk :
    (us : List Decayed) (db : Db) → MemoriesOk db → Ensures (λ r. MemoriesOk r.1) (decay_all db us)
unfolding decay_all
decay_all-MemoriesOk [] db v = v
decay_all-MemoriesOk (u ∷ us) db v =
    Ensures-bind (λ r. MemoriesOk r.1) (λ r. MemoriesOk r.1) (decay_step db u) _
      (decay_step-MemoriesOk db u v)
      λ r w.
        Ensures-bind (λ r. MemoriesOk r.1) (λ r. MemoriesOk r.1) (decay_all r.1 us) _
          (decay_all-MemoriesOk us r.1 w) (λ _ k. k)

-- Decay keeps the invariant of the memory tables, where it does not fail.
pub decay_memories-MemoriesOk :
    (fl : DecayOps) (db : Db) (opts : DecayOptions)
    → MemoriesOk db
    → Ensures (λ r. MemoriesOk r.1) (decay_memories fl db opts)
unfolding decay_memories
decay_memories-MemoriesOk fl db opts v = decay_all-MemoriesOk _ db v
