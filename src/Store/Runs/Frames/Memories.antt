-- ===== src/Store/Runs/Frames/Memories.antt =====
-- The methods on memories leave the sessions and observations as they are.
use yet_another_memory_bank.Common.{
  ℕ, ltb, refl, ◌∙◌, String, ◌&&◌, ◌||◌, not, Option, none, some, List, [], ◌∷◌, if_elim, blank,
  str_eq, has, ◌==◌, ok, err, Ensures, Ensures-bind, exists_where, foreign_key,
}
use yet_another_memory_bank.Common.Int.{ℤ}
use yet_another_memory_bank.Store.Rows.{Db}
use yet_another_memory_bank.Store.Audit.{insert_audit}
use yet_another_memory_bank.Store.Memories.{
  MemoryInput, MemoryUpdate, memory_id, append_memory, add_memory, is_given, reindex, set_memory,
  update_memory, touch_memory, touch_memories,
}
use yet_another_memory_bank.Store.Removal.{
  is_referenced, remove_rows, delete_memory, audit_delete, delete_memories, supersede_memory,
}
use yet_another_memory_bank.Store.Decay.{Decayed, set_importance, decay_step, decay_all}
use yet_another_memory_bank.Store.Runs.Frames.{SameSessions}

pub add_memory-SameSessions :
    (db : Db) (input : MemoryInput) → Ensures (λ r. SameSessions db r.1) (add_memory db input)
unfolding add_memory insert_audit append_memory
add_memory-SameSessions db input =
    if_elim (Ensures (λ (r : ℕ × Db). SameSessions db r.1))
      (blank input.session_id || exists_where (λ s. str_eq s.id input.session_id) db.sessions)
      (ok (_, _)) (err foreign_key) (refl, refl) tt

pub reindex-SameSessions :
    (db : Db) (id : ℕ) (o : Option String) → SameSessions db (reindex db id o)
unfolding reindex
reindex-SameSessions db id none = (refl, refl)
reindex-SameSessions db id (some t) = (refl, refl)

pub update_memory-SameSessions :
    (db : Db) (u : MemoryUpdate) → Ensures (SameSessions db) (update_memory db u)
unfolding update_memory insert_audit set_memory
update_memory-SameSessions db u = if_elim (Ensures (SameSessions db)) (u.id == 0) (err _) _ tt (
    if_elim (Ensures (SameSessions db))
      (not (is_given u.text || is_given u.tier || is_given u.importance)) (ok db) _ (refl, refl)
      (if_elim (Ensures (SameSessions db)) (not (has memory_id u.id db.memories)) (err _) (ok _) tt
        (reindex-SameSessions (set_memory db u) u.id u.text)))

pub supersede_memory-SameSessions :
    (db : Db) (old_id new_id : ℕ) → Ensures (SameSessions db) (supersede_memory db old_id new_id)
unfolding supersede_memory insert_audit
supersede_memory-SameSessions db old_id new_id =
    if_elim (Ensures (SameSessions db)) (old_id == 0 || new_id == 0 || old_id == new_id) (err _) _
      tt
      (if_elim (Ensures (SameSessions db)) (not (has memory_id old_id db.memories)) (err _) _ tt (
        if_elim (Ensures (SameSessions db)) (not (has memory_id new_id db.memories)) (err _) (ok _)
          tt (refl, refl)))

pub delete_memory-SameSessions :
    (db : Db) (id : ℕ) → Ensures (λ r. SameSessions db r.1) (delete_memory db id)
unfolding delete_memory remove_rows
delete_memory-SameSessions db id =
    if_elim (Ensures (λ (r : ℕ × Db). SameSessions db r.1))
      (has memory_id id db.memories && is_referenced id db.memories) (err _) (ok (_, _)) tt
      (refl, refl)

pub audit_delete-SameSessions : (n id : ℕ) (db : Db) → SameSessions db (audit_delete n id db)
unfolding audit_delete insert_audit
audit_delete-SameSessions n id db =
    if_elim (SameSessions db) (ltb 0 n) _ db (refl, refl) (refl, refl)

pub SameSessions-trans : (a b c : Db) → SameSessions a b → SameSessions b c → SameSessions a c
SameSessions-trans a b c s t = (t.0 ∙ s.0, t.1 ∙ s.1)

pub delete_memories-SameSessions :
    (ids : List ℕ) (db : Db) → Ensures (λ r. SameSessions db r.1) (delete_memories db ids)
unfolding delete_memories
delete_memories-SameSessions [] db = (refl, refl)
delete_memories-SameSessions (id ∷ ids) db =
    Ensures-bind (λ r. SameSessions db r.1) (λ r. SameSessions db r.1) (delete_memory db id) _
      (delete_memory-SameSessions db id)
      λ r s.
        Ensures-bind (λ q. SameSessions (audit_delete r.0 id r.1) q.1) (λ q. SameSessions db q.1)
          (delete_memories (audit_delete r.0 id r.1) ids) _
          (delete_memories-SameSessions ids (audit_delete r.0 id r.1))
          λ q t. SameSessions-trans db r.1 q.1 s (
            SameSessions-trans r.1 (audit_delete r.0 id r.1) q.1
              (audit_delete-SameSessions r.0 id r.1) t)

pub touch_memories-SameSessions :
    (ids : List ℕ) (db : Db) (at : ℤ) → SameSessions db (touch_memories db ids at)
unfolding touch_memories touch_memory
touch_memories-SameSessions [] db at = (refl, refl)
touch_memories-SameSessions (id ∷ ids) db at =
    SameSessions-trans db (touch_memory db id at) (touch_memories (touch_memory db id at) ids at)
      (refl, refl) (touch_memories-SameSessions ids (touch_memory db id at) at)

pub decay_step-SameSessions :
    (db : Db) (u : Decayed) → Ensures (λ r. SameSessions db r.1) (decay_step db u)
unfolding decay_step set_importance
decay_step-SameSessions db u =
    if_elim (Ensures (λ (r : ℕ × Db). SameSessions db r.1)) u.delete (delete_memory db u.id)
      (ok (0, _)) (delete_memory-SameSessions db u.id) (refl, refl)

pub decay_all-SameSessions :
    (us : List Decayed) (db : Db) → Ensures (λ r. SameSessions db r.1) (decay_all db us)
unfolding decay_all
decay_all-SameSessions [] db = (refl, refl)
decay_all-SameSessions (u ∷ us) db =
    Ensures-bind (λ r. SameSessions db r.1) (λ r. SameSessions db r.1) (decay_step db u) _
      (decay_step-SameSessions db u)
      λ r s.
        Ensures-bind (λ q. SameSessions r.1 q.1) (λ q. SameSessions db q.1) (decay_all r.1 us) _
          (decay_all-SameSessions us r.1) (λ q t. SameSessions-trans db r.1 q.1 s t)
