-- ===== src/Store/Removal.antt =====
-- `DeleteMemories` of internal/store/mcp_helpers.go and `SupersedeMemory` of
-- internal/store/compaction.go. Each is one transaction: an error leaves the database as it was.
use yet_another_memory_bank.Common.{
  ℕ, ◌+◌, Bool, false, ◌&&◌, ◌||◌, not, none, some, List, [], ◌∷◌, if◌then◌else◌, ◌==◌, ltb,
  delete_where, update_where, exists_where, count_where, has, Outcome, ok, err, ◌>>=◌, not_found,
  bad_supersession, foreign_key,
}
use yet_another_memory_bank.Common.Int.{pos}
use yet_another_memory_bank.Store.Rows.{Db, MemoryRow, deleted, superseded}
use yet_another_memory_bank.Store.Audit.{insert_audit}
use yet_another_memory_bank.Store.Memories.{memory_id, fts_id}

-- another row refers to the memory by its `superseded_by`
abbrev pub refers_to : ℕ → MemoryRow → Bool
refers_to id m = elim m.superseded_by [ none ↦ false | some t ↦ t == id ]

abbrev pub is_referenced : ℕ → List MemoryRow → Bool
is_referenced id memories = exists_where (λ m. refers_to id m && not (m.id == id)) memories

-- DELETE FROM memories_fts, then DELETE FROM memories, which cascades to the embedding. A memory
-- that another row refers to cannot be deleted.
unfoldable pub remove_rows : Db → ℕ → Db
remove_rows db id = record db {
  fts = if db.fts5 then delete_where (λ r. fts_id r == id) db.fts else db.fts;
  memories = delete_where (λ m. memory_id m == id) db.memories;
  embeddings = delete_where (λ e. e.memory_id == id) db.embeddings;
}

-- the number of rows deleted, and the database
unfoldable pub delete_memory : Db → ℕ → Outcome (ℕ × Db)
delete_memory db id =
    if has memory_id id db.memories && is_referenced id db.memories
    then err foreign_key
    else ok (count_where (λ m. memory_id m == id) db.memories, remove_rows db id)

-- The event is written if a row was deleted. It has no time: its `ts` is 0.
unfoldable pub audit_delete : ℕ → ℕ → Db → Db
audit_delete n id db =
    if ltb 0 n then insert_audit db (pos 0) "memory_delete" id "" "" deleted else db

-- The loop of the transaction; an error rolls back what was deleted before.
unfoldable pub delete_memories : Db → List ℕ → Outcome (ℕ × Db)
delete_memories db [] = ok (0, db)
delete_memories db (id ∷ ids) = do
  (n, db') ← delete_memory db id
  (rest, db'') ← delete_memories (audit_delete n id db') ids
  ok (n + rest, db'')

unfoldable pub supersede_memory : Db → ℕ → ℕ → Outcome Db
supersede_memory db old_id new_id =
    if old_id == 0 || new_id == 0 || old_id == new_id
    then err bad_supersession
    else if not (has memory_id old_id db.memories)
    then err not_found
    else if not (has memory_id new_id db.memories)
    then err foreign_key
    else ok (
        insert_audit
          (record db {
            memories =
                update_where (λ m. memory_id m == old_id)
                  (λ m. record m { superseded_by = some new_id }) db.memories;
          })
          (pos 0) "memory_supersede" old_id "" "" (superseded new_id))
