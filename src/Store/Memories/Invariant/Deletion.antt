-- ===== src/Store/Memories/Invariant/Deletion.antt =====
-- The deletion of memories keeps the invariant of the memory tables.
use yet_another_memory_bank.Common.{
  delete-HasDistinctKeys, ℕ, ◌≡◌, refl, sym, ◌∙◌, ap, inl, inr, true, false, Option, none, some,
  List, [], ◌∷◌, arith, ◌==◌, ==_iff, Bool-cases, delete_where, has, find-delete, has-delete,
  if_elim, Ensures, Ensures-bind, ltb,
}
use yet_another_memory_bank.Common.Int.{pos}
use yet_another_memory_bank.Store.Rows.{Db, MemoryRow, EmbeddingRow, deleted}
use yet_another_memory_bank.Store.Audit.{insert_audit}
use yet_another_memory_bank.Store.Memories.{memory_id, fts_id}
use yet_another_memory_bank.Store.Removal.{
  is_referenced, remove_rows, delete_memory, audit_delete, delete_memories,
}
use yet_another_memory_bank.Store.Memories.Invariant.{
  IsReference, TargetsIn, EmbeddingsIn, MemoriesOk,
}
use yet_another_memory_bank.Store.Memories.Invariant.Rows.{insert_audit-MemoriesOk}

delete-IsReference :
    (id : ℕ) (ms : List MemoryRow) (o : Option ℕ)
    → IsReference ms o
    → (elim o [ none ↦ false | some t ↦ t == id ]) ≡ false
    → IsReference (delete_where (λ m. memory_id m == id) ms) o
delete-IsReference id ms none h n = tt
delete-IsReference id ms (some t) h n = ground (arith, has-delete memory_id id t ms)

-- Rows that do not refer to a deleted memory keep their targets.
delete-TargetsIn :
    (id : ℕ) (ms rows : List MemoryRow)
    → is_referenced id rows ≡ false
    → TargetsIn ms rows
    → TargetsIn
        (delete_where (λ m. memory_id m == id) ms)
        (delete_where (λ m. memory_id m == id) rows)
delete-TargetsIn id ms [] h t = tt
delete-TargetsIn id ms (m ∷ rows) h t = elim (Bool-cases (memory_id m == id)) [
  | inl e ↦ rw e (delete-TargetsIn id ms rows (ground arith) t.1)
  | inr e ↦ rw e (
    delete-IsReference id ms m.superseded_by t.0 (ground arith),
    delete-TargetsIn id ms rows (ground arith) t.1,
  )
]

delete-EmbeddingsIn :
    (id : ℕ) (ms : List MemoryRow) (es : List EmbeddingRow)
    → EmbeddingsIn ms es
    → EmbeddingsIn
        (delete_where (λ m. memory_id m == id) ms)
        (delete_where (λ e. e.memory_id == id) es)
delete-EmbeddingsIn id ms [] h = tt
delete-EmbeddingsIn id ms (e ∷ es) h =
    ground (arith, delete-EmbeddingsIn id ms es h.1, has-delete memory_id id e.memory_id ms)

remove_rows-MemoriesOk :
    (db : Db) (id : ℕ)
    → is_referenced id db.memories ≡ false
    → MemoriesOk db
    → MemoriesOk (remove_rows db id)
unfolding remove_rows
remove_rows-MemoriesOk db id h v = record {
  distinct = delete-HasDistinctKeys memory_id id db.memories v.distinct;
  positive = v.positive;
  fresh = λ j k. ground (arith, find-delete memory_id id j db.memories, v.fresh j);
  indexed = λ on j. ground (
    arith,
    find-delete memory_id id j db.memories,
    find-delete fts_id id j db.fts,
    v.indexed on j,
  );
  targets = delete-TargetsIn id db.memories db.memories h v.targets;
  embedded = delete-EmbeddingsIn id db.memories db.embeddings v.embedded;
}

missing_target :
    (id : ℕ) (ms : List MemoryRow) (o : Option ℕ)
    → has memory_id id ms ≡ false
    → IsReference ms o
    → (elim o [ none ↦ false | some t ↦ t == id ]) ≡ false
missing_target id ms none h r = refl
missing_target id ms (some t) h r = elim (Bool-cases (t == id)) [
  | inl e ↦
      let same : t ≡ id = (==_iff t id).0 e in
      let there : has memory_id id ms ≡ true = ap (λ (k : ℕ). has memory_id k ms) (sym same) ∙ r in
      cc
  | inr e ↦ e
]

-- Where no row has the id, no row refers to it.
not_referenced :
    (id : ℕ) (ms rows : List MemoryRow)
    → has memory_id id ms ≡ false
    → TargetsIn ms rows
    → is_referenced id rows ≡ false
not_referenced id ms [] h t = refl
not_referenced id ms (m ∷ rows) h t =
    ground (arith, missing_target id ms m.superseded_by h t.0, not_referenced id ms rows h t.1)

pub delete_memory-MemoriesOk :
    (db : Db) (id : ℕ) → MemoriesOk db → Ensures (λ r. MemoriesOk r.1) (delete_memory db id)
unfolding delete_memory
delete_memory-MemoriesOk db id v = elim (Bool-cases (has memory_id id db.memories)) [
  | inl h ↦ elim (Bool-cases (is_referenced id db.memories)) [
    | inl e ↦ rw (h, e) tt
    | inr e ↦ rw (h, e) (remove_rows-MemoriesOk db id e v)
  ]
  | inr h ↦
      rw h (remove_rows-MemoriesOk db id (not_referenced id db.memories db.memories h v.targets) v)
]

audit_delete-MemoriesOk : (n id : ℕ) (db : Db) → MemoriesOk db → MemoriesOk (audit_delete n id db)
unfolding audit_delete
audit_delete-MemoriesOk n id db v =
    if_elim MemoriesOk (ltb 0 n) (insert_audit db (pos 0) "memory_delete" id "" "" deleted) db
      (insert_audit-MemoriesOk _ _ _ _ _ _ _ v) v

-- `DeleteMemories`, where it does not fail, keeps the invariant of the memory tables.
pub delete_memories-MemoriesOk :
    (db : Db) (ids : List ℕ)
    → MemoriesOk db
    → Ensures (λ r. MemoriesOk r.1) (delete_memories db ids)
unfolding delete_memories
delete_memories-MemoriesOk db [] v = v
delete_memories-MemoriesOk db (id ∷ ids) v =
    Ensures-bind (λ r. MemoriesOk r.1) (λ r. MemoriesOk r.1) (delete_memory db id) _
      (delete_memory-MemoriesOk db id v)
      λ r w.
        Ensures-bind (λ r. MemoriesOk r.1) (λ r. MemoriesOk r.1)
          (delete_memories (audit_delete r.0 id r.1) ids) _
          (delete_memories-MemoriesOk (audit_delete r.0 id r.1) ids
            (audit_delete-MemoriesOk r.0 id r.1 w))
          (λ _ k. k)
