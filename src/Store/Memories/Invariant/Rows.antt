-- ===== src/Store/Memories/Invariant/Rows.antt =====
-- How a row that is appended or changed keeps the invariant of the memory tables.
use yet_another_memory_bank.Common.{
  append-HasDistinctKeys, has_of_find-none, update-HasDistinctKeys, ℕ, ◌≡◌, ◌∙◌, ap, String, Bool,
  Option, none, some, List, [], ◌∷◌, ◌++◌, arith, if◌then◌else◌, ◌==◌, All-append, All-imp,
  update_where, find, find-append, find-update, has-append, has-update, All-update_where,
}
use yet_another_memory_bank.Common.Int.{ℤ}
use yet_another_memory_bank.Store.Rows.{Db, MemoryRow, EmbeddingRow, AuditPayload}
use yet_another_memory_bank.Store.Audit.{insert_audit}
use yet_another_memory_bank.Store.Memories.{memory_id, fts_id, append_memory}
use yet_another_memory_bank.Store.Memories.Invariant.{
  text_of, IsReference, TargetsIn, EmbeddingsIn, MemoriesOk,
}

-- The audit trail plays no part in it.
pub insert_audit-MemoriesOk :
    (db : Db) (ts : ℤ) (action : String) (id : ℕ) (s p : String) (payload : AuditPayload)
    → MemoriesOk db
    → MemoriesOk (insert_audit db ts action id s p payload)
unfolding insert_audit
insert_audit-MemoriesOk db ts action id s p payload v = record {
  distinct = v.distinct;
  positive = v.positive;
  fresh = v.fresh;
  indexed = v.indexed;
  targets = v.targets;
  embedded = v.embedded;
}

IsReference-append :
    (ms ns : List MemoryRow) (o : Option ℕ) → IsReference ms o → IsReference (ms ++ ns) o
IsReference-append ms ns none h = tt
IsReference-append ms ns (some t) h = ground (arith, has-append memory_id t ms ns)

pub append_memory-MemoriesOk :
    (db : Db) (m : MemoryRow)
    → m.id ≡ db.next_memory
    → m.superseded_by ≡ none
    → MemoriesOk db
    → MemoriesOk (append_memory db m)
unfolding append_memory
append_memory-MemoriesOk db m e n v = record {
  distinct =
      append-HasDistinctKeys memory_id db.memories m
        (has_of_find-none memory_id m.id db.memories (v.fresh m.id (omega (arith, e)))) v.distinct;
  positive = omega arith;
  fresh = λ id h. ground (arith, find-append memory_id id db.memories (m ∷ []), v.fresh id);
  indexed = λ on id. ground (
    arith,
    v.indexed on id,
    v.fresh id,
    find-append memory_id id db.memories (m ∷ []),
    find-append fts_id id db.fts (record { rowid = m.id; text = m.text } ∷ []),
  );
  targets =
      All-append _ db.memories (m ∷ [])
        (All-imp _ _ (λ r h. IsReference-append db.memories (m ∷ []) r.superseded_by h) _ v.targets)
        (rw n tt, tt);
  embedded =
      All-imp _ _ (λ r h. ground (arith, has-append memory_id r.memory_id db.memories (m ∷ []))) _
        v.embedded;
}

IsReference-update :
    (p : MemoryRow → Bool) (f : MemoryRow → MemoryRow)
    → ((m : MemoryRow) → (f m).id ≡ m.id)
    → (ms : List MemoryRow) (o : Option ℕ) → IsReference ms o
    → IsReference (update_where p f ms) o
IsReference-update p f e ms none h = tt
IsReference-update p f e ms (some t) h = has-update memory_id p f e t ms ∙ h

-- A change of one row that keeps its id.
module _ (f : MemoryRow → MemoryRow) (same_id : (m : MemoryRow) → (f m).id ≡ m.id) (id : ℕ) where
  abbrev pub change_row : List MemoryRow → List MemoryRow
  change_row = update_where (λ m. memory_id m == id) f

  pub change_row-TargetsIn :
      (ms : List MemoryRow)
      → ((m : MemoryRow) → IsReference ms m.superseded_by → IsReference ms (f m).superseded_by)
      → TargetsIn ms ms
      → TargetsIn (change_row ms) (change_row ms)
  change_row-TargetsIn ms keeps t =
      All-imp _ _ (λ m h. IsReference-update _ f same_id ms m.superseded_by h) (change_row ms)
        (All-update_where (λ m. IsReference ms m.superseded_by) (λ m. memory_id m == id) f keeps ms
          t)

  pub change_row-EmbeddingsIn :
      (ms : List MemoryRow) (es : List EmbeddingRow)
      → EmbeddingsIn ms es
      → EmbeddingsIn (change_row ms) es
  change_row-EmbeddingsIn ms es =
      All-imp _ _ (λ r h. has-update memory_id _ f same_id r.memory_id ms ∙ h) es

  pub change_row-fresh :
      (ms : List MemoryRow) (j : ℕ)
      → find memory_id j ms ≡ none
      → find memory_id j (change_row ms) ≡ none
  change_row-fresh ms j h = ground (arith, find-update memory_id f same_id id j ms)

  -- The text stays too.
  pub change_row-MemoriesOk :
      (db : Db)
      → ((m : MemoryRow) → (f m).text ≡ m.text)
      → ((m : MemoryRow)
          → IsReference db.memories m.superseded_by
          → IsReference db.memories (f m).superseded_by)
      → MemoriesOk db
      → MemoriesOk (record db { memories = change_row db.memories })
  change_row-MemoriesOk db same_text keeps v = record {
    distinct = update-HasDistinctKeys memory_id _ f same_id db.memories v.distinct;
    positive = v.positive;
    fresh = λ j h. change_row-fresh db.memories j (v.fresh j h);
    indexed = λ on j. same j ∙ v.indexed on j;
    targets = change_row-TargetsIn db.memories keeps v.targets;
    embedded = change_row-EmbeddingsIn db.memories db.embeddings v.embedded;
  }
    where
      option :
          (j : ℕ) (o : Option MemoryRow)
          → (elim (if id == j then elim o [ none ↦ none | some x ↦ some (f x) ] else o) [
            | none ↦ none
            | some m ↦ some m.text
          ])
            ≡ (elim o [ none ↦ none | some m ↦ some m.text ])
      option j none = ground arith
      option j (some m) = ground (arith, same_text m)

      same : (j : ℕ) → text_of j (change_row db.memories) ≡ text_of j db.memories
      same j =
          ap (λ (o : Option MemoryRow). elim o [ none ↦ none | some m ↦ some m.text ])
            (find-update memory_id f same_id id j db.memories)
          ∙ option j (find memory_id j db.memories)
