-- ===== src/Store/Memories/Invariant/Updates.antt =====
-- The methods that add and change memories keep the invariant of the memory tables.
use yet_another_memory_bank.Common.{
  update-HasDistinctKeys, ℕ, ◌≡◌, refl, inl, inr, String, true, ◌||◌, Option, none, some, List, [],
  ◌∷◌, ◌++◌, arith, ◌==◌, Bool-cases, delete_where, update_where, exists_where, has, find-append,
  find-delete, find-update, find_of_has, ok, err, if_elim, Ensures, blank, str_eq, foreign_key,
}
use yet_another_memory_bank.Common.Int.{ℤ}
use yet_another_memory_bank.Store.Rows.{Db, MemoryRow, FtsRow}
use yet_another_memory_bank.Store.Memories.{
  MemoryInput, MemoryUpdate, memory_id, fts_id, new_memory, add_memory, is_given, apply_update,
  reindex, set_memory, update_memory, touch_memory, touch_memories,
}
use yet_another_memory_bank.Store.Removal.{supersede_memory}
use yet_another_memory_bank.Store.Memories.Invariant.{
  text_of, indexed_text, IsReference, MemoriesOk,
}
use yet_another_memory_bank.Store.Memories.Invariant.Rows.{
  insert_audit-MemoriesOk, append_memory-MemoriesOk, change_row-TargetsIn, change_row-EmbeddingsIn,
  change_row-fresh, change_row-MemoriesOk,
}

-- `AddMemory`, where it does not fail, keeps the invariant of the memory tables.
pub add_memory-MemoriesOk :
    (db : Db) (input : MemoryInput)
    → MemoriesOk db
    → Ensures (λ r. MemoriesOk r.1) (add_memory db input)
unfolding add_memory
add_memory-MemoriesOk db input v =
    if_elim (Ensures (λ r. MemoriesOk r.1))
      (blank input.session_id || exists_where (λ s. str_eq s.id input.session_id) db.sessions)
      (ok (m.id, _)) (err foreign_key)
      (insert_audit-MemoriesOk _ _ _ _ _ _ _ (append_memory-MemoriesOk db m refl refl v)) tt
  where
    m : MemoryRow
    m = new_memory db input

apply_update-keeps :
    (u : MemoryUpdate) (ms : List MemoryRow) (m : MemoryRow)
    → IsReference ms m.superseded_by
    → IsReference ms (apply_update u m).superseded_by
unfolding apply_update
apply_update-keeps u ms m h = h

apply_update-id : (u : MemoryUpdate) (m : MemoryRow) → (apply_update u m).id ≡ m.id
unfolding apply_update
apply_update-id u m = refl

-- A new text goes to the row and to the index.
reindexed :
    (u : MemoryUpdate) (t : String) (ms : List MemoryRow) (fts : List FtsRow)
    → u.text ≡ some t
    → has memory_id u.id ms ≡ true
    → (j : ℕ) → text_of j ms ≡ indexed_text j fts
    → text_of j (update_where (λ m. memory_id m == u.id) (apply_update u) ms)
      ≡ indexed_text j
          (delete_where (λ r. fts_id r == u.id) fts ++ record { rowid = u.id; text = t } ∷ [])
unfolding apply_update
reindexed u t ms fts e there j same =
    let (x, found) = find_of_has memory_id u.id ms there in
    ground (
      arith,
      found,
      find-update memory_id (apply_update u) (apply_update-id u) u.id j ms,
      find-append fts_id j (delete_where (λ r. fts_id r == u.id) fts)
          (record { rowid = u.id; text = t } ∷ []),
      find-delete fts_id u.id j fts,
    )

set_memory-MemoriesOk :
    (db : Db) (u : MemoryUpdate) (o : Option String)
    → u.text ≡ o
    → has memory_id u.id db.memories ≡ true
    → MemoriesOk db
    → MemoriesOk (reindex (set_memory db u) u.id o)
unfolding reindex set_memory
set_memory-MemoriesOk db u none e there v =
    change_row-MemoriesOk (apply_update u) (apply_update-id u) u.id db
      (λ m. unfold apply_update in rw e) (apply_update-keeps u db.memories) v
set_memory-MemoriesOk db u (some t) e there v = record {
  distinct =
      update-HasDistinctKeys memory_id _ (apply_update u) (apply_update-id u) db.memories
        v.distinct;
  positive = v.positive;
  fresh =
      λ j h. change_row-fresh (apply_update u) (apply_update-id u) u.id db.memories j (v.fresh j h);
  indexed = λ on j. rw on (reindexed u t db.memories db.fts e there j (v.indexed on j));
  targets =
      change_row-TargetsIn (apply_update u) (apply_update-id u) u.id db.memories
        (apply_update-keeps u db.memories) v.targets;
  embedded =
      change_row-EmbeddingsIn (apply_update u) (apply_update-id u) u.id db.memories db.embeddings
        v.embedded;
}

-- `UpdateMemory`, where it does not fail, keeps the invariant of the memory tables.
pub update_memory-MemoriesOk :
    (db : Db) (u : MemoryUpdate) → MemoriesOk db → Ensures MemoriesOk (update_memory db u)
unfolding update_memory
update_memory-MemoriesOk db u v = elim (Bool-cases (u.id == 0)) [
  | inl e ↦ rw e tt
  | inr e ↦ rw e (elim (Bool-cases (is_given u.text || is_given u.tier || is_given u.importance)) [
    | inl g ↦ rw g (elim (Bool-cases (has memory_id u.id db.memories)) [
      | inl h ↦
          rw h (insert_audit-MemoriesOk _ _ _ _ _ _ _ (set_memory-MemoriesOk db u u.text refl h v))
      | inr h ↦ rw h tt
    ])
    | inr g ↦ rw g v
  ])
]

-- `SupersedeMemory`, where it does not fail, keeps the invariant of the memory tables.
pub supersede_memory-MemoriesOk :
    (db : Db) (old_id new_id : ℕ)
    → MemoriesOk db
    → Ensures MemoriesOk (supersede_memory db old_id new_id)
unfolding supersede_memory
supersede_memory-MemoriesOk db old_id new_id v =
    elim (Bool-cases (old_id == 0 || new_id == 0 || old_id == new_id)) [
      | inl e ↦ rw e tt
      | inr e ↦ rw e (elim (Bool-cases (has memory_id old_id db.memories)) [
        | inl g ↦ rw g (elim (Bool-cases (has memory_id new_id db.memories)) [
          | inl h ↦ rw h (
              insert_audit-MemoriesOk _ _ _ _ _ _ _
                (change_row-MemoriesOk _ (λ m. refl) old_id db (λ m. refl) (λ m _. h) v))
          | inr h ↦ rw h tt
        ])
        | inr g ↦ rw g tt
      ])
    ]

touch_memory-MemoriesOk :
    (db : Db) (id : ℕ) (at : ℤ) → MemoriesOk db → MemoriesOk (touch_memory db id at)
unfolding touch_memory
touch_memory-MemoriesOk db id at v =
    change_row-MemoriesOk _ (λ m. refl) id db (λ m. refl) (λ m h. h) v

pub touch_memories-MemoriesOk :
    (db : Db) (ids : List ℕ) (at : ℤ) → MemoriesOk db → MemoriesOk (touch_memories db ids at)
unfolding touch_memories
touch_memories-MemoriesOk db [] at v = v
touch_memories-MemoriesOk db (id ∷ ids) at v =
    touch_memories-MemoriesOk (touch_memory db id at) ids at (touch_memory-MemoriesOk db id at v)
