-- ===== src/Store/Memories/Invariant.antt =====
-- The invariant of the memory tables: ids, references, the full-text index and the embeddings agree.
pub mod Rows
pub mod Updates
pub mod Deletion
use yet_another_memory_bank.Common.{
  HasDistinctKeys, ℕ, ◌≤◌, ◌<◌, ◌≡◌, String, true, Option, none, some, List, All, find, has,
}
use yet_another_memory_bank.Store.Rows.{Db, MemoryRow, FtsRow, EmbeddingRow}
use yet_another_memory_bank.Store.Memories.{memory_id, fts_id}

-- the text of a memory, and the text that the index holds for it
abbrev pub text_of : ℕ → List MemoryRow → Option String
text_of id memories = elim (find memory_id id memories) [ none ↦ none | some m ↦ some m.text ]

abbrev pub indexed_text : ℕ → List FtsRow → Option String
indexed_text id fts = elim (find fts_id id fts) [ none ↦ none | some r ↦ some r.text ]

-- NULL, or the id of a memory
abbrev pub IsReference : List MemoryRow → Option ℕ → Type 0
IsReference memories none = Unit
IsReference memories (some t) = has memory_id t memories ≡ true

abbrev pub TargetsIn : List MemoryRow → List MemoryRow → Type 0
TargetsIn memories = All (λ m. IsReference memories m.superseded_by)

abbrev pub EmbeddingsIn : List MemoryRow → List EmbeddingRow → Type 0
EmbeddingsIn memories = All (λ e. has memory_id e.memory_id memories ≡ true)

pub record MemoriesOk (db : Db) : Type 0 where
  -- ids are distinct and positive, and those to come are free
  pub distinct : HasDistinctKeys memory_id db.memories
  pub positive : 0 < db.next_memory
  pub fresh : (id : ℕ) → db.next_memory ≤ id → find memory_id id db.memories ≡ none
  -- with FTS5 the index holds the text of every memory, and nothing else
  pub indexed : db.fts5 ≡ true → (id : ℕ) → text_of id db.memories ≡ indexed_text id db.fts
  -- what supersedes a memory is a memory, and embeddings are of memories
  pub targets : TargetsIn db.memories db.memories
  pub embedded : EmbeddingsIn db.memories db.embeddings
