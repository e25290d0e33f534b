-- ===== src/Store/Embeddings.antt =====
-- internal/store/embeddings.go: embeddings as blobs of little-endian float32 values, which are
-- kept here as their 32-bit patterns.
pub mod Blobs
use yet_another_memory_bank.Common.{
  ◌>>=◌, ℕ, suc, ◌+◌, ◌*◌, ◌/◌, ◌%◌, String, Bool, ◌&&◌, ◌||◌, not, none, some, List, [], ◌∷◌, ◌++◌,
  map, if◌then◌else◌, ◌==◌, str_eq, blank, length, take, rows_where, delete_where, update_where,
  exists_where, find, has, Outcome, ok, err, no_model, no_vector, foreign_key, wrong_length,
}
use yet_another_memory_bank.Common.Int.{ℤ, clamp_limit}
use yet_another_memory_bank.Common.Sort.{slice_stable}
use yet_another_memory_bank.Store.Rows.{Db, MemoryRow, EmbeddingRow}
use yet_another_memory_bank.Store.Memories.{Memory, memory_id, scan_memory, is_active, later_memory}

pub record VectorCandidate : Type 0 where
  pub memory : Memory
  pub vector : List ℕ

-- binary.LittleEndian.PutUint32, for each value
unfoldable pub encode_float32_le : List ℕ → List ℕ
encode_float32_le [] = []
encode_float32_le (v ∷ vs) =
    v % 256 ∷ v / 256 % 256 ∷ v / 65536 % 256 ∷ v / 16777216 % 256 ∷ encode_float32_le vs

-- binary.LittleEndian.Uint32, `n` times
unfoldable pub decode_values : ℕ → List ℕ → List ℕ
decode_values (suc n) (a ∷ b ∷ c ∷ d ∷ rest) =
    (a + 256 * b + 65536 * c + 16777216 * d) ∷ decode_values n rest
decode_values _ _ = []

unfoldable pub decode_float32_le : List ℕ → ℕ → Outcome (List ℕ)
unfolding decode_values
decode_float32_le blob dim =
    if length blob == dim * 4 then ok (decode_values dim blob) else err wrong_length

abbrev pub embedding_id : EmbeddingRow → ℕ
embedding_id e = e.memory_id

abbrev pub new_embedding : ℕ → String → List ℕ → EmbeddingRow
new_embedding id model vec = record {
  memory_id = id;
  model = model;
  dim = length vec;
  vec = encode_float32_le vec;
}

-- INSERT … ON CONFLICT(memory_id) DO UPDATE
unfoldable pub upsert_embedding : EmbeddingRow → List EmbeddingRow → List EmbeddingRow
upsert_embedding e es =
    if has embedding_id e.memory_id es
    then update_where (λ r. embedding_id r == e.memory_id) (λ r. e) es
    else es ++ e ∷ []

unfoldable pub save_memory_embedding : Db → ℕ → String → List ℕ → Outcome Db
save_memory_embedding db id model vec =
    if blank model
    then err no_model
    else if length vec == 0
    then err no_vector
    else if not (has memory_id id db.memories)
    then err foreign_key
    else ok (record db { embeddings = upsert_embedding (new_embedding id model vec) db.embeddings })

-- the join of the embeddings with their memories
unfoldable pub joined : List MemoryRow → List EmbeddingRow → List (MemoryRow × List ℕ)
joined memories [] = []
joined memories (e ∷ es) = elim (find memory_id e.memory_id memories) [
  | none ↦ joined memories es
  | some m ↦ (m, e.vec) ∷ joined memories es
]

unfoldable pub scan_candidates : ℕ → List (MemoryRow × List ℕ) → Outcome (List VectorCandidate)
scan_candidates dim [] = ok []
scan_candidates dim ((m, blob) ∷ rest) = do
  vec ← decode_float32_le blob dim
  candidates ← scan_candidates dim rest
  ok (record { memory = scan_memory m; vector = vec } ∷ candidates)

unfoldable pub vector_candidates : Db → String → String → ℕ → ℤ → Outcome (List VectorCandidate)
vector_candidates db project model dim limit =
    if blank model || dim == 0
    then ok []
    else scan_candidates dim (
        take (clamp_limit limit 10000 100000) (
          slice_stable (λ a b. later_memory a.0 b.0)
            (rows_where (λ r. str_eq r.0.project project && is_active r.0)
              (joined db.memories
                (rows_where (λ e. str_eq e.model model && e.dim == dim) db.embeddings)))))

-- the memory has an embedding of the model and dimension
abbrev pub has_embedding : Db → String → ℕ → MemoryRow → Bool
has_embedding db model dim m =
    exists_where (λ e. e.memory_id == m.id && (str_eq e.model model && e.dim == dim)) db.embeddings

-- ORDER BY created_at ASC, id ASC
abbrev pub earlier_memory : MemoryRow → MemoryRow → Bool
earlier_memory a b = later_memory b a

unfoldable pub missing_embeddings : Db → String → String → ℕ → ℤ → List Memory
missing_embeddings db project model dim limit =
    if blank model || dim == 0
    then []
    else map scan_memory (
        take (clamp_limit limit 100 1000) (
          slice_stable earlier_memory (
            rows_where
              (λ m. str_eq m.project project && (is_active m && not (has_embedding db model dim m)))
              db.memories)))

-- An empty model stands for all models.
unfoldable pub delete_embeddings : Db → String → String → Db
delete_embeddings db project model = record db {
  embeddings =
      delete_where
        (λ e.
          exists_where (λ m. memory_id m == e.memory_id && str_eq m.project project) db.memories
          && (blank model || str_eq e.model model))
        db.embeddings;
}
