-- ===== src/Tests/Store.antt =====
-- internal/store at concrete inputs.
use yet_another_memory_bank.Common.{
  ℕ, ◌≡◌, refl, String, true, Option, none, some, [], ◌∷◌, arith, ok,
}
use yet_another_memory_bank.Common.Int.{pos}
use yet_another_memory_bank.Store.Rows.{Db, MemoryRow}
use yet_another_memory_bank.Store.Memories.{MemoryInput, MemoryUpdate}
use yet_another_memory_bank.Store.Memories.Invariant.{MemoriesOk}
use yet_another_memory_bank.Store.Embeddings.{encode_float32_le, decode_float32_le}
use yet_another_memory_bank.Store.Embeddings.Blobs.{decode-encode}

abbrev a_memory : ℕ → String → Option ℕ → MemoryRow
a_memory id text target = record {
  id = id;
  project = "p";
  text = text;
  tier = "fact";
  source = "manual";
  importance = 0;
  session_id = none;
  created_at = pos 5;
  updated_at = pos 5;
  accessed_at = pos 5;
  superseded_by = target;
  access_cnt = 0;
}

-- two memories, the first superseded by the second, which has an embedding
abbrev pub two_memories : Db
two_memories = record {
  sessions = [];
  observations = [];
  memories = a_memory 1 "old" (some 2) ∷ a_memory 2 "new" none ∷ [];
  embeddings = record { memory_id = 2; model = "m"; dim = 0; vec = [] } ∷ [];
  attempts = [];
  audit = [];
  imported = [];
  fts = record { rowid = 1; text = "old" } ∷ record { rowid = 2; text = "new" } ∷ [];
  fts5 = true;
  next_observation = 1;
  next_memory = 3;
  next_attempt = 1;
  next_audit = 1;
  next_imported = 1;
}

pub two_memories-MemoriesOk : MemoriesOk two_memories
two_memories-MemoriesOk = record {
  distinct = (refl, (refl, tt));
  positive = omega arith;
  fresh = λ id h. ground arith;
  indexed = λ on id. ground arith;
  targets = (refl, (tt, tt));
  embedded = (refl, tt);
}

abbrev pub a_note : MemoryInput
a_note = record {
  project = "p";
  text = "third";
  tier = "";
  source = "";
  importance = 0;
  session_id = "";
  created_at = pos 9;
}

abbrev pub a_change : MemoryUpdate
a_change = record {
  id = 2;
  text = some "newer";
  tier = none;
  importance = none;
  updated_at = pos 9;
}

decode-encode_example :
    decode_float32_le (encode_float32_le (1065353216 ∷ 7 ∷ [])) 2 ≡ ok (1065353216 ∷ 7 ∷ [])
decode-encode_example = decode-encode (1065353216 ∷ 7 ∷ []) (omega arith, (omega arith, tt))
