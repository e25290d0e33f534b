-- ===== src/Store/Memories.antt =====
-- internal/store/memories.go: memories and their full-text index. Each method is one transaction, so an
-- error leaves the database as it was.
pub mod Invariant
use yet_another_memory_bank.Common.{
  ℕ, suc, ◌+◌, ◌^◌, ◌*◌, String, Bool, true, false, ◌&&◌, ◌||◌, not, Option, none, some, List, [],
  ◌∷◌, ◌++◌, map, if◌then◌else◌, ◌==◌, ltb, str_eq, or_text, blank, take, rows_where, delete_where,
  update_where, exists_where, find, has, Outcome, ok, err, id_required, not_found, foreign_key,
}
use yet_another_memory_bank.Common.Int.{ℤ, clamp_limit, eq_ℤ, lt_ℤ}
use yet_another_memory_bank.Common.Sort.{slice_stable}
use yet_another_memory_bank.Floats.{Float64}
use yet_another_memory_bank.Store.Rows.{Db, MemoryRow, FtsRow, created, updated}
use yet_another_memory_bank.Store.Sessions.{text_or_empty}
use yet_another_memory_bank.Store.Audit.{insert_audit, null_if_empty, number_or_zero}

pub record MemoryInput : Type 0 where
  pub project : String
  pub text : String
  pub tier : String
  pub source : String
  pub importance : Float64
  pub session_id : String
  pub created_at : ℤ

pub record MemoryUpdate : Type 0 where
  pub id : ℕ
  pub text : Option String
  pub tier : Option String
  pub importance : Option Float64
  pub updated_at : ℤ

-- NULL columns are read as "" and 0.
pub record Memory : Type 0 where
  pub id : ℕ
  pub project : String
  pub text : String
  pub tier : String
  pub source : String
  pub importance : Float64
  pub session_id : String
  pub created_at : ℤ
  pub updated_at : ℤ
  pub accessed_at : ℤ
  pub superseded_by : ℕ
  pub score : Float64

abbrev pub memory_id : MemoryRow → ℕ
memory_id m = m.id

abbrev pub fts_id : FtsRow → ℕ
fts_id r = r.rowid

-- The bit patterns of 0 and of -0 compare equal to 0.
abbrev pub is_zero_float : Float64 → Bool
is_zero_float x = x == 0 || x == 2 ^ 63

-- 1.0
abbrev pub one_float : Float64
one_float = 1023 * 2 ^ 52

unfoldable pub new_memory : Db → MemoryInput → MemoryRow
new_memory db input = record {
  id = db.next_memory;
  project = input.project;
  text = input.text;
  tier = or_text input.tier "fact";
  source = or_text input.source "manual";
  importance = if is_zero_float input.importance then one_float else input.importance;
  session_id = null_if_empty input.session_id;
  created_at = input.created_at;
  updated_at = input.created_at;
  accessed_at = input.created_at;
  superseded_by = none;
  access_cnt = 0;
}

-- INSERT INTO memories, and INSERT INTO memories_fts where there is FTS5
unfoldable pub append_memory : Db → MemoryRow → Db
append_memory db m = record db {
  memories = db.memories ++ m ∷ [];
  next_memory = suc db.next_memory;
  fts = if db.fts5 then db.fts ++ record { rowid = m.id; text = m.text } ∷ [] else db.fts;
}

-- A session that the memory names has to be there: the column references sessions(id).
unfoldable pub add_memory : Db → MemoryInput → Outcome (ℕ × Db)
unfolding new_memory
add_memory db input =
    let m = new_memory db input in
    if blank input.session_id || exists_where (λ s. str_eq s.id input.session_id) db.sessions
    then ok (
      m.id,
      insert_audit (append_memory db m) input.created_at "memory_create" m.id input.session_id
          input.project (created m.tier m.source),
    )
    else err foreign_key

abbrev pub scan_memory : MemoryRow → Memory
scan_memory r = record {
  id = r.id;
  project = r.project;
  text = r.text;
  tier = r.tier;
  source = r.source;
  importance = r.importance;
  session_id = text_or_empty r.session_id;
  created_at = r.created_at;
  updated_at = r.updated_at;
  accessed_at = r.accessed_at;
  superseded_by = number_or_zero r.superseded_by;
  score = 0;
}

unfoldable pub memory : Db → ℕ → Outcome Memory
memory db id = elim (find memory_id id db.memories) [
  | none ↦ err not_found
  | some r ↦ ok (scan_memory r)
]

abbrev pub given {ℓ} : {A : Type ℓ} → Option A → A → A
given none old = old
given (some new) old = new

abbrev pub is_given {ℓ} : {A : Type ℓ} → Option A → Bool
is_given none = false
is_given (some a) = true

-- The SET clause: `updated_at`, and the columns that are given.
unfoldable pub apply_update : MemoryUpdate → MemoryRow → MemoryRow
apply_update u m = record m {
  text = given u.text m.text;
  tier = given u.tier m.tier;
  importance = given u.importance m.importance;
  updated_at = u.updated_at;
}

-- The index row is deleted and inserted anew.
unfoldable pub reindex : Db → ℕ → Option String → Db
reindex db id none = db
reindex db id (some text) = record db {
  fts =
      if db.fts5
      then delete_where (λ r. fts_id r == id) db.fts ++ record { rowid = id; text = text } ∷ []
      else db.fts;
}

unfoldable pub set_memory : Db → MemoryUpdate → Db
set_memory db u = record db {
  memories = update_where (λ m. memory_id m == u.id) (apply_update u) db.memories;
}

unfoldable pub update_memory : Db → MemoryUpdate → Outcome Db
update_memory db u =
    if u.id == 0
    then err id_required
    else if not (is_given u.text || is_given u.tier || is_given u.importance)
    then ok db
    else if not (has memory_id u.id db.memories)
    then err not_found
    else ok (
        insert_audit (reindex (set_memory db u) u.id u.text) u.updated_at "memory_update" u.id "" ""
          (updated (is_given u.text) (is_given u.tier) (is_given u.importance)))

-- superseded_by IS NULL
abbrev pub is_active : MemoryRow → Bool
is_active m = not (is_given m.superseded_by)

-- ORDER BY created_at DESC, id DESC
abbrev pub later_memory : MemoryRow → MemoryRow → Bool
later_memory a b =
    if eq_ℤ a.created_at b.created_at then ltb b.id a.id else lt_ℤ b.created_at a.created_at

unfoldable pub recent_memories : Db → String → ℤ → List Memory
recent_memories db project limit = map scan_memory (
    take (clamp_limit limit 10 100) (
      slice_stable later_memory
        (rows_where (λ m. str_eq m.project project && is_active m) db.memories)))

-- UPDATE memories SET accessed_at = ?, access_cnt = access_cnt + 1 WHERE id = ?
unfoldable pub touch_memory : Db → ℕ → ℤ → Db
touch_memory db id accessed_at = record db {
  memories =
      update_where (λ m. memory_id m == id)
        (λ m. record m { accessed_at = accessed_at; access_cnt = m.access_cnt + 1 }) db.memories;
}

-- for each of the ids, in one transaction
unfoldable pub touch_memories : Db → List ℕ → ℤ → Db
touch_memories db [] accessed_at = db
touch_memories db (id ∷ ids) accessed_at =
    touch_memories (touch_memory db id accessed_at) ids accessed_at
