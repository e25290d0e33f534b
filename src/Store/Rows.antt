-- ===== src/Store/Rows.antt =====
-- The tables of internal/store/migrations and the state of a `Store`. A row of a table is a
-- record, a nullable column an `Option`, and the rows stand in the order of their insertion.
use yet_another_memory_bank.Common.{ℕ, String, Bool, Option, List}
use yet_another_memory_bank.Common.Int.{ℤ}
use yet_another_memory_bank.Floats.{Float64}

pub record SessionRow : Type 0 where
  pub id : String
  pub agent : String
  pub external_id : String
  pub project : String
  pub started_at : ℤ
  pub ended_at : Option ℤ
  pub summary : Option String
  pub n_obs : ℕ

-- A payload is a list of bytes.
pub record ObservationRow : Type 0 where
  pub id : ℕ
  pub session_id : String
  pub cwd : String
  pub ts : ℤ
  pub kind : String
  pub tool : String
  pub payload : List ℕ
  pub payload_len : ℕ
  pub payload_encoding : String
  pub schema_version : ℕ
  pub hash : String

pub record MemoryRow : Type 0 where
  pub id : ℕ
  pub project : String
  pub text : String
  pub tier : String
  pub source : String
  pub importance : Float64
  pub session_id : Option String
  pub created_at : ℤ
  pub updated_at : ℤ
  pub accessed_at : ℤ
  pub superseded_by : Option ℕ
  pub access_cnt : ℕ

pub record EmbeddingRow : Type 0 where
  pub memory_id : ℕ
  pub model : String
  pub dim : ℕ
  pub vec : List ℕ

pub record AttemptRow : Type 0 where
  pub id : ℕ
  pub session_id : String
  pub status : String
  pub reason : String
  pub attempted_at : ℤ
  pub completed_at : Option ℤ

-- What `auditPayload` is given to marshal.
pub data AuditPayload : Type 0 where
  created : (tier source : String) → AuditPayload
  updated : (text tier importance : Bool) → AuditPayload
  deleted : AuditPayload
  superseded : (new_id : ℕ) → AuditPayload

pub record AuditRow : Type 0 where
  pub id : ℕ
  pub ts : ℤ
  pub action : String
  pub memory_id : Option ℕ
  pub session_id : Option String
  pub project : Option String
  pub payload : AuditPayload

pub record ImportedRow : Type 0 where
  pub id : ℕ
  pub transcript_path : String
  pub event_id : String
  pub imported_at : ℤ

-- the virtual table memories_fts
pub record FtsRow : Type 0 where
  pub rowid : ℕ
  pub text : String

-- The tables, the ids that AUTOINCREMENT gives next, and whether the store has FTS5.
pub record Db : Type 0 where
  pub sessions : List SessionRow
  pub observations : List ObservationRow
  pub memories : List MemoryRow
  pub embeddings : List EmbeddingRow
  pub attempts : List AttemptRow
  pub audit : List AuditRow
  pub imported : List ImportedRow
  pub fts : List FtsRow
  pub fts5 : Bool
  pub next_observation : ℕ
  pub next_memory : ℕ
  pub next_attempt : ℕ
  pub next_audit : ℕ
  pub next_imported : ℕ
