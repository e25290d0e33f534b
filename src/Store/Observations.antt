-- ===== src/Store/Observations.antt =====
-- internal/store/observations.go, and the reading of observations in mcp_helpers.go and
-- phase2_helpers.go. The zstd library is a parameter.
pub mod Payloads
pub mod Frame
pub mod Counts
pub mod Dedup
use yet_another_memory_bank.Common.{
  ◌>>=◌, ℕ, suc, ◌+◌, ◌*◌, String, Bool, ◌&&◌, Option, none, some, List, [], ◌∷◌, ◌++◌,
  if◌then◌else◌, str_eq, ltb, length, take, rows_where, update_where, exists_where, count_where,
  Outcome, ok, err, bad_encoding, foreign_key,
}
use yet_another_memory_bank.Common.Int.{ℤ, pos, clamp_limit, eq_ℤ, lt_ℤ, ◌-ℤ◌}
use yet_another_memory_bank.Common.Sort.{slice_stable}
use yet_another_memory_bank.Store.Rows.{Db, ObservationRow}
use yet_another_memory_bank.Store.Sessions.{ensure_session}

-- github.com/klauspost/compress/zstd: `EncodeAll` and `DecodeAll`, which may refuse its input.
pub record Zstd : Type 0 where
  pub encode_all : List ℕ → List ℕ
  pub decode_all : List ℕ → Option (List ℕ)

pub record ObservationInput : Type 0 where
  pub agent : String
  pub external_session_id : String
  pub cwd : String
  pub ts : ℤ
  pub kind : String
  pub tool : String
  pub payload_json : List ℕ
  pub hash : String

pub record Observation : Type 0 where
  pub id : ℕ
  pub session_id : String
  pub cwd : String
  pub ts : ℤ
  pub kind : String
  pub tool : String
  pub payload_json : List ℕ
  pub payload_encoding : String
  pub payload_len : ℕ
  pub schema_version : ℕ
  pub hash : String

module _ (z : Zstd) where
  unfoldable pub encode_payload : List ℕ → List ℕ × String
  encode_payload raw = if ltb (length raw) 512 then (raw, "raw") else (z.encode_all raw, "zstd")

  unfoldable pub decode_payload : List ℕ → String → Outcome (List ℕ)
  decode_payload payload encoding =
      if str_eq encoding "raw"
      then ok payload
      else if str_eq encoding "zstd"
      then (elim (z.decode_all payload) [ none ↦ err bad_encoding | some raw ↦ ok raw ])
      else err bad_encoding

  unfoldable pub new_observation : Db → ObservationInput → String → ObservationRow
  unfolding encode_payload
  new_observation db input session_id = record {
    id = db.next_observation;
    session_id = session_id;
    cwd = input.cwd;
    ts = input.ts;
    kind = input.kind;
    tool = input.tool;
    payload = (encode_payload input.payload_json).0;
    payload_len = length input.payload_json;
    payload_encoding = (encode_payload input.payload_json).1;
    schema_version = 1;
    hash = input.hash;
  }

-- SELECT 1 FROM observations WHERE hash = ? AND ts > ?
unfoldable pub is_duplicate : Db → String → ℤ → Bool
is_duplicate db hash after =
    exists_where (λ o. str_eq o.hash hash && lt_ℤ after o.ts) db.observations

-- UPDATE sessions SET n_obs = n_obs + 1 WHERE id = ?
unfoldable pub count_up : Db → String → Db
count_up db session_id = record db {
  sessions =
      update_where (λ s. str_eq s.id session_id) (λ s. record s { n_obs = s.n_obs + 1 })
        db.sessions;
}

unfoldable pub append_observation : Zstd → Db → ObservationInput → String → Db
append_observation z db input session_id = record db {
  observations = db.observations ++ new_observation z db input session_id ∷ [];
  next_observation = suc db.next_observation;
}

-- the session of an observation has to be there: the column references sessions(id)
abbrev pub has_session : Db → String → Bool
has_session db session_id = exists_where (λ s. str_eq s.id session_id) db.sessions

-- One transaction: an error leaves the database as it was. The flag says if a row was inserted.
unfoldable pub insert_observation : Zstd → Db → ObservationInput → ℕ → Outcome (Bool × Db)
insert_observation z db input window = do
  (session_id, db') ← ensure_session db input.agent input.external_session_id input.cwd input.ts
  if is_duplicate db' input.hash (input.ts -ℤ pos (window * 1000))
      then ok (Bool.false, db')
      else if has_session db' session_id
      then ok (Bool.true, count_up (append_observation z db' input session_id) session_id)
      else err foreign_key

unfoldable pub observation_count : Db → String → ℕ
observation_count db session_id = count_where (λ o. str_eq o.session_id session_id) db.observations

-- `scanObservation`
unfoldable pub scan_observation : Zstd → ObservationRow → Outcome Observation
scan_observation z r = do
  decoded ← decode_payload z r.payload r.payload_encoding
  ok (record {
    id = r.id;
    session_id = r.session_id;
    cwd = r.cwd;
    ts = r.ts;
    kind = r.kind;
    tool = r.tool;
    payload_json = decoded;
    payload_encoding = r.payload_encoding;
    payload_len = r.payload_len;
    schema_version = r.schema_version;
    hash = r.hash;
  })

-- The loop over the rows stops at the first that cannot be decoded.
unfoldable pub scan_observations : Zstd → List ObservationRow → Outcome (List Observation)
scan_observations z [] = ok []
scan_observations z (r ∷ rows) = do
  o ← scan_observation z r
  os ← scan_observations z rows
  ok (o ∷ os)

-- ORDER BY ts ASC, id ASC, and ORDER BY ts DESC, id DESC
abbrev pub earlier_observation : ObservationRow → ObservationRow → Bool
earlier_observation a b = if eq_ℤ a.ts b.ts then ltb a.id b.id else lt_ℤ a.ts b.ts

abbrev pub later_observation : ObservationRow → ObservationRow → Bool
later_observation a b = earlier_observation b a

unfoldable pub list_session_observations : Zstd → Db → String → ℤ → Outcome (List Observation)
list_session_observations z db session_id limit = scan_observations z (
    take (clamp_limit limit 100 1000) (
      slice_stable earlier_observation
        (rows_where (λ o. str_eq o.session_id session_id) db.observations)))
