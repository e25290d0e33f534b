-- ===== src/Tests/Observations.antt =====
-- Observations at concrete inputs.
use yet_another_memory_bank.Common.{
  exists_where, ℕ, ◌≡◌, refl, String, true, false, Option, none, some, List, [], ◌∷◌, ok, Ensures,
}
use yet_another_memory_bank.Common.Int.{pos, ◌-ℤ◌}
use yet_another_memory_bank.Store.Rows.{Db}
use yet_another_memory_bank.Store.Sessions.{ensure_session}
use yet_another_memory_bank.Store.Observations.{
  Zstd, ObservationInput, encode_payload, decode_payload, is_duplicate, append_observation,
  count_up, insert_observation,
}
use yet_another_memory_bank.Store.Observations.Payloads.{decode_payload-encode_payload}
use yet_another_memory_bank.Store.Observations.Counts.{SessionsOk}
use yet_another_memory_bank.Store.Observations.Dedup.{
  is_recent, Inserted, insert_observation-Inserted, insert_observation-twice,
}

-- A compressor that adds a byte.
abbrev pub padding : Zstd
padding = record { encode_all = λ raw. 40 ∷ raw; decode_all = λ blob. unpad blob }
  where
    unpad : List ℕ → Option (List ℕ)
    unpad [] = none
    unpad (_ ∷ raw) = some raw

abbrev pub reading : String → ℕ → ObservationInput
reading hash ts = record {
  agent = "claude";
  external_session_id = "1";
  cwd = "p";
  ts = pos ts;
  kind = "post_tool";
  tool = "Read";
  payload_json = 123 ∷ 125 ∷ [];
  hash = hash;
}

-- a session with one observation
abbrev started : Db
started = record {
  sessions =
      record {
        id = "claude:1";
        agent = "claude";
        external_id = "1";
        project = "p";
        started_at = pos 0;
        ended_at = none;
        summary = none;
        n_obs = 1;
      }
      ∷ [];
  observations =
      record {
        id = 1;
        session_id = "claude:1";
        cwd = "p";
        ts = pos 0;
        kind = "session_start";
        tool = "";
        payload = [];
        payload_len = 0;
        payload_encoding = "raw";
        schema_version = 1;
        hash = "h0";
      }
      ∷ [];
  memories = [];
  embeddings = [];
  attempts = [];
  audit = [];
  imported = [];
  fts = [];
  fts5 = true;
  next_observation = 2;
  next_memory = 1;
  next_attempt = 1;
  next_audit = 1;
  next_imported = 1;
}

started-SessionsOk : SessionsOk started
started-SessionsOk = record { keyed = (refl, tt); counted = (refl, tt); referring = (refl, tt) }

decode_payload-encode_payload_example :
    decode_payload padding
      (encode_payload padding (1 ∷ 2 ∷ [])).0
      (encode_payload padding (1 ∷ 2 ∷ [])).1
    ≡ ok (1 ∷ 2 ∷ [])
decode_payload-encode_payload_example = decode_payload-encode_payload padding (1 ∷ 2 ∷ []) refl

insert_observation-Inserted_example :
    Ensures
      (Inserted padding started
        (reading "h" 5000)
        (exists_where (is_recent (reading "h" 5000) 60) started.observations))
      (insert_observation padding started (reading "h" 5000) 60)
insert_observation-Inserted_example =
    insert_observation-Inserted padding started (reading "h" 5000) 60

-- the database after the first reading
abbrev read_once : Db
read_once = count_up (append_observation padding started (reading "h" 5000) "claude:1") "claude:1"

insert_observation-twice_example :
    Ensures
      (λ r. (r.0 ≡ false) × (r.1.observations ≡ read_once.observations))
      (insert_observation padding read_once (reading "h" 9000) 60)
unfolding insert_observation ensure_session is_duplicate ◌-ℤ◌
insert_observation-twice_example =
    insert_observation-twice padding started read_once (reading "h" 5000) (reading "h" 9000) 60 refl
      refl refl
