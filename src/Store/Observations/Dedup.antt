-- ===== src/Store/Observations/Dedup.antt =====
-- Which observations count as duplicates.
use mathlib.Core.Path.{subst}
use yet_another_memory_bank.Common.{
  ℕ, ◌*◌, ◌≡◌, refl, sym, ap, ◌∙◌, String, Bool, true, false, ◌&&◌, not, [], ◌∷◌, ◌++◌, arith,
  if◌then◌else◌, if_split, if_elim, str_eq, eq_refl, exists_where, exists_where-append, ok, err,
  Ensures, Ensures-bind, foreign_key, ltb, length, Bool-cases, inl, inr,
}
use yet_another_memory_bank.Common.Int.{ℤ, pos, lt_ℤ, ◌-ℤ◌}
use yet_another_memory_bank.Store.Rows.{Db, ObservationRow}
use yet_another_memory_bank.Store.Sessions.{session_key, ensure_session}
use yet_another_memory_bank.Store.Observations.{
  Zstd, ObservationInput, has_session, is_duplicate, new_observation, append_observation, count_up,
  encode_payload, insert_observation,
}

-- the window before an observation, in which its hash must not be found
abbrev pub window_start : ObservationInput → ℕ → ℤ
window_start input window = input.ts -ℤ pos (window * 1000)

-- A session id, and a database in which only sessions may differ.
abbrev Ensured : Db → String → String × Db → Type 0
Ensured db key r =
    (r.0 ≡ key)
    × ((r.1.observations ≡ db.observations) × (r.1.next_observation ≡ db.next_observation))

ensure_session-Ensured :
    (db : Db) (agent external_id project : String) (ts : ℤ)
    → Ensures
        (Ensured db (session_key agent external_id))
        (ensure_session db agent external_id project ts)
unfolding ensure_session
ensure_session-Ensured db agent external_id project ts =
    if_elim (Ensures (Ensured db (session_key agent external_id)))
      (exists_where (λ s. str_eq s.agent agent && str_eq s.external_id external_id) db.sessions)
      (ok (_, db)) _ (refl, (refl, refl))
      (if_elim (Ensures (Ensured db (session_key agent external_id))) _ (err _) (ok _) tt
        (refl, (refl, refl)))

is_duplicate-eq :
    (db db' : Db) (hash : String) (after : ℤ)
    → db'.observations ≡ db.observations
    → is_duplicate db' hash after ≡ is_duplicate db hash after
unfolding is_duplicate
is_duplicate-eq db db' hash after e =
    ap (exists_where (λ o. str_eq o.hash hash && lt_ℤ after o.ts)) e

-- An observation with the hash of the input, later than the start of the window.
abbrev pub is_recent : ObservationInput → ℕ → ObservationRow → Bool
is_recent input window o = str_eq o.hash input.hash && lt_ℤ (window_start input window) o.ts

-- The row of an input under the next id: of the session of its agent and external id, with the input's directory, time,
-- kind, tool and hash, and its payload as it is if that is shorter than 512 bytes, and otherwise compressed.
abbrev pub row_of : Zstd → Db → ObservationInput → ObservationRow
row_of z db input =
    let short = ltb (length input.payload_json) 512 in
    record {
      id = db.next_observation;
      session_id = session_key input.agent input.external_session_id;
      cwd = input.cwd;
      ts = input.ts;
      kind = input.kind;
      tool = input.tool;
      payload = if short then input.payload_json else z.encode_all input.payload_json;
      payload_len = length input.payload_json;
      payload_encoding = if short then "raw" else "zstd";
      schema_version = 1;
      hash = input.hash;
    }

-- What InsertObservation returns and leaves, for an input that is a duplicate or not.
abbrev pub Inserted : Zstd → Db → ObservationInput → Bool → Bool × Db → Type 0
Inserted z db input duplicate r =
    (r.0 ≡ not duplicate)
    × (r.1.observations
        ≡ (if duplicate then db.observations else db.observations ++ row_of z db input ∷ []))

new_observation-eq :
    (z : Zstd) (db db' : Db) (input : ObservationInput)
    → db'.next_observation ≡ db.next_observation
    → new_observation z db' input (session_key input.agent input.external_session_id)
      ≡ row_of z db input
unfolding new_observation encode_payload
new_observation-eq z db db' input e = elim (Bool-cases (ltb (length input.payload_json) 512)) [
  | inl m ↦ rw (m, e) refl
  | inr m ↦ rw (m, e) refl
]

appended :
    (z : Zstd) (db db' : Db) (input : ObservationInput) (id : String)
    → Ensured db (session_key input.agent input.external_session_id) (id, db')
    → (count_up (append_observation z db' input id) id).observations
      ≡ db.observations ++ row_of z db input ∷ []
unfolding count_up append_observation
appended z db db' input id e =
    let row = new_observation-eq z db db' input e.1.1 in rw (e.0, row, e.1.0) refl

-- InsertObservation, where it does not fail, says that it inserted exactly when no observation with the same hash is
-- later than the start of the window, and then it appends a row with the next id, the session of the agent and the
-- external id, and the fields of the input, whose payload is compressed from 512 bytes on; otherwise it leaves the
-- observations as they were.
pub insert_observation-Inserted :
    (z : Zstd) (db : Db) (input : ObservationInput) (window : ℕ)
    → Ensures
        (Inserted z db input (exists_where (is_recent input window) db.observations))
        (insert_observation z db input window)
unfolding insert_observation is_duplicate
insert_observation-Inserted z db input window =
    Ensures-bind (Ensured db (session_key input.agent input.external_session_id))
      (Inserted z db input d)
      (ensure_session db input.agent input.external_session_id input.cwd input.ts) _
      (ensure_session-Ensured db input.agent input.external_session_id input.cwd input.ts)
      λ r e.
        let same = is_duplicate-eq db r.1 input.hash (window_start input window) e.1.0 in
        if_split (Ensures (Inserted z db input d))
          (is_duplicate r.1 input.hash (window_start input window)) (ok (false, r.1)) _
          (λ k. rw (sym same ∙ k) (refl, e.1.0))
          λ k.
            if_split (Ensures (Inserted z db input d)) (has_session r.1 r.0) (ok (true, _))
              (err foreign_key) (λ _. rw (sym same ∙ k) (refl, appended z db r.1 input r.0 e))
              (λ _. tt)
  where
    d : Bool
    d = is_duplicate db input.hash (window_start input window)

-- A row is found by its hash in the windows that it lies in.
append-is_duplicate :
    (z : Zstd) (db db' : Db) (input : ObservationInput) (after : ℤ)
    → db'.observations ≡ db.observations ++ row_of z db input ∷ []
    → lt_ℤ after input.ts ≡ true
    → is_duplicate db' input.hash after ≡ true
unfolding is_duplicate
append-is_duplicate z db db' input after e h =
    ap (exists_where (λ o. str_eq o.hash input.hash && lt_ℤ after o.ts)) e
    ∙ exists_where-append (λ o. str_eq o.hash input.hash && lt_ℤ after o.ts) db.observations _
    ∙ ground (arith, eq_refl input.hash)

-- After an observation was inserted, another one with its hash, whose window starts before the
-- first, is not inserted and leaves the observations as they are, where no error stops it.
pub insert_observation-twice :
    (z : Zstd) (db db' : Db) (first second : ObservationInput) (window : ℕ)
    → insert_observation z db first window ≡ ok (true, db')
    → second.hash ≡ first.hash
    → lt_ℤ (window_start second window) first.ts ≡ true
    → Ensures
        (λ r. (r.0 ≡ false) × (r.1.observations ≡ db'.observations))
        (insert_observation z db' second window)
unfolding is_duplicate
insert_observation-twice z db db' first second window e same h =
    subst (λ b. Ensures (Inserted z db' second b) (insert_observation z db' second window)) there
      (insert_observation-Inserted z db' second window)
  where
    d : Bool
    d = is_duplicate db first.hash (window_start first window)

    inserted : Inserted z db first d (true, db')
    inserted =
        subst (Ensures (Inserted z db first d)) e (insert_observation-Inserted z db first window)

    there : is_duplicate db' second.hash (window_start second window) ≡ true
    there = rw (same) (
        append-is_duplicate z db db' first (window_start second window)
          (inserted.1 ∙ ground (arith, inserted.0)) h)
