-- ===== src/Store/Observations/Counts.antt =====
-- Sessions count their observations, and observations are of sessions.
use yet_another_memory_bank.Common.{
  ℕ, ◌+◌, ◌*◌, ◌≡◌, refl, sym, ap, ◌∙◌, inl, inr, String, Bool, true, false, ◌&&◌, List, [], ◌∷◌,
  ◌++◌, arith, if◌then◌else◌, if_split, str_eq, eq_iff, eq_refl, Bool-cases, All, All-append,
  All-imp, update_where, exists_where, count_where, count_where-append, exists_where-append,
  exists_where-update, All-update_where, Outcome, ok, err, Ensures, Ensures-bind, is_ok,
  is_ok-bind_eq, if_elim, foreign_key,
}
use yet_another_memory_bank.Common.Int.{ℤ, pos, ◌-ℤ◌}
use yet_another_memory_bank.Common.Texts.{str_eq_comm}
use yet_another_memory_bank.Store.Rows.{Db, SessionRow, ObservationRow}
use yet_another_memory_bank.Store.Sessions.{session_key, new_session, ensure_session}
use yet_another_memory_bank.Store.Observations.{
  Zstd, ObservationInput, has_session, is_duplicate, new_observation, append_observation, count_up,
  insert_observation,
}

abbrev pub IsSession : List SessionRow → String → Type 0
IsSession sessions id = exists_where (λ s. str_eq s.id id) sessions ≡ true

abbrev pub count_for : List ObservationRow → String → ℕ
count_for os id = count_where (λ o. str_eq o.session_id id) os

pub record SessionsOk (db : Db) : Type 0 where
  -- the id of a session is made of its agent and external id
  pub keyed : All (λ s. s.id ≡ session_key s.agent s.external_id) db.sessions
  -- `n_obs` is the number of the session's observations
  pub counted : All (λ s. s.n_obs ≡ count_for db.observations s.id) db.sessions
  -- an observation is of a session
  pub referring : All (λ o. IsSession db.sessions o.session_id) db.observations

-- There are no observations of what is no session.
uncounted :
    (ss : List SessionRow) (os : List ObservationRow) (id : String)
    → exists_where (λ s. str_eq s.id id) ss ≡ false
    → All (λ o. IsSession ss o.session_id) os
    → count_for os id ≡ 0
uncounted ss [] id h r = refl
uncounted ss (o ∷ os) id h r = elim (Bool-cases (str_eq o.session_id id)) [
  | inl e ↦
      let same : o.session_id ≡ id = (eq_iff o.session_id id).0 e in
      let there : exists_where (λ s. str_eq s.id id) ss ≡ true =
        ap (λ (k : String). exists_where (λ s. str_eq s.id k) ss) (sym same) ∙ r.0 in
      cc
  | inr e ↦ rw e (uncounted ss os id h r.1)
]

-- A session with the agent and external id is found by its id.
found_by_key :
    (agent external_id : String) (ss : List SessionRow)
    → All (λ s. s.id ≡ session_key s.agent s.external_id) ss
    → exists_where (λ s. str_eq s.agent agent && str_eq s.external_id external_id) ss ≡ true
    → IsSession ss (session_key agent external_id)
found_by_key agent external_id [] k h = h
found_by_key agent external_id (s ∷ ss) k h =
    elim (Bool-cases (str_eq s.agent agent && str_eq s.external_id external_id)) [
      | inl e ↦
          let a : s.agent ≡ agent = (eq_iff s.agent agent).0 (ground arith) in
          let b : s.external_id ≡ external_id =
            (eq_iff s.external_id external_id).0 (ground arith) in
          rw (k.0, a, b, eq_refl (session_key agent external_id)) refl
      | inr e ↦
          let rest = found_by_key agent external_id ss k.1 (ground arith) in ground (arith, rest)
    ]

append_session-SessionsOk :
    (db : Db) (agent external_id project : String) (ts : ℤ)
    → exists_where (λ s. str_eq s.id (session_key agent external_id)) db.sessions ≡ false
    → SessionsOk db
    → SessionsOk
        (record db { sessions = db.sessions ++ new_session agent external_id project ts ∷ [] })
append_session-SessionsOk db agent external_id project ts h v = record {
  keyed = All-append _ db.sessions _ v.keyed (refl, tt);
  counted =
      All-append _ db.sessions _ v.counted
        (sym (uncounted db.sessions db.observations _ h v.referring), tt);
  referring =
      All-imp _ _
        (λ o k. exists_where-append (λ s. str_eq s.id o.session_id) db.sessions _ ∙ rw k refl)
        db.observations v.referring;
}

-- `EnsureSession` keeps it, and the id that it returns is a session's.
pub ensure_session-SessionsOk :
    (db : Db) (agent external_id project : String) (ts : ℤ)
    → SessionsOk db
    → Ensures
        (λ r. SessionsOk r.1 × IsSession r.1.sessions r.0)
        (ensure_session db agent external_id project ts)
unfolding ensure_session
ensure_session-SessionsOk db agent external_id project ts v =
    if_split (Ensures (λ r. SessionsOk r.1 × IsSession r.1.sessions r.0))
      (exists_where (λ s. str_eq s.agent agent && str_eq s.external_id external_id) db.sessions)
      (ok (key, db)) _ (λ h. (v, found_by_key agent external_id db.sessions v.keyed h))
      λ _.
        if_split (Ensures (λ r. SessionsOk r.1 × IsSession r.1.sessions r.0))
          (exists_where (λ s. str_eq s.id key) db.sessions) (err _) (ok _) (λ _. tt)
          λ h. (
            append_session-SessionsOk db agent external_id project ts h v,
            exists_where-append (λ s. str_eq s.id key) db.sessions _ ∙ ground (arith, eq_refl key),
          )
  where
    key : String
    key = session_key agent external_id

count_for-append :
    (os : List ObservationRow) (o : ObservationRow) (id : String)
    → count_for (os ++ o ∷ []) id ≡ count_for os id + (if str_eq id o.session_id then 1 else 0)
count_for-append os o id =
    count_where-append (λ x. str_eq x.session_id id) os (o ∷ [])
    ∙ ground (arith, str_eq_comm o.session_id id)

-- One observation more, and one more counted.
count_up-counted :
    (os : List ObservationRow) (o : ObservationRow) (ss : List SessionRow)
    → All (λ s. s.n_obs ≡ count_for os s.id) ss
    → All
        (λ s. s.n_obs ≡ count_for (os ++ o ∷ []) s.id)
        (update_where (λ s. str_eq s.id o.session_id) (λ s. record s { n_obs = s.n_obs + 1 }) ss)
count_up-counted os o [] h = tt
count_up-counted os o (s ∷ ss) h = (
  if_split (λ r. r.n_obs ≡ count_for (os ++ o ∷ []) r.id) (str_eq s.id o.session_id)
      (record s { n_obs = s.n_obs + 1 }) s (λ e. ground (arith, h.0, count_for-append os o s.id))
      (λ e. ground (arith, h.0, count_for-append os o s.id)),
  count_up-counted os o ss h.1,
)

insert_row-SessionsOk :
    (z : Zstd) (db : Db) (input : ObservationInput) (id : String)
    → IsSession db.sessions id
    → SessionsOk db
    → SessionsOk (count_up (append_observation z db input id) id)
unfolding count_up append_observation new_observation
insert_row-SessionsOk z db input id h v = record {
  keyed = All-update_where _ _ _ (λ s e. e) db.sessions v.keyed;
  counted = count_up-counted db.observations (new_observation z db input id) db.sessions v.counted;
  referring =
      All-append _ db.observations _
        (All-imp _ _ (λ o k. exists_where-update _ _ _ (λ s. refl) db.sessions ∙ k) db.observations
          v.referring)
        (exists_where-update _ _ _ (λ s. refl) db.sessions ∙ h, tt);
}

-- `InsertObservation`, where it does not fail, keeps the invariant of the sessions: ids are made of
-- agent and external id, `n_obs` is the number of observations, every observation is of a session.
pub insert_observation-SessionsOk :
    (z : Zstd) (db : Db) (input : ObservationInput) (window : ℕ)
    → SessionsOk db
    → Ensures (λ r. SessionsOk r.1) (insert_observation z db input window)
unfolding insert_observation
insert_observation-SessionsOk z db input window v =
    Ensures-bind (λ r. SessionsOk r.1 × IsSession r.1.sessions r.0) (λ r. SessionsOk r.1)
      (ensure_session db input.agent input.external_session_id input.cwd input.ts) _
      (ensure_session-SessionsOk db input.agent input.external_session_id input.cwd input.ts v)
      λ r w.
        if_split (Ensures (λ (q : Bool × Db). SessionsOk q.1))
          (is_duplicate r.1 input.hash (input.ts -ℤ pos (window * 1000))) (ok (false, r.1)) _
          (λ _. w.0)
          λ _.
            if_split (Ensures (λ (q : Bool × Db). SessionsOk q.1)) (has_session r.1 r.0)
              (ok (true, _)) (err _) (λ _. insert_row-SessionsOk z r.1 input r.0 w.1 w.0) (λ _. tt)

-- Where the sessions satisfy their invariant, `InsertObservation` fails exactly where `EnsureSession` does: the row that it inserts violates no
-- constraint.
pub insert_observation-is_ok :
    (z : Zstd) (db : Db) (input : ObservationInput) (window : ℕ)
    → SessionsOk db
    → is_ok (insert_observation z db input window)
      ≡ is_ok (ensure_session db input.agent input.external_session_id input.cwd input.ts)
unfolding insert_observation
insert_observation-is_ok z db input window v =
    is_ok-bind_eq (λ r. SessionsOk r.1 × IsSession r.1.sessions r.0)
      (ensure_session db input.agent input.external_session_id input.cwd input.ts) _
      (ensure_session-SessionsOk db input.agent input.external_session_id input.cwd input.ts v)
      λ r w.
        if_elim (λ (m : Outcome (Bool × Db)). is_ok m ≡ true)
          (is_duplicate r.1 input.hash (input.ts -ℤ pos (window * 1000))) (ok (false, r.1)) _ refl
          (if_split (λ (m : Outcome (Bool × Db)). is_ok m ≡ true) (has_session r.1 r.0)
            (ok (true, _)) (err foreign_key) (λ _. refl) (λ n. cc (n, w.1)))
