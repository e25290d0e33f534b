-- ===== src/Store/Observations/Frame.antt =====
-- The tables that the capture of an observation touches.
use yet_another_memory_bank.Common.{
  ℕ, ◌*◌, ◌≡◌, refl, ap, String, Bool, true, false, ◌&&◌, if_elim, str_eq, exists_where, ok, err,
  Ensures, Ensures-bind, foreign_key,
}
use yet_another_memory_bank.Common.Int.{ℤ, pos, ◌-ℤ◌}
use yet_another_memory_bank.Store.Observations.{
  Zstd, ObservationInput, has_session, is_duplicate, count_up, append_observation,
  insert_observation,
}
use yet_another_memory_bank.Store.Rows.{Db}
use yet_another_memory_bank.Store.Sessions.{ensure_session}

-- The two databases agree but in their sessions and observations.
abbrev pub OnlyCaptured : Db → Db → Type 0
OnlyCaptured db db' = db' ≡ record db {
  sessions = db'.sessions;
  observations = db'.observations;
  next_observation = db'.next_observation;
}

-- They agree but in their sessions.
abbrev pub OnlySessions : Db → Db → Type 0
OnlySessions db db' = db' ≡ record db { sessions = db'.sessions }

pub ensure_session-OnlySessions :
    (db : Db) (agent external_id project : String) (ts : ℤ)
    → Ensures (λ r. OnlySessions db r.1) (ensure_session db agent external_id project ts)
unfolding ensure_session
ensure_session-OnlySessions db agent external_id project ts =
    if_elim (Ensures (λ (r : String × Db). OnlySessions db r.1))
      (exists_where (λ s. str_eq s.agent agent && str_eq s.external_id external_id) db.sessions)
      (ok (_, db)) _ refl
      (if_elim (Ensures (λ (r : String × Db). OnlySessions db r.1)) _ (err _) (ok _) tt refl)

captured_by :
    (db db' : Db) (z : Zstd) (input : ObservationInput) (id : String)
    → OnlySessions db db'
    → OnlyCaptured db (count_up (append_observation z db' input id) id)
unfolding count_up append_observation
captured_by db db' z input id e =
    ap {A = Db}
      (λ d. record d {
        sessions = (count_up (append_observation z db' input id) id).sessions;
        observations = (append_observation z db' input id).observations;
        next_observation = (append_observation z db' input id).next_observation;
      })
      e

pub insert_observation-OnlyCaptured :
    (z : Zstd) (db : Db) (input : ObservationInput) (window : ℕ)
    → Ensures (λ r. OnlyCaptured db r.1) (insert_observation z db input window)
unfolding insert_observation
insert_observation-OnlyCaptured z db input window =
    Ensures-bind (λ r. OnlySessions db r.1) (λ r. OnlyCaptured db r.1)
      (ensure_session db input.agent input.external_session_id input.cwd input.ts) _
      (ensure_session-OnlySessions db input.agent input.external_session_id input.cwd input.ts)
      λ r e.
        if_elim (Ensures (λ (q : Bool × Db). OnlyCaptured db q.1))
          (is_duplicate r.1 input.hash (input.ts -ℤ pos (window * 1000))) (ok (false, r.1)) _
          (ap {A = Db}
            (λ d. record d {
              observations = r.1.observations;
              next_observation = r.1.next_observation;
            })
            e)
          (if_elim (Ensures (λ (q : Bool × Db). OnlyCaptured db q.1)) (has_session r.1 r.0)
            (ok (true, _)) (err foreign_key) (captured_by db r.1 z input r.0 e) tt)
