-- ===== src/Store/Compaction.antt =====
-- internal/store/compaction.go: compaction attempts and decay.
use yet_another_memory_bank.Common.{
  ℕ, suc, String, Bool, false, ◌&&◌, ◌||◌, not, Option, none, some, List, [], ◌∷◌, ◌++◌, map,
  if◌then◌else◌, ◌==◌, ltb, str_eq, blank, take, rows_where, update_where, count_where, first_where,
  Outcome, ok, err, not_found, foreign_key,
}
use yet_another_memory_bank.Common.Int.{ℤ, pos, or_default, eq_ℤ, lt_ℤ, le_ℤ}
use yet_another_memory_bank.Common.Sort.{slice_stable}
use yet_another_memory_bank.Store.Observations.{has_session}
use yet_another_memory_bank.Store.Rows.{SessionRow, Db, ObservationRow, AttemptRow}
use yet_another_memory_bank.Store.Sessions.{
  Session, scan_session, text_or_empty, int_or_zero, later_session,
}

unfoldable pub append_attempt : Db → String → String → String → ℤ → Db
append_attempt db session_id status reason attempted_at = record db {
  attempts =
      db.attempts
      ++ record {
        id = db.next_attempt;
        session_id = session_id;
        status = status;
        reason = reason;
        attempted_at = attempted_at;
        completed_at = none;
      }
        ∷ [];
  next_attempt = suc db.next_attempt;
}

-- The session has to be there: the column references sessions(id).
unfoldable pub insert_compaction_attempt : Db → String → String → String → ℤ → Outcome Db
insert_compaction_attempt db session_id status reason attempted_at =
    if has_session db session_id
    then ok (append_attempt db session_id status reason attempted_at)
    else err foreign_key

-- session_id = ? AND status = 'requested'
abbrev pub is_requested : String → AttemptRow → Bool
is_requested session_id a = str_eq a.session_id session_id && str_eq a.status "requested"

unfoldable pub expire_compaction_attempts : Db → String → ℤ → Db
expire_compaction_attempts db session_id before = record db {
  attempts =
      update_where (λ a. is_requested session_id a && lt_ℤ a.attempted_at before)
        (λ a. record a { status = "failed"; reason = "ttl expired" }) db.attempts;
}

unfoldable pub fresh_requested_compaction_attempts : Db → String → ℤ → ℕ
fresh_requested_compaction_attempts db session_id since =
    count_where (λ a. is_requested session_id a && le_ℤ since a.attempted_at) db.attempts

-- ORDER BY attempted_at DESC, id DESC
abbrev pub later_attempt : AttemptRow → AttemptRow → Bool
later_attempt a b =
    if eq_ℤ a.attempted_at b.attempted_at then ltb b.id a.id else lt_ℤ b.attempted_at a.attempted_at

unfoldable pub complete_first : Db → List AttemptRow → ℤ → Db
complete_first db [] completed_at = db
complete_first db (latest ∷ _) completed_at = record db {
  attempts =
      update_where (λ a. a.id == latest.id)
        (λ a. record a { status = "completed"; completed_at = some completed_at }) db.attempts;
}

unfoldable pub mark_compaction_completed : Db → String → ℤ → Db
unfolding complete_first
mark_compaction_completed db session_id completed_at =
    complete_first db
      (slice_stable later_attempt (rows_where (λ a. is_requested session_id a) db.attempts))
      completed_at

-- SELECT COUNT(*) FROM memories WHERE session_id = ? AND created_at >= ?
unfoldable pub compacted_memories : Db → String → ℤ → ℕ
compacted_memories db session_id since =
    count_where
      (λ m. elim m.session_id [
        | none ↦ false
        | some s ↦ str_eq s session_id && le_ℤ since m.created_at
      ])
      db.memories

-- for the row of the session, if there is one
unfoldable pub row_needs_compaction : Db → String → ℤ → Option SessionRow → Outcome Bool
unfolding compacted_memories
row_needs_compaction db session_id min_observations none = err not_found
row_needs_compaction db session_id min_observations (some s) = ok (
    if lt_ℤ (pos s.n_obs) min_observations || not (blank (text_or_empty s.summary))
    then false
    else compacted_memories db session_id s.started_at == 0)

unfoldable pub session_needs_compaction : Db → String → ℤ → Outcome Bool
unfolding row_needs_compaction
session_needs_compaction db session_id min_observations =
    row_needs_compaction db session_id min_observations
      (first_where (λ s. str_eq s.id session_id) db.sessions)

-- A row added to the groups of a GROUP BY cwd, with MIN(ts) and MIN(id).
unfoldable pub group_cwd : ObservationRow → List (String × ℤ × ℕ) → List (String × ℤ × ℕ)
group_cwd o [] = (o.cwd, o.ts, o.id) ∷ []
group_cwd o ((cwd, ts, id) ∷ rest) =
    if str_eq cwd o.cwd
    then (cwd, (if lt_ℤ o.ts ts then o.ts else ts), (if ltb o.id id then o.id else id)) ∷ rest
    else (cwd, ts, id) ∷ group_cwd o rest

unfoldable pub cwd_groups : List ObservationRow → List (String × ℤ × ℕ)
unfolding group_cwd
cwd_groups [] = []
cwd_groups (o ∷ os) = group_cwd o (cwd_groups os)

unfoldable pub session_cwds : Db → String → ℤ → List String
session_cwds db session_id limit =
    map (λ g. g.0)
      (take (or_default limit 10) (
        slice_stable (λ a b. if eq_ℤ a.1 b.1 then ltb a.2 b.2 else lt_ℤ a.1 b.1)
          (cwd_groups (rows_where (λ o. str_eq o.session_id session_id) db.observations))))

-- ended_at IS NOT NULL AND ended_at >= ?
abbrev pub ended_since : ℤ → Option ℤ → Bool
ended_since since none = false
ended_since since (some t) = le_ℤ since t

unfoldable pub compactable_sessions : Db → ℤ → ℤ → ℤ → List Session
unfolding compacted_memories
compactable_sessions db min_observations since limit = map scan_session (
    take (or_default limit 50) (
      slice_stable (later_session (λ s. int_or_zero s.ended_at)) (
        rows_where
          (λ s.
            le_ℤ min_observations (pos s.n_obs)
            && ended_since since s.ended_at
            && blank (text_or_empty s.summary)
            && (compacted_memories db s.id s.started_at == 0))
          db.sessions)))
