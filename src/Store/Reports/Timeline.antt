-- ===== src/Store/Reports/Timeline.antt =====
-- `Timeline`, `Export` and `VerifyMemory` of internal/store/phase2_helpers.go.
use yet_another_memory_bank.Common.{
  ◌>>=◌, ℕ, String, Bool, ◌&&◌, ◌||◌, List, [], ◌++◌, map, if◌then◌else◌, ltb, str_eq, blank, take,
  rows_where, Outcome, ok,
}
use yet_another_memory_bank.Common.Int.{ℤ, pos, clamp_limit, eq_ℤ, lt_ℤ}
use yet_another_memory_bank.Common.Sort.{slice_stable}
use yet_another_memory_bank.Store.Rows.{Db, MemoryRow, ObservationRow}
use yet_another_memory_bank.Store.Sessions.{Session, list_sessions, text_or_empty}
use yet_another_memory_bank.Store.Observations.{
  Zstd, Observation, scan_observations, later_observation, list_session_observations,
}
use yet_another_memory_bank.Store.Memories.{Memory, memory, scan_memory, later_memory}
use yet_another_memory_bank.Store.Audit.{AuditEvent, audit_events}

pub record TimelineItem : Type 0 where
  pub type : String
  pub id : ℕ
  pub project : String
  pub session_id : String
  pub ts : ℤ
  pub kind : String
  pub tool : String
  pub text : String
  pub payload_json : List ℕ

abbrev pub observation_item : Observation → TimelineItem
observation_item o = record {
  type = "observation";
  id = o.id;
  project = o.cwd;
  session_id = o.session_id;
  ts = o.ts;
  kind = o.kind;
  tool = o.tool;
  text = "";
  payload_json = o.payload_json;
}

abbrev pub memory_item : Memory → TimelineItem
memory_item m = record {
  type = "memory";
  id = m.id;
  project = m.project;
  session_id = m.session_id;
  ts = m.created_at;
  kind = m.tier;
  tool = "";
  text = m.text;
  payload_json = [];
}

-- the comparison of `sort.Slice`
abbrev pub item_before : TimelineItem → TimelineItem → Bool
item_before a b = if eq_ℤ a.ts b.ts then ltb a.id b.id else lt_ℤ a.ts b.ts

-- A filter on an empty text is left out.
abbrev pub either : String → String → Bool
either filter value = blank filter || str_eq value filter

abbrev pub observation_rows : Db → String → String → List ObservationRow
observation_rows db project session_id =
    rows_where (λ o. either project o.cwd && either session_id o.session_id) db.observations

abbrev pub memory_rows : Db → String → String → List MemoryRow
memory_rows db project session_id =
    rows_where (λ m. either project m.project && either session_id (text_or_empty m.session_id))
      db.memories

-- The newest rows of each kind are read, and the oldest of them kept. `sort.Slice` may leave items
-- that compare equal in another order, for which `unstable` stands.
unfoldable pub timeline :
    Zstd
    → (List TimelineItem → List TimelineItem)
    → Db
    → String
    → String
    → ℤ
    → Outcome (List TimelineItem)
timeline z unstable db project session_id limit =
    let n = clamp_limit limit 50 500 in
    do
      observations ←
          scan_observations z
            (take n (slice_stable later_observation (observation_rows db project session_id)))
      let memories =
          map scan_memory (take n (slice_stable later_memory (memory_rows db project session_id)))
      ok (
          take n (
            slice_stable item_before
              (unstable (map observation_item observations ++ map memory_item memories))))

pub record ExportData : Type 0 where
  pub memories : List Memory
  pub sessions : List Session
  pub observations : List Observation

unfoldable pub export : Zstd → Db → String → ℤ → Outcome ExportData
export z db project limit =
    let n = clamp_limit limit 100 1000 in
    do
      observations ← scan_observations z (
          take n (
            slice_stable later_observation
              (rows_where (λ o. str_eq o.cwd project) db.observations)))
      ok (record {
        memories = map scan_memory (
            take n
              (slice_stable later_memory (rows_where (λ m. str_eq m.project project) db.memories)));
        sessions = list_sessions db project (pos n);
        observations = observations;
      })

pub record VerifiedMemory : Type 0 where
  pub memory : Memory
  pub observations : List Observation
  pub audit : List AuditEvent

unfoldable pub verify_memory : Zstd → Db → ℕ → Outcome VerifiedMemory
verify_memory z db id = do
  m ← memory db id
  observations ←
      if blank m.session_id then ok [] else list_session_observations z db m.session_id (pos 100)
  ok (record { memory = m; observations = observations; audit = audit_events db id (pos 100) })
