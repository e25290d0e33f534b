-- ===== src/Store/Sessions.antt =====
-- internal/store/sessions.go: sessions and their summaries.
use Prim.Native.String.{compare as compare_text, ◌++◌ as append_text}
use Prim.Native.Nat.{Ordering}
use yet_another_memory_bank.Common.{
  ℕ, String, Bool, ◌&&◌, not, Option, none, some, List, [], ◌∷◌, ◌++◌, map, if◌then◌else◌, str_eq,
  blank, take, rows_where, update_where, exists_where, first_where, Outcome, ok, err, unique_key,
  not_found,
}
use yet_another_memory_bank.Common.Int.{ℤ, pos, or_default, clamp_limit, eq_ℤ, lt_ℤ}
use yet_another_memory_bank.Common.Sort.{slice_stable}
use yet_another_memory_bank.Store.Rows.{Db, SessionRow}

-- `Session`: NULL columns are read as 0 and "".
pub record Session : Type 0 where
  pub id : String
  pub agent : String
  pub external_id : String
  pub project : String
  pub started_at : ℤ
  pub ended_at : ℤ
  pub summary : String
  pub n_obs : ℕ

abbrev pub int_or_zero : Option ℤ → ℤ
int_or_zero none = pos 0
int_or_zero (some n) = n

abbrev pub text_or_empty : Option String → String
text_or_empty none = ""
text_or_empty (some s) = s

abbrev pub scan_session : SessionRow → Session
scan_session r = record {
  id = r.id;
  agent = r.agent;
  external_id = r.external_id;
  project = r.project;
  started_at = r.started_at;
  ended_at = int_or_zero r.ended_at;
  summary = text_or_empty r.summary;
  n_obs = r.n_obs;
}

-- agent + ":" + externalID
abbrev pub session_key : String → String → String
session_key agent external_id = append_text agent (append_text ":" external_id)

abbrev pub new_session : String → String → String → ℤ → SessionRow
new_session agent external_id project ts = record {
  id = session_key agent external_id;
  agent = agent;
  external_id = external_id;
  project = project;
  started_at = ts;
  ended_at = none;
  summary = none;
  n_obs = 0;
}

-- A row with the agent and external id stays as it is; another row with the same id violates the
-- primary key.
unfoldable pub ensure_session : Db → String → String → String → ℤ → Outcome (String × Db)
ensure_session db agent external_id project ts =
    if exists_where (λ s. str_eq s.agent agent && str_eq s.external_id external_id) db.sessions
    then ok (session_key agent external_id, db)
    else if exists_where (λ s. str_eq s.id (session_key agent external_id)) db.sessions
    then err unique_key
    else ok (
      session_key agent external_id,
      record db { sessions = db.sessions ++ new_session agent external_id project ts ∷ [] },
    )

unfoldable pub session : Db → String → Outcome Session
session db id = elim (first_where (λ s. str_eq s.id id) db.sessions) [
  | none ↦ err not_found
  | some r ↦ ok (scan_session r)
]

unfoldable pub end_session : Db → String → ℤ → Db
end_session db id ended_at = record db {
  sessions =
      update_where (λ s. str_eq s.id id) (λ s. record s { ended_at = some ended_at }) db.sessions;
}

-- COALESCE(column, value)
abbrev pub coalesce {ℓ} : {A : Type ℓ} → Option A → A → A
coalesce none a = a
coalesce (some b) a = b

unfoldable pub save_session_summary : Db → String → String → ℤ → Db
save_session_summary db id summary ended_at = record db {
  sessions =
      update_where (λ s. str_eq s.id id)
        (λ s. record s { summary = some summary; ended_at = some (coalesce s.ended_at ended_at) })
        db.sessions;
}

-- s < t in the binary collation
abbrev pub text_lt : String → String → Bool
text_lt s t = elim (compare_text s t) [ Ordering.lt ↦ Bool.true | _ ↦ Bool.false ]

-- ORDER BY time DESC, id DESC
abbrev pub later_session : (SessionRow → ℤ) → SessionRow → SessionRow → Bool
later_session time a b =
    if eq_ℤ (time a) (time b) then text_lt b.id a.id else lt_ℤ (time b) (time a)

unfoldable pub recent_session_summaries : Db → String → ℤ → List Session
recent_session_summaries db project limit = map scan_session (
    take (or_default limit 3) (
      slice_stable (later_session (λ s. coalesce s.ended_at s.started_at)) (
        rows_where (λ s. str_eq s.project project && not (blank (text_or_empty s.summary)))
          db.sessions)))

unfoldable pub list_sessions : Db → String → ℤ → List Session
list_sessions db project limit = map scan_session (
    take (clamp_limit limit 10 100) (
      slice_stable (later_session (λ s. s.started_at)) (
        if blank project
        then db.sessions
        else rows_where (λ s. str_eq s.project project) db.sessions)))
