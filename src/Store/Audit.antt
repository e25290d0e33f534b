-- ===== src/Store/Audit.antt =====
-- The audit trail of internal/store/phase2_helpers.go: `insertAuditTx` and `AuditEvents`.
use yet_another_memory_bank.Common.{
  ℕ, suc, String, Bool, Option, none, some, List, [], ◌∷◌, ◌++◌, map, if◌then◌else◌, ◌==◌, ltb,
  blank, take, rows_where,
}
use yet_another_memory_bank.Common.Int.{ℤ, clamp_limit, eq_ℤ, lt_ℤ}
use yet_another_memory_bank.Common.Sort.{slice_stable}
use yet_another_memory_bank.Store.Rows.{Db, AuditRow, AuditPayload}
use yet_another_memory_bank.Store.Sessions.{text_or_empty}

pub record AuditEvent : Type 0 where
  pub id : ℕ
  pub ts : ℤ
  pub action : String
  pub memory_id : ℕ
  pub session_id : String
  pub project : String
  pub payload : AuditPayload

-- NULLIF(?, 0) and NULLIF(?, '')
abbrev pub null_if_zero : ℕ → Option ℕ
null_if_zero n = if n == 0 then none else some n

abbrev pub null_if_empty : String → Option String
null_if_empty s = if blank s then none else some s

abbrev pub number_or_zero : Option ℕ → ℕ
number_or_zero none = 0
number_or_zero (some n) = n

-- The fields of the event but its id, which the table gives.
unfoldable pub insert_audit : Db → ℤ → String → ℕ → String → String → AuditPayload → Db
insert_audit db ts action memory_id session_id project payload = record db {
  audit =
      db.audit
      ++ record {
        id = db.next_audit;
        ts = ts;
        action = action;
        memory_id = null_if_zero memory_id;
        session_id = null_if_empty session_id;
        project = null_if_empty project;
        payload = payload;
      }
        ∷ [];
  next_audit = suc db.next_audit;
}

abbrev pub scan_audit : AuditRow → AuditEvent
scan_audit r = record {
  id = r.id;
  ts = r.ts;
  action = r.action;
  memory_id = number_or_zero r.memory_id;
  session_id = text_or_empty r.session_id;
  project = text_or_empty r.project;
  payload = r.payload;
}

-- ORDER BY ts DESC, id DESC
abbrev pub later_audit : AuditRow → AuditRow → Bool
later_audit a b = if eq_ℤ a.ts b.ts then ltb b.id a.id else lt_ℤ b.ts a.ts

-- The filter on a memory applies to a positive id.
unfoldable pub audit_events : Db → ℕ → ℤ → List AuditEvent
audit_events db memory_id limit = map scan_audit (
    take (clamp_limit limit 50 500) (
      slice_stable later_audit (
        if memory_id == 0
        then db.audit
        else rows_where (λ r. number_or_zero r.memory_id == memory_id) db.audit)))
