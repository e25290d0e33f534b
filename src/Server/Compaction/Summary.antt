-- ===== src/Server/Compaction/Summary.antt =====
-- A session with a summary is not compacted again.
use yet_another_memory_bank.Common.{
  ◌≡◌, refl, ap, ◌∙◌, inl, inr, String, Bool, false, Option, none, some, List, [], ◌∷◌, arith,
  str_eq, blank, Bool-cases, first_where, update_where,
}
use yet_another_memory_bank.Common.Int.{ℤ}
use yet_another_memory_bank.Store.Rows.{Db, SessionRow}
use yet_another_memory_bank.Store.Sessions.{coalesce, end_session, save_session_summary}
use yet_another_memory_bank.Store.Compaction.{row_needs_compaction, session_needs_compaction}
use yet_another_memory_bank.Server.Compaction.{CompactionOptions, request_compaction}
use yet_another_memory_bank.Server.Compaction.Decision.{
  is_prompt, holds, request_compaction-is_prompt,
}

abbrev changed {ℓ} : {A : Type ℓ} → (A → A) → Option A → Option A
changed f none = none
changed f (some a) = some (f a)

first_where-update {ℓ} :
    {A : Type ℓ} (p : A → Bool) (f : A → A)
    → ((a : A) → p (f a) ≡ p a)
    → (xs : List A) → first_where p (update_where p f xs) ≡ changed f (first_where p xs)
first_where-update p f e [] = refl
first_where-update p f e (x ∷ xs) = elim (Bool-cases (p x)) [
  | inl h ↦ rw (h, e x) (rw h refl)
  | inr h ↦ rw (h) (rw h (first_where-update p f e xs))
]

-- the session as the summary leaves it, and as its end does
abbrev summarised : String → ℤ → SessionRow → SessionRow
summarised summary at s = record s {
  summary = some summary;
  ended_at = some (coalesce s.ended_at at);
}

abbrev ended : ℤ → SessionRow → SessionRow
ended now s = record s { ended_at = some now }

summarised-found :
    (db : Db) (id summary : String) (at now : ℤ)
    → first_where
        (λ s. str_eq s.id id)
        (end_session (save_session_summary db id summary at) id now).sessions
      ≡ changed
          (ended now)
          (changed (summarised summary at) (first_where (λ s. str_eq s.id id) db.sessions))
unfolding end_session save_session_summary
summarised-found db id summary at now =
    first_where-update (λ s. str_eq s.id id) (ended now) (λ s. refl) _
    ∙ ap (changed (ended now))
        (first_where-update (λ s. str_eq s.id id) (summarised summary at) (λ s. refl) db.sessions)

row-needs :
    (db : Db) (id summary : String) (at now min : ℤ) (o : Option SessionRow)
    → blank summary ≡ false
    → holds
        (row_needs_compaction db id min (changed (ended now) (changed (summarised summary at) o)))
      ≡ false
unfolding row_needs_compaction
row-needs db id summary at now min none h = refl
row-needs db id summary at now min (some s) h = ground (arith, h)

summarised-needs :
    (db : Db) (id summary : String) (at now min : ℤ)
    → blank summary ≡ false
    → holds (
        session_needs_compaction
          (end_session (save_session_summary db id summary at) id now)
          id
          min)
      ≡ false
unfolding session_needs_compaction
summarised-needs db id summary at now min h =
    ap
      (λ o. holds (
        row_needs_compaction (end_session (save_session_summary db id summary at) id now) id min o))
      (summarised-found db id summary at now)
    ∙ row-needs (end_session (save_session_summary db id summary at) id now) id summary at now min
        (first_where (λ s. str_eq s.id id) db.sessions) h

-- After a summary that is not empty was saved for a session, no request for its compaction returns
-- a prompt, whatever its options and attempts.
pub request_compaction-save_session_summary :
    (db : Db) (id summary project agent : String) (stop : Bool) (cfg : CompactionOptions)
    (at now : ℤ)
    → blank summary ≡ false
    → is_prompt
        (request_compaction (save_session_summary db id summary at) id project agent stop cfg now).0
      ≡ false
request_compaction-save_session_summary db id summary project agent stop cfg at now h =
    rw
      (
        request_compaction-is_prompt (save_session_summary db id summary at) id project agent stop
            cfg now,
        summarised-needs db id summary at now cfg.min_observations h,
      )
      (ground arith)
