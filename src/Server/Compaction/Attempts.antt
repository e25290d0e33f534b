-- ===== src/Server/Compaction/Attempts.antt =====
-- How many compaction attempts a session can have open at once.
use yet_another_memory_bank.Common.{
  ℕ, suc, ◌+◌, ◌*◌, ◌≡◌, refl, ◌∙◌, inl, inr, String, Bool, true, false, ◌&&◌, ◌||◌, Option, none,
  some, List, [], ◌∷◌, arith, if◌then◌else◌, str_eq, eq_iff, eq_refl, if_elim, Bool-cases,
  update_where, count_where, count_where-append, Outcome, ok, err,
}
use yet_another_memory_bank.Common.Int.{ℤ, pos, le_ℤ, lt_ℤ, -ℤ_parts, or_default}
use mathlib.Core.Path.{subst}
use yet_another_memory_bank.Store.Rows.{Db, AttemptRow}
use yet_another_memory_bank.Store.Sessions.{end_session}
use yet_another_memory_bank.Store.Compaction.{
  append_attempt, insert_compaction_attempt, is_requested, expire_compaction_attempts,
  fresh_requested_compaction_attempts, session_needs_compaction,
}
use yet_another_memory_bank.Store.Observations.{has_session}
use yet_another_memory_bank.Server.Compaction.{
  CompactionOptions, Handled, Prompt, normalize_compaction, cutoff_at, attempt, consider,
  request_compaction,
}

-- Expiry does not touch the attempts that count as fresh.
count-expire :
    (s : String) (c : ℤ) (rows : List AttemptRow)
    → count_where
        (λ a. is_requested s a && le_ℤ c a.attempted_at)
        (update_where
          (λ a. is_requested s a && lt_ℤ a.attempted_at c)
          (λ a. record a { status = "failed"; reason = "ttl expired" })
          rows)
      ≡ count_where (λ a. is_requested s a && le_ℤ c a.attempted_at) rows
count-expire s c [] = refl
count-expire s c (a ∷ rows) = ground (arith, count-expire s c rows, eq_iff "failed" "requested")

pub fresh-expire :
    (db : Db) (s : String) (c : ℤ)
    → fresh_requested_compaction_attempts (expire_compaction_attempts db s c) s c
      ≡ fresh_requested_compaction_attempts db s c
unfolding fresh_requested_compaction_attempts expire_compaction_attempts
fresh-expire db s c = count-expire s c db.attempts

-- One row more, which counts if it is requested.
pub fresh-append :
    (db : Db) (s status reason : String) (now c : ℤ)
    → le_ℤ c now ≡ true
    → fresh_requested_compaction_attempts (append_attempt db s status reason now) s c
      ≡ fresh_requested_compaction_attempts db s c + (if str_eq status "requested" then 1 else 0)
unfolding fresh_requested_compaction_attempts append_attempt
fresh-append db s status reason now c h =
    count_where-append (λ a. is_requested s a && le_ℤ c a.attempted_at) db.attempts _
    ∙ ground (arith, eq_refl s)

-- What a result says of the number of fresh attempts: a prompt was counted, and there was room for
-- it; without a prompt the number stays.
abbrev pub Counted : ℤ → ℕ → ℕ → Outcome (Option Prompt) → Type 0
Counted max before after (ok (some p)) = (after ≡ suc before) × (le_ℤ max (pos before) ≡ false)
Counted max before after (ok none) = after ≡ before
Counted max before after (err e) = after ≡ before

abbrev CountedBy : CompactionOptions → String → ℤ → ℕ → Handled (Option Prompt) → Type 0
CountedBy cfg s c before r =
    Counted cfg.max_block_attempts before (fresh_requested_compaction_attempts r.1 s c) r.0

attempt-Counted :
    (db : Db) (s project agent : String) (cfg : CompactionOptions) (now c : ℤ) (n : ℕ)
    → le_ℤ c now ≡ true
    → fresh_requested_compaction_attempts db s c ≡ n
    → CountedBy cfg s c n (attempt db s project agent cfg now n)
unfolding attempt insert_compaction_attempt
attempt-Counted db s project agent cfg now c n h e =
    elim (Bool-cases (le_ℤ cfg.max_block_attempts (pos n))) [
      | inl m ↦ rw m (elim (Bool-cases (has_session db s)) [
        | inl k ↦ rw k (fresh-append db s "skipped" "max attempts" now c h ∙ omega (arith, e))
        | inr k ↦ rw k e
      ])
      | inr m ↦ rw m (elim (Bool-cases (has_session db s)) [
        | inl k ↦ rw k (fresh-append db s "requested" "" now c h ∙ omega (arith, e), m)
        | inr k ↦ rw k e
      ])
    ]

consider-Counted :
    (db : Db) (s project agent : String) (cfg : CompactionOptions) (now : ℤ) (needs : Outcome Bool)
    → le_ℤ (cutoff_at cfg now) now ≡ true
    → CountedBy cfg s
        (cutoff_at cfg now)
        (fresh_requested_compaction_attempts db s (cutoff_at cfg now))
        (consider db s project agent cfg now needs)
unfolding consider
consider-Counted db s project agent cfg now (err e) h = refl
consider-Counted db s project agent cfg now (ok false) h = refl
consider-Counted db s project agent cfg now (ok true) h =
    subst
      (λ n. CountedBy cfg s (cutoff_at cfg now) n (consider db s project agent cfg now (ok true)))
      (fresh-expire db s (cutoff_at cfg now))
      (attempt-Counted _ s project agent cfg now (cutoff_at cfg now) _ h refl)

-- The time to live of normalised options is positive, so their cutoff lies before now.
cutoff-le-now :
    (cfg : CompactionOptions) (now : ℤ) → le_ℤ (cutoff_at (normalize_compaction cfg) now) now ≡ true
unfolding normalize_compaction
cutoff-le-now cfg now =
    ground (arith, -ℤ_parts now (pos (or_default cfg.attempt_ttl_seconds 600 * 1000)))

pub fresh-end_session :
    (db : Db) (s : String) (now c : ℤ)
    → fresh_requested_compaction_attempts (end_session db s now) s c
      ≡ fresh_requested_compaction_attempts db s c
unfolding fresh_requested_compaction_attempts end_session
fresh-end_session db s now c = refl

-- A request that returns a prompt adds one to the session's requested attempts that are not
-- expired, and their number was below `MaxBlockAttempts`; a request without a prompt, refused by an
-- error or by a test, leaves the number as it was. The options are the normalised ones.
pub request_compaction-Counted :
    (db : Db) (s project agent : String) (stop : Bool) (options : CompactionOptions) (now : ℤ)
    → let cfg = normalize_compaction options in
      let r = request_compaction db s project agent stop cfg now in
      Counted cfg.max_block_attempts
        (fresh_requested_compaction_attempts db s (cutoff_at cfg now))
        (fresh_requested_compaction_attempts r.1 s (cutoff_at cfg now))
        r.0
unfolding request_compaction
request_compaction-Counted db s project agent stop options now =
    if_elim (CountedBy cfg s c (fresh_requested_compaction_attempts db s c))
      (stop || str_eq cfg.mode "disabled" || str_eq cfg.mode "manual") (ok none, db')
      (consider db' s project agent cfg now (session_needs_compaction db' s cfg.min_observations))
      (fresh-end_session db s now c)
      (subst
        (λ n. CountedBy cfg s c n (
          consider db' s project agent cfg now
            (session_needs_compaction db' s cfg.min_observations)))
        (fresh-end_session db s now c)
        (consider-Counted db' s project agent cfg now _ (cutoff-le-now options now)))
  where
    cfg : CompactionOptions
    cfg = normalize_compaction options

    c : ℤ
    c = cutoff_at cfg now

    db' : Db
    db' = end_session db s now
