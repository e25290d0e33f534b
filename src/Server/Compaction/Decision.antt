-- ===== src/Server/Compaction/Decision.antt =====
-- When `requestCompaction` returns a prompt.
use yet_another_memory_bank.Common.{
  ℕ, ◌≡◌, refl, inl, inr, String, Bool, true, false, ◌&&◌, ◌||◌, not, Option, none, some, List, [],
  ◌∷◌, arith, str_eq, Bool-cases, exists_where, first_where, Outcome, ok, err,
}
use yet_another_memory_bank.Common.Int.{ℤ, pos, le_ℤ}
use yet_another_memory_bank.Store.Rows.{Db}
use yet_another_memory_bank.Store.Sessions.{end_session}
use yet_another_memory_bank.Store.Compaction.{
  insert_compaction_attempt, expire_compaction_attempts, fresh_requested_compaction_attempts,
  row_needs_compaction, session_needs_compaction,
}
use yet_another_memory_bank.Store.Observations.{has_session}
use yet_another_memory_bank.Server.Compaction.{
  CompactionOptions, Prompt, cutoff_at, attempt, consider, request_compaction,
}
use yet_another_memory_bank.Server.Compaction.Attempts.{fresh-expire, fresh-end_session}

abbrev pub is_prompt : Outcome (Option Prompt) → Bool
is_prompt (ok (some p)) = true
is_prompt (ok none) = false
is_prompt (err e) = false

-- the value of a test that did not fail
abbrev pub holds : Outcome Bool → Bool
holds (ok b) = b
holds (err e) = false

first_where-none {ℓ} :
    {A : Type ℓ} (p : A → Bool) (xs : List A) → exists_where p xs ≡ false → first_where p xs ≡ none
first_where-none p [] h = refl
first_where-none p (x ∷ xs) h = ground (arith, first_where-none p xs)

-- A session that needs compaction is there.
needs-has_session :
    (db : Db) (s : String) (min : ℤ)
    → session_needs_compaction db s min ≡ ok true
    → has_session db s ≡ true
unfolding session_needs_compaction row_needs_compaction
needs-has_session db s min h = ground (arith, first_where-none (λ r. str_eq r.id s) db.sessions)

attempt-is_prompt :
    (db : Db) (s project agent : String) (cfg : CompactionOptions) (now : ℤ) (n : ℕ)
    → has_session db s ≡ true
    → is_prompt (attempt db s project agent cfg now n).0 ≡ not (le_ℤ cfg.max_block_attempts (pos n))
unfolding attempt insert_compaction_attempt
attempt-is_prompt db s project agent cfg now n h =
    elim (Bool-cases (le_ℤ cfg.max_block_attempts (pos n))) [
      | inl m ↦ rw (m, h)
      | inr m ↦ rw (m, h)
    ]

consider-is_prompt :
    (db : Db) (s project agent : String) (cfg : CompactionOptions) (now : ℤ) (needs : Outcome Bool)
    → session_needs_compaction db s cfg.min_observations ≡ needs
    → is_prompt (consider db s project agent cfg now needs).0 ≡ (
        holds needs
        && not (
            le_ℤ cfg.max_block_attempts
              (pos (fresh_requested_compaction_attempts db s (cutoff_at cfg now)))))
unfolding consider
consider-is_prompt db s project agent cfg now (err e) h = refl
consider-is_prompt db s project agent cfg now (ok false) h = refl
consider-is_prompt db s project agent cfg now (ok true) h =
    rw
      (attempt-is_prompt (expire_compaction_attempts db s (cutoff_at cfg now)) s project agent cfg
        now _ (unfold expire_compaction_attempts in needs-has_session db s cfg.min_observations h))
      (rw (fresh-expire db s (cutoff_at cfg now)))

-- A prompt is returned exactly when no stop hook is active, the mode is neither "disabled" nor
-- "manual", the session, ended now, needs compaction, and its requested attempts that are not
-- expired are fewer than `MaxBlockAttempts`.
pub request_compaction-is_prompt :
    (db : Db) (s project agent : String) (stop : Bool) (cfg : CompactionOptions) (now : ℤ)
    → is_prompt (request_compaction db s project agent stop cfg now).0 ≡ (
        not (stop || str_eq cfg.mode "disabled" || str_eq cfg.mode "manual")
        && (holds (session_needs_compaction (end_session db s now) s cfg.min_observations)
            && not (
                le_ℤ cfg.max_block_attempts
                  (pos (fresh_requested_compaction_attempts db s (cutoff_at cfg now))))))
unfolding request_compaction
request_compaction-is_prompt db s project agent stop cfg now =
    elim (Bool-cases (stop || str_eq cfg.mode "disabled" || str_eq cfg.mode "manual")) [
      | inl e ↦ rw e
      | inr e ↦ rw e (
          rw (consider-is_prompt (end_session db s now) s project agent cfg now _ refl)
            (rw (fresh-end_session db s now (cutoff_at cfg now))))
    ]
