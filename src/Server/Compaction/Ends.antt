-- ===== src/Server/Compaction/Ends.antt =====
-- Repeated requests of compaction for one session.
use mathlib.Core.Path.{subst}
use yet_another_memory_bank.Common.{
  ℕ, suc, ◌-◌, ◌≤◌, ◌<◌, ◌≡◌, refl, sym, ap, ◌∙◌, inl, inr, String, Bool, true, false, ◌&&◌, ◌||◌,
  not, Option, none, some, List, [], ◌∷◌, arith, if◌then◌else◌, str_eq, eq_iff, if_elim, Bool-cases,
  All, length, update_where, count_where, exists_where, Outcome, ok, err,
}
use yet_another_memory_bank.Common.Int.{ℤ, pos, le_ℤ, lt_ℤ, or_default}
use yet_another_memory_bank.Store.Rows.{Db, AttemptRow}
use yet_another_memory_bank.Store.Sessions.{end_session}
use yet_another_memory_bank.Store.Compaction.{
  insert_compaction_attempt, is_requested, expire_compaction_attempts,
  fresh_requested_compaction_attempts, session_needs_compaction,
}
use yet_another_memory_bank.Store.Observations.{Zstd, ObservationInput, has_session}
use yet_another_memory_bank.Server.Compaction.Captured.{captured, captured-attempts}
use yet_another_memory_bank.Server.Compaction.{
  CompactionOptions, Handled, Prompt, normalize_compaction, cutoff_at, attempt, consider,
  request_compaction,
}
use yet_another_memory_bank.Server.Compaction.Attempts.{fresh-append, fresh-end_session}
use yet_another_memory_bank.Server.Compaction.Decision.{is_prompt}

-- The session's requested attempts since a time.
abbrev since : Db → String → ℤ → ℕ
since db s t = fresh_requested_compaction_attempts db s t

-- Earlier attempts that expire are not among those since a later time.
count-expire_before :
    (s : String) (c t : ℤ) (rows : List AttemptRow)
    → le_ℤ c t ≡ true
    → count_where
        (λ a. is_requested s a && le_ℤ t a.attempted_at)
        (update_where
          (λ a. is_requested s a && lt_ℤ a.attempted_at c)
          (λ a. record a { status = "failed"; reason = "ttl expired" })
          rows)
      ≡ count_where (λ a. is_requested s a && le_ℤ t a.attempted_at) rows
count-expire_before s c t [] h = refl
count-expire_before s c t (a ∷ rows) h =
    ground (arith, count-expire_before s c t rows h, eq_iff "failed" "requested")

since-expire :
    (db : Db) (s : String) (c t : ℤ)
    → le_ℤ c t ≡ true
    → since (expire_compaction_attempts db s c) s t ≡ since db s t
unfolding fresh_requested_compaction_attempts expire_compaction_attempts
since-expire db s c t h = count-expire_before s c t db.attempts h

-- There are more since an earlier time.
since-le :
    (s : String) (c t : ℤ) (rows : List AttemptRow)
    → le_ℤ c t ≡ true
    → count_where (λ a. is_requested s a && le_ℤ t a.attempted_at) rows
      ≤ count_where (λ a. is_requested s a && le_ℤ c a.attempted_at) rows
since-le s c t [] h = omega arith
since-le s c t (a ∷ rows) h = ground (arith, since-le s c t rows h)

-- What a result says of the number: a prompt adds one, and there was room for it.
abbrev Adds : ℕ → ℕ → ℕ → Outcome (Option Prompt) → Type 0
Adds max before after (ok (some p)) = (after ≡ suc before) × (before < max)
Adds max before after (ok none) = after ≡ before
Adds max before after (err e) = after ≡ before

abbrev AddsBy : ℕ → String → ℤ → ℕ → Handled (Option Prompt) → Type 0
AddsBy max s t n r = Adds max n (since r.1 s t) r.0

room-left : (max m n : ℕ) → le_ℤ (pos max) (pos m) ≡ false → n ≤ m → n < max
room-left max m n h l = ground arith

attempt-Adds :
    (db : Db) (s project agent : String) (cfg : CompactionOptions) (max : ℕ) (now t : ℤ) (m : ℕ)
    → cfg.max_block_attempts ≡ pos max
    → le_ℤ t now ≡ true
    → since db s t ≤ m
    → AddsBy max s t (since db s t) (attempt db s project agent cfg now m)
unfolding attempt insert_compaction_attempt
attempt-Adds db s project agent cfg max now t m e h l =
    elim (Bool-cases (le_ℤ cfg.max_block_attempts (pos m))) [
      | inl k ↦ rw k (elim (Bool-cases (has_session db s)) [
        | inl g ↦ rw g (fresh-append db s "skipped" "max attempts" now t h ∙ omega arith)
        | inr g ↦ rw g refl
      ])
      | inr k ↦ rw k (elim (Bool-cases (has_session db s)) [
        | inl g ↦ rw g (
          fresh-append db s "requested" "" now t h ∙ omega arith,
          room-left max m _ (ap (λ z. le_ℤ z (pos m)) (sym e) ∙ k) l,
        )
        | inr g ↦ rw g refl
      ])
    ]

consider-Adds :
    (db : Db) (s project agent : String) (cfg : CompactionOptions) (max : ℕ) (now t : ℤ)
    (needs : Outcome Bool)
    → cfg.max_block_attempts ≡ pos max
    → le_ℤ (cutoff_at cfg now) t ≡ true
    → le_ℤ t now ≡ true
    → AddsBy max s t (since db s t) (consider db s project agent cfg now needs)
unfolding consider expire_compaction_attempts fresh_requested_compaction_attempts
consider-Adds db s project agent cfg max now t (err x) e c h = refl
consider-Adds db s project agent cfg max now t (ok false) e c h = refl
consider-Adds db s project agent cfg max now t (ok true) e c h =
    let db' = expire_compaction_attempts db s (cutoff_at cfg now) in
    subst (λ n. AddsBy max s t n (consider db s project agent cfg now (ok true)))
      (since-expire db s (cutoff_at cfg now) t c)
      (attempt-Adds db' s project agent cfg max now t _ e h
        (since-le s (cutoff_at cfg now) t db'.attempts c))

request_compaction-Adds :
    (db : Db) (s project agent : String) (stop : Bool) (cfg : CompactionOptions) (max : ℕ)
    (now t : ℤ)
    → cfg.max_block_attempts ≡ pos max
    → le_ℤ (cutoff_at cfg now) t ≡ true
    → le_ℤ t now ≡ true
    → AddsBy max s t (since db s t) (request_compaction db s project agent stop cfg now)
unfolding request_compaction
request_compaction-Adds db s project agent stop cfg max now t e c h =
    let db' = end_session db s now in
    if_elim (AddsBy max s t (since db s t))
      (stop || str_eq cfg.mode "disabled" || str_eq cfg.mode "manual") (ok none, db')
      (consider db' s project agent cfg now (session_needs_compaction db' s cfg.min_observations))
      (fresh-end_session db s now t)
      (subst
        (λ n. AddsBy max s t n (
          consider db' s project agent cfg now
            (session_needs_compaction db' s cfg.min_observations)))
        (fresh-end_session db s now t) (consider-Adds db' s project agent cfg max now t _ e c h))

since-captured :
    (z : Zstd) (inputs : List (ObservationInput × ℕ)) (db : Db) (s : String) (t : ℤ)
    → since (captured z db inputs) s t ≡ since db s t
unfolding fresh_requested_compaction_attempts
since-captured z inputs db s t =
    ap (count_where (λ a. is_requested s a && le_ℤ t a.attempted_at))
      (captured-attempts z inputs db)

-- A request of compaction for a session: the observations that are inserted before it, if a stop hook is active, and the time.
pub record Stop : Type 0 where
  pub before : List (ObservationInput × ℕ)
  pub is_active : Bool
  pub now : ℤ

-- The requests for one session, with only the observations inserted between them: whether each of them is answered by a
-- prompt.
pub prompted : Zstd → Db → String → String → String → CompactionOptions → List Stop → List Bool
prompted z db s project agent cfg [] = []
prompted z db s project agent cfg (q ∷ stops) =
    let r = request_compaction (captured z db q.before) s project agent q.is_active cfg q.now in
    is_prompt r.0 ∷ prompted z r.1 s project agent cfg stops

-- The time lies at or after `t`, and an attempt at `t` is not expired then.
abbrev pub IsWithin : CompactionOptions → ℤ → ℤ → Type 0
IsWithin cfg t now = (le_ℤ (cutoff_at cfg now) t ≡ true) × (le_ℤ t now ≡ true)

prompt-room :
    (max before after k : ℕ) (r : Outcome (Option Prompt))
    → Adds max before after r
    → k ≤ max - after
    → (if is_prompt r then suc k else k) ≤ max - before
prompt-room max before after k (ok (some p)) a h = omega (arith, a.0, a.1)
prompt-room max before after k (ok none) a h = omega (arith, a)
prompt-room max before after k (err e) a h = omega (arith, a)

prompted-room :
    (z : Zstd) (stops : List Stop) (db : Db) (s project agent : String) (cfg : CompactionOptions)
    (max : ℕ) (t : ℤ)
    → cfg.max_block_attempts ≡ pos max
    → All (λ q. IsWithin cfg t q.now) stops
    → count_where (λ b. b) (prompted z db s project agent cfg stops) ≤ max - since db s t
unfolding prompted
prompted-room z [] db s project agent cfg max t e h = omega arith
prompted-room z (q ∷ stops) db s project agent cfg max t e h =
    let db' = captured z db q.before in
    let r = request_compaction db' s project agent q.is_active cfg q.now in
    let room =
      prompt-room max (since db' s t) (since r.1 s t) _ r.0
        (request_compaction-Adds db' s project agent q.is_active cfg max q.now t e h.0.0 h.0.1)
        (prompted-room z stops r.1 s project agent cfg max t e h.1) in
    subst
      (λ (n : ℕ). count_where (λ b. b) (prompted z db s project agent cfg (q ∷ stops)) ≤ max - n)
      (since-captured z q.before db s t) room

length-prompted :
    (z : Zstd) (stops : List Stop) (db : Db) (s project agent : String) (cfg : CompactionOptions)
    → length (prompted z db s project agent cfg stops) ≡ length stops
unfolding prompted
length-prompted z [] db s project agent cfg = refl
length-prompted z (q ∷ stops) db s project agent cfg =
    ap suc (length-prompted z stops _ s project agent cfg)

-- more answers than prompts
one-not : (bs : List Bool) → count_where (λ b. b) bs < length bs → exists_where not bs ≡ true
one-not [] h = absurd (omega arith)
one-not (true ∷ bs) h = one-not bs (omega arith)
one-not (false ∷ bs) h = refl

-- Of more than MaxBlockAttempts requests for one session, with nothing else done to the store between them than the
-- insertion of observations, all within the time to live of an attempt at one time, one is answered without a prompt, so
-- that the agent can end. The options are the normalised ones, for which the default is 2.
pub request_compaction-end :
    (z : Zstd) (options : CompactionOptions) (stops : List Stop) (db : Db)
    (s project agent : String) (t : ℤ)
    → let cfg = normalize_compaction options in
      All (λ q. IsWithin cfg t q.now) stops
      → or_default options.max_block_attempts 2 < length stops
      → exists_where not (prompted z db s project agent cfg stops) ≡ true
unfolding normalize_compaction
request_compaction-end z options stops db s project agent t h l =
    let cfg = normalize_compaction options in
    let max = or_default options.max_block_attempts 2 in
    one-not (prompted z db s project agent cfg stops) (
      omega (
        arith,
        prompted-room z stops db s project agent cfg max t refl h,
        length-prompted z stops db s project agent cfg,
      ))
