-- ===== src/Embed/Breaker/Laws.antt =====
-- When the circuit breaker is open.
use yet_another_memory_bank.Common.{
  ℕ, suc, ◌+◌, ◌≤◌, ◌≡◌, refl, ap, ◌∙◌, inl, inr, Bool, true, false, ◌&&◌, not, none, some, List,
  [], ◌∷◌, arith, if◌then◌else◌, leb, length, Bool-cases,
}
use yet_another_memory_bank.Common.Int.{ℤ, pos, le_ℤ, ◌-ℤ◌}
use yet_another_memory_bank.Embed.Breaker.{
  CircuitBreaker, closed, open_since, is_open, record_failure, record_success,
}

-- failures recorded one after the other, at these times
abbrev pub after_failures : CircuitBreaker → List ℤ → CircuitBreaker
after_failures b [] = b
after_failures b (t ∷ ts) = after_failures (record_failure b t) ts

-- the last of the times, or `t`
abbrev pub last_of : ℤ → List ℤ → ℤ
last_of t [] = t
last_of t (u ∷ us) = last_of u us

-- The breaker was opened, by the failure at `t`, exactly if the failures reach the threshold.
abbrev pub IsOpenedAt : CircuitBreaker → ℤ → Type 0
IsOpenedAt b t = b.opened_at ≡ (if leb b.threshold b.failures then some t else none)

record_failure-IsOpenedAt :
    (b : CircuitBreaker) (t u : ℤ) → IsOpenedAt b t → IsOpenedAt (record_failure b u) u
unfolding record_failure
record_failure-IsOpenedAt b t u h = elim (Bool-cases (leb b.threshold (suc b.failures))) [
  | inl e ↦ rw e refl
  | inr e ↦ rw e (h ∙ ground arith)
]

-- A breaker after failures: its time of opening, its failures, and what stays.
abbrev pub Failed : CircuitBreaker → ℤ → ℕ → CircuitBreaker → Type 0
Failed b t n b' =
    IsOpenedAt b' t
    × ((b'.failures ≡ b.failures + n) × ((b'.threshold ≡ b.threshold) × (b'.cooldown ≡ b.cooldown)))

after_failures-Failed :
    (b : CircuitBreaker) (t : ℤ) (ts : List ℤ)
    → IsOpenedAt b t
    → Failed b (last_of t ts) (length ts) (after_failures b ts)
unfolding record_failure
after_failures-Failed b t [] h = (h, (omega arith, (refl, refl)))
after_failures-Failed b t (u ∷ us) h =
    let r = after_failures-Failed (record_failure b u) u us (record_failure-IsOpenedAt b t u h) in
    (r.0, (omega (arith, r.1.0), (r.1.1.0, r.1.1.1)))

open_since-answer :
    (b : CircuitBreaker) (t now : ℤ) (enough : Bool)
    → (open_since b now (if enough then some t else none)).0
      ≡ (enough && not (le_ℤ b.cooldown (now -ℤ t)))
unfolding open_since
open_since-answer b t now false = refl
open_since-answer b t now true = elim (Bool-cases (le_ℤ b.cooldown (now -ℤ t))) [
  | inl e ↦ rw e refl
  | inr e ↦ rw e refl
]

-- The answer of a breaker with a known time of opening.
is_open-IsOpenedAt :
    (b : CircuitBreaker) (t now : ℤ)
    → IsOpenedAt b t
    → (is_open b now).0 ≡ (leb b.threshold b.failures && not (le_ℤ b.cooldown (now -ℤ t)))
unfolding is_open
is_open-IsOpenedAt b t now h =
    ap (λ o. (open_since b now o).0) h ∙ open_since-answer b t now (leb b.threshold b.failures)

-- After a success, and then failures at the times `ts`, a breaker whose threshold is not 0 is open exactly if the failures
-- reach its threshold and less than its cooldown has passed since the last of them.
pub is_open-after_failures :
    (b : CircuitBreaker) (ts : List ℤ) (now : ℤ)
    → 1 ≤ b.threshold
    → (is_open (after_failures (record_success b) ts) now).0
      ≡ (leb b.threshold (length ts) && not (le_ℤ b.cooldown (now -ℤ last_of (pos 0) ts)))
unfolding record_success
is_open-after_failures b ts now h =
    let f = after_failures-Failed (closed b) (pos 0) ts (ground (arith, h)) in
    let n : (after_failures (closed b) ts).failures ≡ length ts = omega (arith, f.1.0) in
    is_open-IsOpenedAt (after_failures (closed b) ts) (last_of (pos 0) ts) now f.0
    ∙ rw (n, f.1.1.0, f.1.1.1) refl

-- Asked when it was opened before, a breaker either answers that it is open and stays as it is, or
-- is left as after a success.
pub is_open-closes :
    (b : CircuitBreaker) (t now : ℤ)
    → b.opened_at ≡ some t
    → (is_open b now).1 ≡ (if (is_open b now).0 then b else record_success b)
unfolding is_open open_since record_success
is_open-closes b t now h =
    rw h (elim (Bool-cases (le_ℤ b.cooldown (now -ℤ t))) [ inl e ↦ rw e refl | inr e ↦ rw e refl ])
