-- ===== src/Embed/Breaker.antt =====
-- `CircuitBreaker` of internal/embed/ollama.go. A time is a number of nanoseconds, `none` the zero
-- time; what `now()` returns is an argument of the methods that call it.
pub mod Laws
use yet_another_memory_bank.Common.{
  ℕ, suc, ◌*◌, Bool, true, false, Option, none, some, if◌then◌else◌, leb,
}
use yet_another_memory_bank.Common.Int.{ℤ, pos, le_ℤ, or_default, ◌-ℤ◌}

pub record CircuitBreaker : Type 0 where
  pub failures : ℕ
  pub threshold : ℕ
  pub cooldown : ℤ
  pub opened_at : Option ℤ

-- time.Minute
abbrev pub minute : ℕ
minute = 60000000000

unfoldable pub new_circuit_breaker : ℤ → ℤ → CircuitBreaker
new_circuit_breaker threshold cooldown = record {
  failures = 0;
  threshold = or_default threshold 3;
  cooldown = pos (or_default cooldown (2 * minute));
  opened_at = none;
}

-- the failures and the time of the opening forgotten
abbrev pub closed : CircuitBreaker → CircuitBreaker
closed b = record b { failures = 0; opened_at = none }

-- for each value of `openedAt`
unfoldable pub open_since : CircuitBreaker → ℤ → Option ℤ → Bool × CircuitBreaker
open_since b now none = (false, b)
open_since b now (some t) = if le_ℤ b.cooldown (now -ℤ t) then (false, closed b) else (true, b)

-- `Open`, which closes the breaker when the cooldown is over
unfoldable pub is_open : CircuitBreaker → ℤ → Bool × CircuitBreaker
is_open b now = open_since b now b.opened_at

unfoldable pub record_failure : CircuitBreaker → ℤ → CircuitBreaker
record_failure b now = record b {
  failures = suc b.failures;
  opened_at = if leb b.threshold (suc b.failures) then some now else b.opened_at;
}

unfoldable pub record_success : CircuitBreaker → CircuitBreaker
record_success b = closed b
