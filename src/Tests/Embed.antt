-- ===== src/Tests/Embed.antt =====
-- internal/embed at concrete inputs.
use yet_another_memory_bank.Common.{
  ℕ, ◌≡◌, refl, false, ◌&&◌, not, some, List, [], ◌∷◌, arith, ◌==◌, leb, length,
}
use yet_another_memory_bank.Common.Int.{pos, le_ℤ, ◌-ℤ◌}
use yet_another_memory_bank.Embed.Client.{
  Client, Reply, unreachable, replied, validate_dim, accept, embed, after_calls,
}
use yet_another_memory_bank.Embed.Client.Dimension.{embed-same_length}
use yet_another_memory_bank.Embed.Breaker.{CircuitBreaker, is_open, record_success}
use yet_another_memory_bank.Embed.Breaker.Laws.{after_failures, last_of, is_open-after_failures}

abbrev pub detecting : Client
detecting = record { url = "http://localhost"; dim = pos 0; detected_dim = 0 }

abbrev detected : Client
detected = record { url = "http://localhost"; dim = pos 0; detected_dim = 2 }

abbrev answer : List ℕ → Reply
answer vec = replied 200 (some vec)

abbrev two_numbers : List ℕ
two_numbers = 1 ∷ 2 ∷ []

abbrev two_others : List ℕ
two_others = 3 ∷ 4 ∷ []

embed-same_length_example :
    (length two_others ≡ length two_numbers) × ((length two_numbers == 0) ≡ false)
unfolding embed accept validate_dim after_calls
embed-same_length_example =
    embed-same_length detecting detected detected (answer two_numbers) (answer two_others)
      (unreachable ∷ answer (5 ∷ []) ∷ []) two_numbers two_others refl refl

abbrev breaker : CircuitBreaker
breaker = record { failures = 0; threshold = 2; cooldown = pos 100; opened_at = some (pos 5) }

is_open-after_failures_example :
    (is_open (after_failures (record_success breaker) (pos 10 ∷ pos 20 ∷ [])) (pos 50)).0 ≡ (
      leb 2 (length (pos 10 ∷ pos 20 ∷ []))
      && not (le_ℤ (pos 100) (pos 50 -ℤ last_of (pos 0) (pos 10 ∷ pos 20 ∷ []))))
is_open-after_failures_example =
    is_open-after_failures breaker (pos 10 ∷ pos 20 ∷ []) (pos 50) (omega arith)
