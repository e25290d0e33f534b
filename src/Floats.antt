-- ===== src/Floats.antt =====
-- float64 as its bit pattern. The operations of IEEE arithmetic that the program uses are a
-- parameter, and the laws of `<` and `==` that hold for values that are not NaN a second one.
use yet_another_memory_bank.Common.{ℕ, ◌≡◌, Bool, true, false, ◌&&◌, not}

abbrev pub Float64 : Type 0
Float64 = ℕ

pub record FloatOps : Type 0 where
  pub zero : Float64
  pub add : Float64 → Float64 → Float64
  -- 1 / float64(n)
  pub recip : ℕ → Float64
  pub lt : Float64 → Float64 → Bool
  pub eq : Float64 → Float64 → Bool

-- `<` is a strict weak order, and `==` says that neither side is less.
pub record IsFloatOrder (fl : FloatOps) : Type 0 where
  pub asym : (a b : Float64) → fl.lt a b ≡ true → fl.lt b a ≡ false
  pub chain : (a b c : Float64) → fl.lt b a ≡ false → fl.lt c b ≡ false → fl.lt c a ≡ false
  pub ties : (a b : Float64) → fl.eq a b ≡ (not (fl.lt a b) && not (fl.lt b a))
