-- ===== src/Common/Sort.antt =====
-- Go's `sort.SliceStable` with a `less` function, as a stable insertion sort.
pub mod Sorted
pub mod Laws
pub mod Keys
use yet_another_memory_bank.Common.Lists.{All}
use mathlib.Core.Path.{◌≡◌}
use mathlib.Core.Bool.{true, false}
use yet_another_memory_bank.Common.Tests.{if◌then◌else◌}
use mathlib.Core.Bool.{Bool}
use mathlib.Core.List.{List, [], ◌∷◌}

module _ {ℓ} {A : Type ℓ} (less : A → A → Bool) where
  -- `x` stood before all of the list, so it goes before the first element that is not less
  unfoldable pub insert : A → List A → List A
  insert x [] = x ∷ []
  insert x (y ∷ ys) = if less y x then y ∷ insert x ys else x ∷ y ∷ ys

  unfoldable pub slice_stable : List A → List A
  unfolding insert
  slice_stable [] = []
  slice_stable (x ∷ xs) = insert x (slice_stable xs)

-- What `less` has to be: a strict weak order.
pub record IsWeakOrder {ℓ} {A : Type ℓ} (less : A → A → Bool) : Type ℓ where
  pub asym : (a b : A) → less a b ≡ true → less b a ≡ false
  pub chain : (a b c : A) → less b a ≡ false → less c b ≡ false → less c a ≡ false

-- No element is less than one before it.
abbrev pub IsOrdered {ℓ} : {A : Type ℓ} → (A → A → Bool) → List A → Type 0
IsOrdered less [] = Unit
IsOrdered less (x ∷ xs) = All (λ y. less y x ≡ false) xs × IsOrdered less xs
