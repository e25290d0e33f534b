-- ===== src/Common/Sort/Keys.antt =====
-- A stable sort of a table by another order than its key's.
use Prim.Native.Nat.{ℕ}
use mathlib.Core.Path.{◌≡◌, refl, ap, ◌∙◌}
use mathlib.Core.Bool.{Bool, false, ◌||◌}
use mathlib.Core.Logic.{inl, inr}
use mathlib.Core.Option.{some}
use mathlib.Core.List.{List, [], ◌∷◌}
use native.Mathlib.Omega.{arith}
use yet_another_memory_bank.Common.Tests.{if◌then◌else◌, ◌==◌, Bool-cases}
use yet_another_memory_bank.Common.Keyed.{find, has, HasDistinctKeys}
use yet_another_memory_bank.Common.Sort.{insert, slice_stable}

-- The sort keeps what a lookup finds, where the keys are distinct.
module _ {ℓ} {A : Type ℓ} (key : A → ℕ) (less : A → A → Bool) where
  has-insert : (j : ℕ) (x : A) (ys : List A) → has key j (insert less x ys) ≡ has key j (x ∷ ys)
  unfolding insert
  has-insert j x [] = refl
  has-insert j x (y ∷ ys) = ground (arith, has-insert j x ys)

  find-insert :
      (j : ℕ) (x : A) (ys : List A)
      → has key (key x) ys ≡ false
      → find key j (insert less x ys) ≡ find key j (x ∷ ys)
  unfolding insert
  find-insert j x [] h = refl
  find-insert j x (y ∷ ys) h = ground (arith, find-insert j x ys)

  insert-HasDistinctKeys :
      (x : A) (ys : List A)
      → has key (key x) ys ≡ false
      → HasDistinctKeys key ys
      → HasDistinctKeys key (insert less x ys)
  unfolding insert
  insert-HasDistinctKeys x [] h d = (refl, tt)
  insert-HasDistinctKeys x (y ∷ ys) h d = elim (Bool-cases (less y x)) [
    | inl e ↦
        rw e
          (ground (arith, has-insert (key y) x ys), insert-HasDistinctKeys x ys (ground arith) d.1)
    | inr e ↦ rw e (h, d)
  ]

  has-slice_stable : (j : ℕ) (xs : List A) → has key j (slice_stable less xs) ≡ has key j xs
  unfolding slice_stable
  has-slice_stable j [] = refl
  has-slice_stable j (x ∷ xs) =
      has-insert j x (slice_stable less xs) ∙ ap (λ b. ((key x) == j) || b) (has-slice_stable j xs)

  pub slice_stable-HasDistinctKeys :
      (xs : List A) → HasDistinctKeys key xs → HasDistinctKeys key (slice_stable less xs)
  unfolding slice_stable
  slice_stable-HasDistinctKeys [] d = tt
  slice_stable-HasDistinctKeys (x ∷ xs) d =
      insert-HasDistinctKeys x _ (has-slice_stable (key x) xs ∙ d.0)
        (slice_stable-HasDistinctKeys xs d.1)

  pub find-slice_stable :
      (j : ℕ) (xs : List A)
      → HasDistinctKeys key xs
      → find key j (slice_stable less xs) ≡ find key j xs
  unfolding slice_stable
  find-slice_stable j [] d = refl
  find-slice_stable j (x ∷ xs) d =
      find-insert j x _ (has-slice_stable (key x) xs ∙ d.0)
      ∙ ap (λ o. if (key x) == j then some x else o) (find-slice_stable j xs d.1)
