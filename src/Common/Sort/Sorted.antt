-- ===== src/Common/Sort/Sorted.antt =====
-- What a sorted list has in common with the list before.
use mathlib.Core.Bool.{Bool}
use mathlib.Core.List.{List, [], ◌∷◌}
use mathlib.Core.Logic.{inl, inr}
use mathlib.Core.Path.{◌≡◌, refl, ap, ◌∙◌}
use Prim.Native.Nat.{suc}
use yet_another_memory_bank.Common.Lists.{All, length}
use yet_another_memory_bank.Common.Sort.{insert, slice_stable}
use yet_another_memory_bank.Common.Tests.{Bool-cases}

module _ {A : Type 0} (P : A → Type 0) (less : A → A → Bool) where
  All-inserted : (x : A) (ys : List A) → All P (insert less x ys) → P x × All P ys
  unfolding insert
  All-inserted x [] h = h
  All-inserted x (y ∷ ys) h = elim (Bool-cases (less y x)) [
    | inl m ↦
        let k : P y × All P (insert less x ys) = rw m at h in
        let r = All-inserted x ys k.1 in (r.0, (k.0, r.1))
    | inr m ↦ rw m at h
  ]

  pub All-sorted : (xs : List A) → All P (slice_stable less xs) → All P xs
  unfolding slice_stable
  All-sorted [] h = tt
  All-sorted (x ∷ xs) h =
      let r = All-inserted x (slice_stable less xs) h in (r.0, All-sorted xs r.1)

module _ {A : Type 0} (less : A → A → Bool) where
  length-inserted : (x : A) (ys : List A) → length (insert less x ys) ≡ suc (length ys)
  unfolding insert
  length-inserted x [] = refl
  length-inserted x (y ∷ ys) = elim (Bool-cases (less y x)) [
    | inl m ↦ rw m (ap suc (length-inserted x ys))
    | inr m ↦ rw m refl
  ]

  pub length-sorted : (xs : List A) → length (slice_stable less xs) ≡ length xs
  unfolding slice_stable
  length-sorted [] = refl
  length-sorted (x ∷ xs) = length-inserted x _ ∙ ap suc (length-sorted xs)
