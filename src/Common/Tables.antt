-- ===== src/Common/Tables.antt =====
-- A table of the database as a list of rows, with the statements that the program runs on it:
-- SELECT … WHERE, UPDATE … WHERE, DELETE … WHERE and COUNT(*), for a Boolean condition.
use Prim.Native.Nat.{ℕ, suc, ◌+◌}
use mathlib.Core.Bool.{Bool, false, ◌||◌}
use mathlib.Core.List.{List, [], ◌∷◌, ◌++◌}
use mathlib.Core.Option.{Option, none, some}
use mathlib.Core.Path.{◌≡◌, refl}
use native.Mathlib.Omega.{arith}
use yet_another_memory_bank.Common.Tests.{if◌then◌else◌}

module _ {ℓ} {A : Type ℓ} where
  -- the rows that meet the condition
  abbrev pub rows_where : (A → Bool) → List A → List A
  rows_where p [] = []
  rows_where p (x ∷ xs) = if p x then x ∷ rows_where p xs else rows_where p xs

  -- DELETE: the rows that stay
  abbrev pub delete_where : (A → Bool) → List A → List A
  delete_where p [] = []
  delete_where p (x ∷ xs) = if p x then delete_where p xs else x ∷ delete_where p xs

  -- UPDATE
  abbrev pub update_where : (A → Bool) → (A → A) → List A → List A
  update_where p f [] = []
  update_where p f (x ∷ xs) = (if p x then f x else x) ∷ update_where p f xs

  -- COUNT(*)
  abbrev pub count_where : (A → Bool) → List A → ℕ
  count_where p [] = 0
  count_where p (x ∷ xs) = if p x then suc (count_where p xs) else count_where p xs

  -- SELECT 1 … LIMIT 1 has a row
  abbrev pub exists_where : (A → Bool) → List A → Bool
  exists_where p [] = false
  exists_where p (x ∷ xs) = p x || exists_where p xs

  -- the first row that meets the condition
  abbrev pub first_where : (A → Bool) → List A → Option A
  first_where p [] = none
  first_where p (x ∷ xs) = if p x then some x else first_where p xs

  pub count_where-append :
      (p : A → Bool) (xs ys : List A)
      → count_where p (xs ++ ys) ≡ count_where p xs + count_where p ys
  count_where-append p [] ys = omega arith
  count_where-append p (x ∷ xs) ys = ground (arith, count_where-append p xs ys)

  pub exists_where-append :
      (p : A → Bool) (xs ys : List A)
      → exists_where p (xs ++ ys) ≡ (exists_where p xs || exists_where p ys)
  exists_where-append p [] ys = refl
  exists_where-append p (x ∷ xs) ys = ground (arith, exists_where-append p xs ys)

  -- an update that the condition does not look at
  pub exists_where-update :
      (p q : A → Bool) (f : A → A)
      → ((x : A) → p (f x) ≡ p x)
      → (xs : List A) → exists_where p (update_where q f xs) ≡ exists_where p xs
  exists_where-update p q f e [] = refl
  exists_where-update p q f e (x ∷ xs) = ground (arith, exists_where-update p q f e xs, e x)

  pub rows_where-eq :
      (p q : A → Bool) → ((x : A) → p x ≡ q x) → (xs : List A) → rows_where p xs ≡ rows_where q xs
  rows_where-eq p q h [] = refl
  rows_where-eq p q h (x ∷ xs) = rw (h x, rows_where-eq p q h xs) refl
