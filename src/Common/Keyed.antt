-- ===== src/Common/Keyed.antt =====
-- Tables with a numeric key: what a lookup by key sees after an insertion, a deletion or an update.
use Prim.Native.Nat.{ℕ}
use mathlib.Core.Path.{◌≡◌, refl}
use mathlib.Core.Bool.{Bool, true, false, ◌||◌, not, ◌&&◌}
use mathlib.Core.List.{List, [], ◌∷◌, ◌++◌}
use mathlib.Core.Option.{Option, none, some}
use native.Mathlib.Omega.{arith}
use yet_another_memory_bank.Common.Tests.{if◌then◌else◌, ◌==◌, Bool-cases}
use mathlib.Core.Logic.{inl, inr}
use yet_another_memory_bank.Common.Lists.{All}
use yet_another_memory_bank.Common.Tables.{delete_where, update_where, exists_where, first_where}

-- `o`, or `p` where `o` is none
abbrev pub or_else {ℓ} : {A : Type ℓ} → Option A → Option A → Option A
or_else none p = p
or_else (some a) p = some a

module _ {ℓ} {A : Type ℓ} (key : A → ℕ) where
  -- SELECT … WHERE id = ?
  abbrev pub find : ℕ → List A → Option A
  find i = first_where (λ x. key x == i)

  -- some row has the key
  abbrev pub has : ℕ → List A → Bool
  has i = exists_where (λ x. key x == i)

  pub find-append : (i : ℕ) (xs ys : List A) → find i (xs ++ ys) ≡ or_else (find i xs) (find i ys)
  find-append i [] ys = refl
  find-append i (x ∷ xs) ys = ground (arith, find-append i xs ys)

  pub find-delete :
      (i j : ℕ) (xs : List A)
      → find j (delete_where (λ x. key x == i) xs) ≡ (if i == j then none else find j xs)
  find-delete i j [] = ground arith
  find-delete i j (x ∷ xs) = ground (arith, find-delete i j xs)

  pub find-update :
      (f : A → A)
      → ((x : A) → key (f x) ≡ key x)
      → (i j : ℕ) (xs : List A)
      → find j (update_where (λ x. key x == i) f xs)
        ≡ (if i == j then elim (find j xs) [ none ↦ none | some x ↦ some (f x) ] else find j xs)
  find-update f e i j [] = ground arith
  find-update f e i j (x ∷ xs) = ground (arith, find-update f e i j xs, e x)

  pub has-append : (i : ℕ) (xs ys : List A) → has i (xs ++ ys) ≡ (has i xs || has i ys)
  has-append i [] ys = refl
  has-append i (x ∷ xs) ys = ground (arith, has-append i xs ys)

  pub has-delete :
      (i j : ℕ) (xs : List A)
      → has j (delete_where (λ x. key x == i) xs) ≡ (not (i == j) && has j xs)
  has-delete i j [] = ground arith
  has-delete i j (x ∷ xs) = ground (arith, has-delete i j xs)

  -- an update keeps the keys, whatever rows it changes
  pub has-update :
      (p : A → Bool) (f : A → A)
      → ((x : A) → key (f x) ≡ key x)
      → (j : ℕ) (xs : List A) → has j (update_where p f xs) ≡ has j xs
  has-update p f e j [] = refl
  has-update p f e j (x ∷ xs) = ground (arith, has-update p f e j xs, e x)

  -- no two rows have one key
  abbrev pub HasDistinctKeys : List A → Type 0
  HasDistinctKeys [] = Unit
  HasDistinctKeys (x ∷ xs) = (has (key x) xs ≡ false) × HasDistinctKeys xs

  pub has_of_find-none : (i : ℕ) (xs : List A) → find i xs ≡ none → has i xs ≡ false
  has_of_find-none i [] h = refl
  has_of_find-none i (x ∷ xs) h = ground (arith, has_of_find-none i xs)

  pub append-HasDistinctKeys :
      (xs : List A) (y : A)
      → has (key y) xs ≡ false
      → HasDistinctKeys xs
      → HasDistinctKeys (xs ++ y ∷ [])
  append-HasDistinctKeys [] y h d = (refl, tt)
  append-HasDistinctKeys (x ∷ xs) y h d = (
    ground (arith, has-append (key x) xs (y ∷ [])),
    append-HasDistinctKeys xs y (ground arith) d.1,
  )

  pub delete-HasDistinctKeys :
      (i : ℕ) (xs : List A)
      → HasDistinctKeys xs
      → HasDistinctKeys (delete_where (λ x. key x == i) xs)
  delete-HasDistinctKeys i [] d = tt
  delete-HasDistinctKeys i (x ∷ xs) d = elim (Bool-cases (key x == i)) [
    | inl e ↦ rw e (delete-HasDistinctKeys i xs d.1)
    | inr e ↦ rw e (ground (arith, has-delete i (key x) xs), delete-HasDistinctKeys i xs d.1)
  ]

  pub update-HasDistinctKeys :
      (p : A → Bool) (f : A → A)
      → ((x : A) → key (f x) ≡ key x)
      → (xs : List A) → HasDistinctKeys xs
      → HasDistinctKeys (update_where p f xs)
  update-HasDistinctKeys p f e [] d = tt
  update-HasDistinctKeys p f e (x ∷ xs) d =
      (ground (arith, has-update p f e (key x) xs, e x), update-HasDistinctKeys p f e xs d.1)

module _ {ℓ κ} {A : Type ℓ} (P : A → Type κ) where
  pub All-delete_where : (p : A → Bool) (xs : List A) → All P xs → All P (delete_where p xs)
  All-delete_where p [] h = tt
  All-delete_where p (x ∷ xs) h = go (p x) (All-delete_where p xs h.1)
    where
      go :
          (b : Bool)
          → All P (delete_where p xs)
          → All P (if b then delete_where p xs else x ∷ delete_where p xs)
      go true k = k
      go false k = (h.0, k)

  pub All-update_where :
      (p : A → Bool) (f : A → A)
      → ((x : A) → P x → P (f x))
      → (xs : List A) → All P xs
      → All P (update_where p f xs)
  All-update_where p f e [] h = tt
  All-update_where p f e (x ∷ xs) h = (go (p x), All-update_where p f e xs h.1)
    where
      go : (b : Bool) → P (if b then f x else x)
      go true = e x h.0
      go false = h.0

pub find_of_has {ℓ} :
    {A : Type ℓ} (key : A → ℕ) (i : ℕ) (xs : List A)
    → has key i xs ≡ true
    → (x : A) × (find key i xs ≡ some x)
find_of_has key i [] h = cc
find_of_has key i (x ∷ xs) h = elim (Bool-cases (key x == i)) [
  | inl e ↦ (x, rw e)
  | inr e ↦ rw e (find_of_has key i xs (ground arith))
]
