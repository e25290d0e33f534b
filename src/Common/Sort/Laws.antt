-- ===== src/Common/Sort/Laws.antt =====
-- What the stable sort does: it permutes, it orders, and where ties are equal it forgets the
-- order of its input.
use yet_another_memory_bank.Common.Tests.{Bool-cases}
use yet_another_memory_bank.Common.Lists.{All, All-imp}
use yet_another_memory_bank.Common.Sort.{insert, slice_stable, IsWeakOrder, IsOrdered}
use mathlib.Core.Path.{◌≡◌, refl, subst, ◌∙◌}
use mathlib.Core.Logic.{inl, inr, ∥∥₁_elim}
use mathlib.Core.Bool.{Bool, false}
use mathlib.Core.List.{List, [], ◌∷◌, Perm, Permᴰ}
use mathlib.Core.List.Perm
use mathlib.Core.List
use native.Mathlib.Omega.{arith}

module _ {ℓ} {A : Type ℓ} (less : A → A → Bool) where
  pub insert-perm : (x : A) (ys : List A) → Perm (insert less x ys) (x ∷ ys)
  unfolding insert
  insert-perm x [] = Perm.refl (x ∷ [])
  insert-perm x (y ∷ ys) = elim (Bool-cases (less y x)) [
    | inl e ↦ rw e (Perm.trans (Perm.cons y (insert-perm x ys)) (Perm.swap x y ys))
    | inr e ↦ rw e (Perm.refl _)
  ]

  pub slice_stable-perm : (xs : List A) → Perm (slice_stable less xs) xs
  unfolding slice_stable
  slice_stable-perm [] = Perm.refl []
  slice_stable-perm (x ∷ xs) =
      Perm.trans (insert-perm x (slice_stable less xs)) (Perm.cons x (slice_stable-perm xs))

  pub All-insert {κ} :
      (P : A → Type κ) (x : A) (ys : List A) → P x → All P ys → All P (insert less x ys)
  unfolding insert
  All-insert P x [] h k = (h, tt)
  All-insert P x (y ∷ ys) h k = elim (Bool-cases (less y x)) [
    | inl e ↦ rw e (k.0, All-insert P x ys h k.1)
    | inr e ↦ rw e (h, k)
  ]

  pub All-slice_stable {κ} :
      (P : A → Type κ) (xs : List A) → All P xs → All P (slice_stable less xs)
  unfolding slice_stable
  All-slice_stable P [] h = tt
  All-slice_stable P (x ∷ xs) h = All-insert P x _ h.0 (All-slice_stable P xs h.1)

  module _ (w : IsWeakOrder less) where
    insert-IsOrdered : (x : A) (ys : List A) → IsOrdered less ys → IsOrdered less (insert less x ys)
    unfolding insert
    insert-IsOrdered x [] h = (tt, tt)
    insert-IsOrdered x (y ∷ ys) h = elim (Bool-cases (less y x)) [
      | inl e ↦
          rw e
            (All-insert (λ z. less z y ≡ false) x ys (w.asym y x e) h.0, insert-IsOrdered x ys h.1)
      | inr e ↦ rw e ((e, All-imp _ _ (λ z k. w.chain x y z e k) ys h.0), h)
    ]

    pub slice_stable-IsOrdered : (xs : List A) → IsOrdered less (slice_stable less xs)
    unfolding slice_stable
    slice_stable-IsOrdered [] = tt
    slice_stable-IsOrdered (x ∷ xs) = insert-IsOrdered x _ (slice_stable-IsOrdered xs)

pub All-Permᴰ {ℓ κ} :
    {A : Type ℓ} (P : A → Type κ) {xs ys : List A} → Permᴰ xs ys → All P xs → All P ys
All-Permᴰ P Permᴰ.nil h = tt
All-Permᴰ P (Permᴰ.cons e p) h = (subst P e h.0, All-Permᴰ P p h.1)
All-Permᴰ P (Permᴰ.swap e f) h = (subst P f h.1.0, (subst P e h.0, h.1.1))
All-Permᴰ P (Permᴰ.trans p q) h = All-Permᴰ P q (All-Permᴰ P p h)

-- Elements that satisfy `P` and tie are equal.
abbrev pub Separates {ℓ κ} : {A : Type ℓ} → (A → A → Bool) → (A → Type κ) → Type (ℓ ⊔ κ)
Separates {A = A} less P = (a b : A) → P a → P b → less a b ≡ false → less b a ≡ false → a ≡ b

module _ {ℓ κ} {A : Type ℓ} (less : A → A → Bool) (P : A → Type κ) (w : IsWeakOrder less)
    (separates : Separates less P) where
  insert_comm :
      (x y : A) (l : List A)
      → P x
      → P y
      → insert less x (insert less y l) ≡ insert less y (insert less x l)
  unfolding insert
  insert_comm x y [] px py = ground (arith, w.asym x y, w.asym y x, separates x y)
  insert_comm x y (z ∷ l) px py = ground (
    arith,
    insert_comm x y l,
    w.asym x y,
    w.asym y x,
    separates x y,
    w.asym z x,
    w.asym z y,
    w.asym x z,
    w.asym y z,
    w.chain x y z,
    w.chain y x z,
    w.chain x z y,
    w.chain y z x,
  )

  slice_stable-Permᴰ :
      {xs ys : List A} → Permᴰ xs ys → All P xs → slice_stable less xs ≡ slice_stable less ys
  unfolding slice_stable
  slice_stable-Permᴰ Permᴰ.nil h = refl
  slice_stable-Permᴰ (Permᴰ.cons e p) h = cc (e, slice_stable-Permᴰ p h.1)
  slice_stable-Permᴰ (Permᴰ.swap {a = a} {b = b} {l = l} e f) h =
      rw (← e, ← f) (insert_comm a b (slice_stable less l) h.0 h.1.0)
  slice_stable-Permᴰ (Permᴰ.trans p q) h =
      slice_stable-Permᴰ p h ∙ slice_stable-Permᴰ q (All-Permᴰ P p h)

  -- Permuted inputs are sorted to one list.
  pub slice_stable-eq_of_perm :
      {xs ys : List A}
      → IsSet A
      → Perm xs ys
      → All P xs
      → slice_stable less xs ≡ slice_stable less ys
  slice_stable-eq_of_perm s p h = ∥∥₁_elim p (List.is_set s _ _) (λ q. slice_stable-Permᴰ q h)
