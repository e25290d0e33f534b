-- ===== src/Secrets/Local.antt =====
-- A pattern that no byte of the mark's first can be part of matches inside a piece of text that ends at a
-- mark only if it matches where the piece came from.
use yet_another_memory_bank.Common.{
  ℕ, zero, suc, ◌≡◌, refl, inl, inr, Bool, true, false, Option, none, some, List, [], ◌∷◌, ◌++◌,
  Bool-cases, sym, ◌∙◌,
}
use yet_another_memory_bank.Secrets.{Pattern, exactly, at_least, longer, matched}

-- the pattern matches at the start of the text
abbrev pub is_some {ℓ} : {A : Type ℓ} → Option A → Bool
is_some none = false
is_some (some a) = true

abbrev pub accepts : Pattern → List ℕ → Bool
accepts ps xs = is_some (matched ps xs)

-- No class of the pattern has the byte.
abbrev pub Excludes : ℕ → Pattern → Type 0
Excludes c [] = Unit {0}
Excludes c (exactly n p ∷ ps) = (p c ≡ false) × Excludes c ps
Excludes c (at_least n p ∷ ps) = (p c ≡ false) × Excludes c ps

longer-is_some : (o : Option ℕ) → is_some (longer o) ≡ is_some o
longer-is_some none = refl
longer-is_some (some n) = refl

-- the steps of a match
module _ (p : ℕ → Bool) (ps : Pattern) (x : ℕ) (xs : List ℕ) where
  exactly-in :
      (n : ℕ)
      → p x ≡ true
      → accepts (exactly (suc n) p ∷ ps) (x ∷ xs) ≡ accepts (exactly n p ∷ ps) xs
  unfolding matched
  exactly-in n k = rw k (longer-is_some (matched (exactly n p ∷ ps) xs))

  exactly-out : (n : ℕ) → p x ≡ false → accepts (exactly (suc n) p ∷ ps) (x ∷ xs) ≡ false
  unfolding matched
  exactly-out n k = rw k refl

  more-in :
      (n : ℕ)
      → p x ≡ true
      → accepts (at_least (suc n) p ∷ ps) (x ∷ xs) ≡ accepts (at_least n p ∷ ps) xs
  unfolding matched
  more-in n k = rw k (longer-is_some (matched (at_least n p ∷ ps) xs))

  more-out : (n : ℕ) → p x ≡ false → accepts (at_least (suc n) p ∷ ps) (x ∷ xs) ≡ false
  unfolding matched
  more-out n k = rw k refl

  run-in : p x ≡ true → accepts (at_least 0 p ∷ ps) (x ∷ xs) ≡ accepts (at_least 0 p ∷ ps) xs
  unfolding matched
  run-in k = rw k (longer-is_some (matched (at_least 0 p ∷ ps) xs))

  run-out : p x ≡ false → accepts (at_least 0 p ∷ ps) (x ∷ xs) ≡ accepts ps (x ∷ xs)
  unfolding matched
  run-out k = rw k refl

refuse {ℓ} : {A : Type ℓ} {b : Bool} → b ≡ false → b ≡ true → A
refuse e h = cc

-- What matches before an excluded byte without taking it matches anywhere.
accepts-anywhere :
    (c : ℕ) (ps : Pattern) (v w : List ℕ)
    → Excludes c ps
    → accepts ps (c ∷ v) ≡ true
    → accepts ps w ≡ true
unfolding matched
accepts-anywhere c [] v w e h = refl
accepts-anywhere c (exactly zero p ∷ ps) v w e h = accepts-anywhere c ps v w e.1 h
accepts-anywhere c (exactly (suc n) p ∷ ps) v w e h = refuse (exactly-out p ps c v n e.0) h
accepts-anywhere c (at_least (suc n) p ∷ ps) v w e h = refuse (more-out p ps c v n e.0) h
accepts-anywhere c (at_least zero p ∷ ps) v [] e h =
    accepts-anywhere c ps v [] e.1 (sym (run-out p ps c v e.0) ∙ h)
accepts-anywhere c (at_least zero p ∷ ps) v (x ∷ w) e h = elim (Bool-cases (p x)) [
  | inl k ↦ run-in p ps x w k ∙ accepts-anywhere c (at_least zero p ∷ ps) v w e h
  | inr k ↦
      run-out p ps x w k ∙ accepts-anywhere c ps v (x ∷ w) e.1 (sym (run-out p ps c v e.0) ∙ h)
]

-- What matches in a piece before an excluded byte matches however the piece goes on.
pub accepts-local :
    (c : ℕ) (ps : Pattern) (u v w : List ℕ)
    → Excludes c ps
    → accepts ps (u ++ c ∷ v) ≡ true
    → accepts ps (u ++ w) ≡ true
unfolding matched
accepts-local c ps [] v w e h = accepts-anywhere c ps v w e h
accepts-local c [] (x ∷ u) v w e h = refl
accepts-local c (exactly zero p ∷ ps) (x ∷ u) v w e h = accepts-local c ps (x ∷ u) v w e.1 h
accepts-local c (exactly (suc n) p ∷ ps) (x ∷ u) v w e h = elim (Bool-cases (p x)) [
  | inl k ↦
      exactly-in p ps x (u ++ w) n k
      ∙ accepts-local c (exactly n p ∷ ps) u v w e (sym (exactly-in p ps x (u ++ c ∷ v) n k) ∙ h)
  | inr k ↦ refuse (exactly-out p ps x (u ++ c ∷ v) n k) h
]
accepts-local c (at_least (suc n) p ∷ ps) (x ∷ u) v w e h = elim (Bool-cases (p x)) [
  | inl k ↦
      more-in p ps x (u ++ w) n k
      ∙ accepts-local c (at_least n p ∷ ps) u v w e (sym (more-in p ps x (u ++ c ∷ v) n k) ∙ h)
  | inr k ↦ refuse (more-out p ps x (u ++ c ∷ v) n k) h
]
accepts-local c (at_least zero p ∷ ps) (x ∷ u) v w e h = elim (Bool-cases (p x)) [
  | inl k ↦
      run-in p ps x (u ++ w) k
      ∙ accepts-local c (at_least zero p ∷ ps) u v w e (sym (run-in p ps x (u ++ c ∷ v) k) ∙ h)
  | inr k ↦
      run-out p ps x (u ++ w) k
      ∙ accepts-local c ps (x ∷ u) v w e.1 (sym (run-out p ps x (u ++ c ∷ v) k) ∙ h)
]
