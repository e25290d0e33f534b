-- ===== src/Secrets/Clean.antt =====
-- A redacted text holds no secret.
use mathlib.Core.Path.{subst}
use yet_another_memory_bank.Common.{
  ℕ, zero, suc, ◌-◌, ◌≡◌, refl, sym, ap, ◌∙◌, inl, inr, ◌⊎◌, false, none, some, List, [], ◌∷◌, ◌++◌,
  Bool-cases, Option-cases,
}
use yet_another_memory_bank.Secrets.{
  Pattern, matched, aws_key, github_token, json_web_token, mark, replace_all, redact,
}
use yet_another_memory_bank.Secrets.Local.{is_some, accepts, Excludes, accepts-local}

-- The pattern matches at no position of the text.
abbrev pub IsClean : Pattern → List ℕ → Type 0
IsClean q [] = accepts q [] ≡ false
IsClean q (x ∷ xs) = (accepts q (x ∷ xs) ≡ false) × IsClean q xs

-- The pattern matches at no position of the piece, before any rest.
abbrev Inert : Pattern → List ℕ → List ℕ → Type 0
Inert q [] r = Unit {0}
Inert q (x ∷ xs) r = (accepts q (x ∷ (xs ++ r)) ≡ false) × Inert q xs r

IsClean-append : (q : Pattern) (m r : List ℕ) → Inert q m r → IsClean q r → IsClean q (m ++ r)
IsClean-append q [] r i c = c
IsClean-append q (x ∷ m) r i c = (i.0, IsClean-append q m r i.1 c)

module _ (p : Pattern) (x : ℕ) (xs : List ℕ) where
  replace_all-none :
      matched p (x ∷ xs) ≡ none → replace_all p zero (x ∷ xs) ≡ x ∷ replace_all p zero xs
  unfolding replace_all
  replace_all-none e = rw (e, replace_all)

  replace_all-some :
      (n : ℕ)
      → matched p (x ∷ xs) ≡ some n
      → replace_all p zero (x ∷ xs) ≡ mark ++ replace_all p (n - 1) xs
  unfolding replace_all
  replace_all-some n e = rw (e, replace_all)

-- What a replacement starts with: all of the text, or a piece of it before a mark.
abbrev Begins : List ℕ → List ℕ → Type 0
Begins out xs =
    (out ≡ xs) ⊎ ((u : List ℕ) × (v : List ℕ) × (w : List ℕ) × (out ≡ u ++ 91 ∷ v) × (xs ≡ u ++ w))

Begins-cons : (x : ℕ) (out xs : List ℕ) → Begins out xs → Begins (x ∷ out) (x ∷ xs)
Begins-cons x out xs (inl k) = inl (ap (λ ys. x ∷ ys) k)
Begins-cons x out xs (inr (u, v, w, k, l)) =
    inr (x ∷ u, v, w, ap (λ ys. x ∷ ys) k, ap (λ ys. x ∷ ys) l)

replace_all-Begins : (p : Pattern) (xs : List ℕ) → Begins (replace_all p zero xs) xs
unfolding replace_all
replace_all-Begins p [] = inl refl
replace_all-Begins p (x ∷ xs) = elim (Option-cases (matched p (x ∷ xs))) [
  | inl e ↦ rw (replace_all-none p x xs e) (Begins-cons x _ xs (replace_all-Begins p xs))
  | inr (n, e) ↦ inr ([], _, x ∷ xs, replace_all-some p x xs n e, refl)
]

-- Where a pattern that the mark's first byte is excluded from does not match, it does not match after the
-- replacement of what follows.
refused-after :
    (p q : Pattern) (x : ℕ) (xs : List ℕ)
    → Excludes 91 q
    → accepts q (x ∷ xs) ≡ false
    → accepts q (x ∷ replace_all p zero xs) ≡ false
refused-after p q x xs e h = elim (replace_all-Begins p xs) [
  | inl k ↦ ap (λ ys. accepts q (x ∷ ys)) k ∙ h
  | inr (u, v, w, k, l) ↦ elim (Bool-cases (accepts q (x ∷ replace_all p zero xs))) [
    | inr f ↦ f
    | inl t ↦ cc (accepts-local 91 q (x ∷ u) v w e (ap (λ ys. accepts q (x ∷ ys)) (sym k) ∙ t))
  ]
]

-- Wherever `p` does not match, `q` does not.
abbrev Follows : Pattern → Pattern → List ℕ → Type 0
Follows p q [] = accepts q [] ≡ false
Follows p q (x ∷ xs) = (accepts p (x ∷ xs) ≡ false → accepts q (x ∷ xs) ≡ false) × Follows p q xs

Follows-refl : (p : Pattern) (xs : List ℕ) → accepts p [] ≡ false → Follows p p xs
Follows-refl p [] e = e
Follows-refl p (x ∷ xs) e = (λ h. h, Follows-refl p xs e)

Follows-IsClean : (p q : Pattern) (xs : List ℕ) → IsClean q xs → Follows p q xs
Follows-IsClean p q [] c = c
Follows-IsClean p q (x ∷ xs) c = (λ h. c.0, Follows-IsClean p q xs c.1)

replace_all-IsClean :
    (p q : Pattern) (k : ℕ) (xs : List ℕ)
    → ((r : List ℕ) → Inert q mark r)
    → Excludes 91 q
    → Follows p q xs
    → IsClean q (replace_all p k xs)
unfolding replace_all
replace_all-IsClean p q k [] i e f = f
replace_all-IsClean p q (suc k) (x ∷ xs) i e f = replace_all-IsClean p q k xs i e f.1
replace_all-IsClean p q zero (x ∷ xs) i e f = elim (Option-cases (matched p (x ∷ xs))) [
  | inl m ↦
      subst (IsClean q) (sym (replace_all-none p x xs m))
        (refused-after p q x xs e (f.0 (ap is_some m)), replace_all-IsClean p q zero xs i e f.1)
  | inr (n, m) ↦
      subst (IsClean q) (sym (replace_all-some p x xs n m))
        (IsClean-append q mark _ (i _) (replace_all-IsClean p q (n - 1) xs i e f.1))
]

-- What the patterns have in common: none takes part in the mark, and none matches the empty text.
record IsSecret (q : Pattern) : Type 0 where
  inert : (r : List ℕ) → Inert q mark r
  excludes : Excludes 91 q
  not_empty : accepts q [] ≡ false

aws_key-IsSecret : IsSecret aws_key
unfolding matched
aws_key-IsSecret = record {
  inert = λ r. (refl, (refl, (refl, (refl, (refl, (refl, (refl, (refl, (refl, (refl, tt))))))))));
  excludes = (refl, (refl, (refl, (refl, (refl, tt)))));
  not_empty = refl;
}

github_token-IsSecret : IsSecret github_token
unfolding matched
github_token-IsSecret = record {
  inert = λ r. (refl, (refl, (refl, (refl, (refl, (refl, (refl, (refl, (refl, (refl, tt))))))))));
  excludes = (refl, (refl, (refl, (refl, (refl, tt)))));
  not_empty = refl;
}

json_web_token-IsSecret : IsSecret json_web_token
unfolding matched
json_web_token-IsSecret = record {
  inert = λ r. (refl, (refl, (refl, (refl, (refl, (refl, (refl, (refl, (refl, (refl, tt))))))))));
  excludes = (refl, (refl, (refl, (refl, (refl, (refl, (refl, (refl, tt))))))));
  not_empty = refl;
}

replaced : (q : Pattern) (xs : List ℕ) → IsSecret q → IsClean q (replace_all q zero xs)
replaced q xs t = replace_all-IsClean q q zero xs t.inert t.excludes (Follows-refl q xs t.not_empty)

kept : (p q : Pattern) (xs : List ℕ) → IsSecret q → IsClean q xs → IsClean q (replace_all p zero xs)
kept p q xs t c = replace_all-IsClean p q zero xs t.inert t.excludes (Follows-IsClean p q xs c)

-- None of the three patterns matches anywhere in the text.
abbrev pub HasNoSecret : List ℕ → Type 0
HasNoSecret s = IsClean aws_key s × (IsClean github_token s × IsClean json_web_token s)

-- Wherever one looks in a redacted text, none of the three patterns matches there.
pub redact-HasNoSecret : (s : List ℕ) → HasNoSecret (redact s)
unfolding redact
redact-HasNoSecret s =
    let first = replace_all aws_key zero s in
    let second = replace_all github_token zero first in
    (
      kept json_web_token aws_key second aws_key-IsSecret
          (kept github_token aws_key first aws_key-IsSecret (replaced aws_key s aws_key-IsSecret)),
      (
        kept json_web_token github_token second github_token-IsSecret
            (replaced github_token first github_token-IsSecret),
        replaced json_web_token second json_web_token-IsSecret,
      ),
    )
