-- ===== src/Embed/Client/Dimension.antt =====
-- All vectors that a client of the embedding server returns have one length.
use mathlib.Core.Bool.{true≢false}
use mathlib.Core.Path.{subst}
use yet_another_memory_bank.Common.{
  ℕ, zero, suc, ◌≡◌, refl, sym, ap, ◌∙◌, ◌⊎◌, inl, inr, true, false, List, [], ◌∷◌, arith,
  if◌then◌else◌, if_elim, ◌==◌, ==_iff, leb, blank, length, Bool-cases, none, some, Outcome, ok,
  err, Ensures, Ensures-imp, if_split, no_url, embed_failed, wrong_dim,
}
use yet_another_memory_bank.Common.Int.{ℤ, pos, negsuc}
use yet_another_memory_bank.Embed.Client.{
  Client, Reply, unreachable, replied, positive_or, is_positive, current_dim, validate_dim, accept,
  embed, after_calls,
}

dimension-cases :
    (d : ℤ) (k : ℕ)
    → ((is_positive d ≡ true) × (positive_or d k ≡ positive_or d 0))
      ⊎ ((is_positive d ≡ false) × (positive_or d k ≡ k))
dimension-cases (pos (suc n)) k = inl (refl, refl)
dimension-cases (pos zero) k = inr (refl, refl)
dimension-cases (negsuc n) k = inr (refl, refl)

-- Once a dimension is known, a check passes exactly for it, and leaves the client as it is.
pub validate_dim-known :
    (c : Client) (dim : ℕ)
    → (current_dim c == 0) ≡ false
    → validate_dim c dim ≡ (if dim == current_dim c then ok c else err wrong_dim)
unfolding validate_dim current_dim
validate_dim-known c dim h = elim (dimension-cases c.dim c.detected_dim) [
  | inl e ↦ rw (e.0, e.1) (ground arith)
  | inr e ↦
      let unknown : (c.detected_dim == 0) ≡ false = ap (λ (k : ℕ). k == 0) (sym e.1) ∙ h in
      rw (e.0, e.1, unknown) (ground arith)
]

not_zero-of_positive : (d : ℤ) (k : ℕ) → is_positive d ≡ true → (positive_or d k == 0) ≡ false
not_zero-of_positive (pos (suc n)) k h = ground arith
not_zero-of_positive (pos zero) k h = cc
not_zero-of_positive (negsuc n) k h = cc

detected-of_not_positive : (d : ℤ) (k : ℕ) → is_positive d ≡ false → positive_or d k ≡ k
detected-of_not_positive (pos (suc n)) k h = cc
detected-of_not_positive (pos zero) k h = refl
detected-of_not_positive (negsuc n) k h = refl

-- Where none is known, the first check sets it.
pub validate_dim-first :
    (c : Client) (dim : ℕ)
    → (current_dim c == 0) ≡ true
    → Ensures (λ c'. current_dim c' ≡ dim) (validate_dim c dim)
unfolding validate_dim current_dim
validate_dim-first c dim h = elim (Bool-cases (is_positive c.dim)) [
  | inl e ↦
      let known = not_zero-of_positive c.dim c.detected_dim e in absurd (true≢false (sym h ∙ known))
  | inr e ↦
      let zero_now : (c.detected_dim == 0) ≡ true =
        ap (λ (k : ℕ). k == 0) (sym (detected-of_not_positive c.dim c.detected_dim e)) ∙ h in
      rw (e, zero_now) (detected-of_not_positive c.dim dim e)
]

-- What a check that passes leaves: the dimension checked is known, and is the one known before.
abbrev pub Checked : Client → ℕ → Client → Type 0
Checked c dim c' = (current_dim c' ≡ dim) × ((current_dim c == 0) ≡ false → current_dim c ≡ dim)

validate_dim-Checked : (c : Client) (dim : ℕ) → Ensures (Checked c dim) (validate_dim c dim)
validate_dim-Checked c dim = elim (Bool-cases (current_dim c == 0)) [
  | inl h ↦
      Ensures-imp _ _ (validate_dim c dim) (λ c' e. (e, λ n. absurd (true≢false (sym h ∙ n))))
        (validate_dim-first c dim h)
  | inr h ↦ rw (validate_dim-known c dim h) (
      if_split (Ensures (Checked c dim)) (dim == current_dim c) (ok c) (err wrong_dim)
        (λ e. (sym ((==_iff dim (current_dim c)).0 e), λ _. sym ((==_iff dim (current_dim c)).0 e)))
        (λ _. tt))
]

-- What a call returns, and what it leaves: with a vector, its length is the dimension that is known
-- from then on; the dimension known before stays.
abbrev pub Answered : Client → Outcome (List ℕ) × Client → Type 0
Answered c (ok vec, c') =
    (length vec ≡ current_dim c')
    × (((current_dim c' == 0) ≡ false)
        × ((current_dim c == 0) ≡ false → current_dim c' ≡ current_dim c))
Answered c (err e, c') = c' ≡ c

accept-Answered : (c : Client) (vec : List ℕ) → Answered c (accept c vec)
unfolding accept
accept-Answered c vec =
    if_split (Answered c) (length vec == 0) (err embed_failed, c) _ (λ _. refl)
      (λ n. go n (validate_dim c (length vec)) (validate_dim-Checked c (length vec)))
  where
    go :
        (length vec == 0) ≡ false
        → (m : Outcome Client) → Ensures (Checked c (length vec)) m
        → Answered c (elim m [ ok c' ↦ (ok vec, c') | err e ↦ (err e, c) ])
    go n (ok c') k = (sym k.0, (ap (λ (j : ℕ). j == 0) k.0 ∙ n, λ h. k.0 ∙ sym (k.1 h)))
    go n (err e) k = refl

pub embed-Answered : (c : Client) (r : Reply) → Answered c (embed c r)
unfolding embed
embed-Answered c unreachable = refl
embed-Answered c (replied status none) = refl
embed-Answered c (replied status (some vec)) =
    if_elim (Answered c) (blank c.url) (err no_url, c) _ refl
      (if_elim (Answered c) (leb 400 status) (err embed_failed, c) (accept c vec) refl
        (accept-Answered c vec))

current_dim-Answered :
    (c : Client) (m : Outcome (List ℕ)) (c' : Client)
    → Answered c (m, c')
    → (current_dim c == 0) ≡ false
    → current_dim c' ≡ current_dim c
current_dim-Answered c (ok vec) c' a h = a.1.1 h
current_dim-Answered c (err e) c' a h = ap current_dim a

after_calls-dim :
    (c : Client) (rs : List Reply)
    → (current_dim c == 0) ≡ false
    → current_dim (after_calls c rs) ≡ current_dim c
unfolding after_calls
after_calls-dim c [] h = refl
after_calls-dim c (r ∷ rs) h =
    let same = current_dim-Answered c (embed c r).0 (embed c r).1 (embed-Answered c r) h in
    after_calls-dim (embed c r).1 rs (ap (λ (k : ℕ). k == 0) same ∙ h) ∙ same

-- Two vectors that one client returns, with any calls between them, have the same length, which is
-- not 0.
pub embed-same_length :
    (c c₁ c₂ : Client) (first last : Reply) (between : List Reply) (vec vec' : List ℕ)
    → embed c first ≡ (ok vec, c₁)
    → embed (after_calls c₁ between) last ≡ (ok vec', c₂)
    → (length vec' ≡ length vec) × ((length vec == 0) ≡ false)
embed-same_length c c₁ c₂ first last between vec vec' e e' =
    (b.0 ∙ b.1.1 known ∙ kept ∙ sym a.0, ap (λ (k : ℕ). k == 0) a.0 ∙ a.1.0)
  where
    a : Answered c (ok vec, c₁)
    a = subst (Answered c) e (embed-Answered c first)

    kept : current_dim (after_calls c₁ between) ≡ current_dim c₁
    kept = after_calls-dim c₁ between (a.1.0)

    known : (current_dim (after_calls c₁ between) == 0) ≡ false
    known = ap (λ (k : ℕ). k == 0) kept ∙ a.1.0

    b : Answered (after_calls c₁ between) (ok vec', c₂)
    b = subst (Answered (after_calls c₁ between)) e' (embed-Answered (after_calls c₁ between) last)
