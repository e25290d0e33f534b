-- ===== src/Bench/Metrics/Hits.antt =====
-- internal/bench/metrics.go: how many hits there can be.
use yet_another_memory_bank.Common.{
  ℕ, zero, suc, ◌≤◌, String, true, false, ◌&&◌, not, List, [], ◌∷◌, if◌then◌else◌, str_eq, length,
  take, arith, inl, inr, ◌≡◌, refl, sym, Bool-cases, eq_iff,
}
use mathlib.Core.Path.{subst}
use yet_another_memory_bank.Common.Int.{ℤ, pos_part}
use yet_another_memory_bank.Bench.Metrics.{is_in, set, count_hits, hits_at}

-- how many ids of the gold were not seen
unfoldable unseen : List String → List String → ℕ
unseen seen [] = 0
unseen seen (g ∷ gold) = let rest = unseen seen gold in if is_in g seen then rest else suc rest

unseen_nil : (gold : List String) → unseen [] gold ≡ length gold
unfolding unseen
unseen_nil [] = refl
unseen_nil (g ∷ gold) = let h = unseen_nil gold in omega arith

unseen-more : (id : String) (seen gold : List String) → unseen (id ∷ seen) gold ≤ unseen seen gold
unfolding unseen
unseen-more id seen [] = omega arith
unseen-more id seen (g ∷ gold) = let h = unseen-more id seen gold in ground (arith, h)

-- An id of the gold that is seen for the first time is one less to see.
unseen-fresh :
    (id : String) (seen gold : List String)
    → is_in id gold ≡ true
    → is_in id seen ≡ false
    → suc (unseen (id ∷ seen) gold) ≤ unseen seen gold
unfolding unseen
unseen-fresh id seen [] h k = ground (arith, h)
unseen-fresh id seen (g ∷ gold) h k = elim (Bool-cases (str_eq g id)) [
  | inl e ↦
      let p = (eq_iff g id).0 e in
      let same = (eq_iff id g).1 (sym p) in
      let new = subst (λ x. is_in x seen ≡ false) (sym p) k in
      let more = unseen-more id seen gold in rw (same, new) (omega arith)
  | inr e ↦ let less = unseen-fresh id seen gold (ground (arith, h, e)) k in ground (arith, less)
]

count_hits-unseen : (gold seen ids : List String) → count_hits gold seen ids ≤ unseen seen gold
unfolding count_hits
count_hits-unseen gold seen [] = omega arith
count_hits-unseen gold seen (id ∷ ids) = elim (Bool-cases (is_in id gold && not (is_in id seen))) [
  | inl h ↦ rw h (
      let more = count_hits-unseen gold (id ∷ seen) ids in
      let fresh = unseen-fresh id seen gold (ground (arith, h)) (ground (arith, h)) in omega arith)
  | inr h ↦ rw h (count_hits-unseen gold seen ids)
]

count_hits-length : (gold seen ids : List String) → count_hits gold seen ids ≤ length ids
unfolding count_hits
count_hits-length gold seen [] = omega arith
count_hits-length gold seen (id ∷ ids) = elim (Bool-cases (is_in id gold && not (is_in id seen))) [
  | inl h ↦ rw h (let more = count_hits-length gold (id ∷ seen) ids in omega arith)
  | inr h ↦ rw h (let more = count_hits-length gold seen ids in omega arith)
]

length-take :
    (n : ℕ) (ids : List String) → (length (take n ids) ≤ n) × (length (take n ids) ≤ length ids)
length-take zero ids = (omega arith, omega arith)
length-take (suc n) [] = (omega arith, omega arith)
length-take (suc n) (id ∷ ids) = let h = length-take n ids in (omega arith, omega arith)

-- The hits among the first k ids are at most k, at most as many as the ids, and at most as many as the different
-- ids of the gold that are not empty.
hits_at-bounds :
    (ranked gold : List String) (k : ℤ)
    → (hits_at ranked gold k ≤ pos_part k)
      × ((hits_at ranked gold k ≤ length ranked) × (hits_at ranked gold k ≤ length (set gold)))
unfolding hits_at
hits_at-bounds ranked gold k =
    let l = length-take (pos_part k) ranked in
    let n = count_hits-length (set gold) [] (take (pos_part k) ranked) in
    let u = count_hits-unseen (set gold) [] (take (pos_part k) ranked) in
    let z = unseen_nil (set gold) in (omega arith, (omega arith, omega arith))
