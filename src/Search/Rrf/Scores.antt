-- ===== src/Search/Rrf/Scores.antt =====
-- The fused score: a sum of reciprocal ranks.
use yet_another_memory_bank.Common.{
  ℕ, suc, ◌+◌, ◌≡◌, refl, ap, ◌∙◌, false, List, [], ◌∷◌, Option, none, some, arith, ◌==◌,
  if◌then◌else◌, exists_where,
}
use yet_another_memory_bank.Floats.{Float64, FloatOps}
use yet_another_memory_bank.Search.Rrf.{
  Ranked, RankedMap, no_rank, entry, assign, merge_bm25, merge_vector, merge_all, merged_map,
}
use yet_another_memory_bank.Search.Rrf.Merged.{entry-assign}

-- The item with an id, and its rank if the first item has the rank `i + 1`.
abbrev pub placed : ℕ → ℕ → List Ranked → Option (ℕ × Ranked)
placed i id [] = none
placed i id (item ∷ rest) = if item.id == id then some (suc i, item) else placed (suc i) id rest

-- No id occurs twice.
abbrev pub HasDistinctIds : List Ranked → Type 0
HasDistinctIds [] = Unit
HasDistinctIds (x ∷ xs) = (exists_where (λ y. y.id == x.id) xs ≡ false) × HasDistinctIds xs

placed-none :
    (i id : ℕ) (items : List Ranked)
    → exists_where (λ y. y.id == id) items ≡ false
    → placed i id items ≡ none
placed-none i id [] h = refl
placed-none i id (x ∷ xs) h = ground (arith, placed-none (suc i) id xs)

abbrev after_merge : (ℕ → Ranked → Ranked → Ranked) → Option (ℕ × Ranked) → Ranked → Ranked
after_merge merge none old = old
after_merge merge (some (rank, item)) old = merge rank item old

merge_all-entry :
    (fl : FloatOps) (merge : ℕ → Ranked → Ranked → Ranked) (i : ℕ) (items : List Ranked)
    (m : RankedMap) (j : ℕ)
    → HasDistinctIds items
    → entry fl (merge_all fl merge i items m) j
      ≡ after_merge merge (placed i j items) (entry fl m j)
unfolding merge_all
merge_all-entry fl merge i [] m j h = refl
merge_all-entry fl merge i (item ∷ rest) m j h =
    let m' = assign m item.id (merge (suc i) item (entry fl m item.id)) in
    ground (
      arith,
      merge_all-entry fl merge (suc i) rest m' j h.1,
      entry-assign fl m item.id j (merge (suc i) item (entry fl m item.id)),
      placed-none (suc i) item.id rest h.0,
    )

-- `score += 1 / float64(k + rank)`, if there is a rank
abbrev pub add_rank : FloatOps → ℕ → Float64 → Option (ℕ × Ranked) → Float64
add_rank fl k score none = score
add_rank fl k score (some (rank, item)) = fl.add score (fl.recip (k + rank))

abbrev pub rank_or_zero : Option (ℕ × Ranked) → ℕ
rank_or_zero none = 0
rank_or_zero (some (rank, item)) = rank

merged_map-entry :
    (fl : FloatOps) (k : ℕ) (bm25 vector : List Ranked) (id : ℕ)
    → HasDistinctIds bm25
    → HasDistinctIds vector
    → entry fl (merged_map fl k bm25 vector) id
      ≡ after_merge
          (merge_vector fl k)
          (placed 0 id vector)
          (after_merge (merge_bm25 fl k) (placed 0 id bm25) (no_rank fl))
unfolding merged_map entry
merged_map-entry fl k bm25 vector id hb hv =
    merge_all-entry fl (merge_vector fl k) 0 vector _ id hv
    ∙ ap (after_merge (merge_vector fl k) (placed 0 id vector))
        (merge_all-entry fl (merge_bm25 fl k) 0 bm25 [] id hb)

-- what the two merges make of the zero item
abbrev HasScore : FloatOps → ℕ → Option (ℕ × Ranked) → Option (ℕ × Ranked) → Ranked → Type 0
HasScore fl k p q r =
    (r.score ≡ add_rank fl k (add_rank fl k fl.zero p) q)
    × (r.bm25_rank ≡ rank_or_zero p)
    × (r.vec_rank ≡ rank_or_zero q)

after_merges-HasScore :
    (fl : FloatOps) (k : ℕ) (p q : Option (ℕ × Ranked))
    → HasScore fl k p q
        (after_merge (merge_vector fl k) q (after_merge (merge_bm25 fl k) p (no_rank fl)))
unfolding merge_bm25 merge_vector
after_merges-HasScore fl k none none = (refl, refl, refl)
after_merges-HasScore fl k none (some (n, v)) = (refl, refl, refl)
after_merges-HasScore fl k (some (n, b)) none = (refl, refl, refl)
after_merges-HasScore fl k (some (n, b)) (some (i, v)) = (refl, refl, refl)

-- If no id occurs twice in either ranking, the fused item of an id has its rank in each of the
-- two, 0 where it is missing, and for a score the sum of 1 / (rrfK + rank) over its ranks.
pub merged_map-score :
    (fl : FloatOps) (k : ℕ) (bm25 vector : List Ranked) (id : ℕ)
    → HasDistinctIds bm25
    → HasDistinctIds vector
    → ((entry fl (merged_map fl k bm25 vector) id).score
        ≡ add_rank fl k (add_rank fl k fl.zero (placed 0 id bm25)) (placed 0 id vector))
      × ((entry fl (merged_map fl k bm25 vector) id).bm25_rank ≡ rank_or_zero (placed 0 id bm25))
      × ((entry fl (merged_map fl k bm25 vector) id).vec_rank ≡ rank_or_zero (placed 0 id vector))
merged_map-score fl k bm25 vector id hb hv =
    rw (merged_map-entry fl k bm25 vector id hb hv)
      (after_merges-HasScore fl k (placed 0 id bm25) (placed 0 id vector))
