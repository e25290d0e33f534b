-- ===== src/Search/Rrf/Merged.antt =====
-- What the two loops of `FuseRRF` leave in the map `byID`.
use yet_another_memory_bank.Common.{
  ℕ, suc, ◌≡◌, refl, Bool, true, List, [], ◌∷◌, ◌++◌, arith, ◌==◌, if◌then◌else◌, All, All-imp,
  exists_where,
}
use yet_another_memory_bank.Floats.{FloatOps}
use yet_another_memory_bank.Search.Rrf.{
  Ranked, RankedMap, entry, assign, keys, merge_bm25, merge_vector, merge_all, merged_map,
}

-- _, ok := byID[id]
abbrev pub has_key : RankedMap → ℕ → Bool
has_key m id = exists_where (λ e. e.0 == id) m

pub entry-assign :
    (fl : FloatOps) (m : RankedMap) (i j : ℕ) (r : Ranked)
    → entry fl (assign m i r) j ≡ (if i == j then r else entry fl m j)
unfolding entry assign
entry-assign fl [] i j r = ground arith
entry-assign fl ((k, old) ∷ m) i j r = ground (arith, entry-assign fl m i j r)

keys-assign :
    (m : RankedMap) (i : ℕ) (r : Ranked)
    → keys (assign m i r) ≡ (if has_key m i then keys m else keys m ++ i ∷ [])
unfolding assign
keys-assign [] i r = refl
keys-assign ((k, old) ∷ m) i r = ground (arith, keys-assign m i r)

-- Each item is stored under its own id.
abbrev pub IsKeyed : RankedMap → Type 0
IsKeyed = All (λ e. e.1.id ≡ e.0)

assign-IsKeyed :
    (m : RankedMap) (i : ℕ) (r : Ranked) → r.id ≡ i → IsKeyed m → IsKeyed (assign m i r)
unfolding assign
assign-IsKeyed [] i r e h = (e, tt)
assign-IsKeyed ((k, old) ∷ m) i r e h = ground (arith, assign-IsKeyed m i r e h.1)

module _ (fl : FloatOps) where
  entry-id : (m : RankedMap) (i : ℕ) → IsKeyed m → has_key m i ≡ true → (entry fl m i).id ≡ i
  unfolding entry
  entry-id [] i h k = cc
  entry-id ((j, r) ∷ m) i h k = ground (arith, entry-id m i h.1)

keys-has_key : (m : RankedMap) → All (λ i. has_key m i ≡ true) (keys m)
keys-has_key [] = tt
keys-has_key ((j, r) ∷ m) =
    (ground arith, All-imp _ _ (λ i h. ground arith) (keys m) (keys-has_key m))

-- The merge of a loop keeps the id of its item.
abbrev KeepsId : (ℕ → Ranked → Ranked → Ranked) → Type 0
KeepsId merge = (rank : ℕ) (item old : Ranked) → (merge rank item old).id ≡ item.id

merge_all-IsKeyed :
    (fl : FloatOps) (merge : ℕ → Ranked → Ranked → Ranked)
    → KeepsId merge
    → (i : ℕ) (items : List Ranked) (m : RankedMap) → IsKeyed m
    → IsKeyed (merge_all fl merge i items m)
unfolding merge_all
merge_all-IsKeyed fl merge keeps i [] m h = h
merge_all-IsKeyed fl merge keeps i (item ∷ rest) m h =
    merge_all-IsKeyed fl merge keeps (suc i) rest _
      (assign-IsKeyed m item.id _ (keeps (suc i) item (entry fl m item.id)) h)

merge_bm25-KeepsId : (fl : FloatOps) (k : ℕ) → KeepsId (merge_bm25 fl k)
unfolding merge_bm25
merge_bm25-KeepsId fl k rank item old = refl

merge_vector-KeepsId : (fl : FloatOps) (k : ℕ) → KeepsId (merge_vector fl k)
unfolding merge_vector
merge_vector-KeepsId fl k rank item old = refl

module _ (fl : FloatOps) (k : ℕ) (bm25 vector : List Ranked) where
  pub merged_map-IsKeyed : IsKeyed (merged_map fl k bm25 vector)
  unfolding merged_map
  merged_map-IsKeyed =
      merge_all-IsKeyed fl _ (merge_vector-KeepsId fl k) 0 vector _
        (merge_all-IsKeyed fl _ (merge_bm25-KeepsId fl k) 0 bm25 [] tt)

  -- The entry of a key of the map has that key as its id.
  pub merged_map-ids :
      All
        (λ i. (entry fl (merged_map fl k bm25 vector) i).id ≡ i)
        (keys (merged_map fl k bm25 vector))
  merged_map-ids = All-imp _ _ (λ i h. entry-id fl _ i merged_map-IsKeyed h) _ (keys-has_key _)
