-- ===== src/Search/Rrf/Ordered.antt =====
-- The order of `FuseRRF`'s result, and its independence of the order of map iteration.
use mathlib.Core.List.{Perm}
use mathlib.Core.List.Perm
use yet_another_memory_bank.Common.{if_elim}
use text.Mathlib.TextEquality.{IsScalar-prop}
use yet_another_memory_bank.Common.{sym, ap, ◌∙◌, if◌then◌else◌}
use yet_another_memory_bank.Search.Rrf.Merged.{merged_map-ids}
use yet_another_memory_bank.Common.{
  ℕ, suc, ◌≡◌, Bool, false, List, [], ◌∷◌, map, arith, leb, All, All-imp, true, not, ◌&&◌, ◌||◌,
}
use yet_another_memory_bank.Common.Int.{ℤ, or_default}
use yet_another_memory_bank.Common.Sort.{IsWeakOrder, IsOrdered, slice_stable}
use yet_another_memory_bank.Common.Sort.Laws.{
  Separates, slice_stable-IsOrdered, slice_stable-eq_of_perm,
}
use yet_another_memory_bank.Floats.{FloatOps, IsFloatOrder}
use yet_another_memory_bank.Search.Rrf.{
  Ranked, RankedMap, Counts, entry, keys, merged_map, ranks_before, count_session, is_capped,
  select, ranged, fuse_rrf,
}

module _ (fl : FloatOps) (o : IsFloatOrder fl) where
  pub ranks_before-IsWeakOrder : IsWeakOrder (ranks_before fl)
  unfolding ranks_before
  ranks_before-IsWeakOrder = record {
    asym = λ a b h. ground (
      arith,
      o.ties a.score b.score,
      o.ties b.score a.score,
      o.asym a.score b.score,
      o.asym b.score a.score,
    );
    chain = λ a b c h k. ground (
      arith,
      o.ties a.score b.score,
      o.ties b.score a.score,
      o.ties b.score c.score,
      o.ties c.score b.score,
      o.ties a.score c.score,
      o.ties c.score a.score,
      o.asym a.score b.score,
      o.asym b.score a.score,
      o.asym a.score c.score,
      o.asym c.score a.score,
      o.asym b.score c.score,
      o.asym c.score b.score,
      o.chain a.score b.score c.score,
      o.chain c.score b.score a.score,
      o.chain b.score a.score c.score,
      o.chain b.score c.score a.score,
      o.chain a.score c.score b.score,
      o.chain c.score a.score b.score,
    );
  }

  -- two items that tie have the same id
  ties-id : (a b : Ranked) → ranks_before fl a b ≡ false → ranks_before fl b a ≡ false → a.id ≡ b.id
  unfolding ranks_before
  ties-id a b h k = ground (arith, o.ties a.score b.score, o.ties b.score a.score)

-- An item of the map, under its id.
abbrev IsEntry : FloatOps → RankedMap → Ranked → Type 0
IsEntry fl m r = entry fl m r.id ≡ r

entries-IsEntry :
    (fl : FloatOps) (m : RankedMap) (ids : List ℕ)
    → All (λ i. (entry fl m i).id ≡ i) ids
    → All (IsEntry fl m) (map (entry fl m) ids)
entries-IsEntry fl m [] h = tt
entries-IsEntry fl m (i ∷ ids) h = (ap (entry fl m) h.0, entries-IsEntry fl m ids h.1)

Ranked-set : IsSet Ranked
Ranked-set = hlevel IsScalar-prop

module _ (fl : FloatOps) (o : IsFloatOrder fl) (m : RankedMap) where
  IsEntry-Separates : Separates (ranks_before fl) (IsEntry fl m)
  IsEntry-Separates a b ea eb h k = sym ea ∙ ap (entry fl m) (ties-id fl o a b h k) ∙ eb

  sorted_irrel :
      (order : List ℕ → List ℕ)
      → ((ids : List ℕ) → Perm (order ids) ids)
      → All (λ i. (entry fl m i).id ≡ i) (keys m)
      → slice_stable (ranks_before fl) (map (entry fl m) (keys m))
        ≡ slice_stable (ranks_before fl) (ranged fl order m)
  unfolding ranged
  sorted_irrel order p h =
      slice_stable-eq_of_perm (ranks_before fl) (IsEntry fl m) (ranks_before-IsWeakOrder fl o)
        IsEntry-Separates Ranked-set (Perm.symm (Perm.map (entry fl m) (p (keys m))))
        (entries-IsEntry fl m (keys m) h)

-- The result of `FuseRRF` does not depend on the order in which Go ranges over its map: any two
-- orders of iteration give the same list, for all inputs and limits, if `<` on the scores is a
-- weak order whose ties are `==`.
pub fuse_rrf-order_irrel :
    (fl : FloatOps) (o : IsFloatOrder fl) (order order' : List ℕ → List ℕ)
    → ((ids : List ℕ) → Perm (order ids) ids)
    → ((ids : List ℕ) → Perm (order' ids) ids)
    → (bm25 vector : List Ranked) (rrf_k final_k max_per_session : ℤ)
    → fuse_rrf fl order bm25 vector rrf_k final_k max_per_session
      ≡ fuse_rrf fl order' bm25 vector rrf_k final_k max_per_session
unfolding fuse_rrf
fuse_rrf-order_irrel fl o order order' p p' bm25 vector rrf_k final_k max_per_session =
    ap (select (or_default final_k 10) (or_default max_per_session 3) 0 [])
      (sym (sorted_irrel fl o m order p ids) ∙ sorted_irrel fl o m order' p' ids)
  where
    m : RankedMap
    m = merged_map fl (or_default rrf_k 60) bm25 vector

    ids : All (λ i. (entry fl m i).id ≡ i) (keys m)
    ids = merged_map-ids fl (or_default rrf_k 60) bm25 vector

module _ {κ} (P : Ranked → Type κ) where
  pub All-select :
      (final_k max_per_session len : ℕ) (counts : Counts) (items : List Ranked)
      → All P items
      → All P (select final_k max_per_session len counts items)
  unfolding select
  All-select f s len counts [] h = tt
  All-select f s len counts (item ∷ rest) h =
      if_elim (All P) (is_capped s counts item) (select f s len counts rest)
        (item ∷ (if leb f (suc len) then [] else more)) (All-select f s len counts rest h.1)
        (h.0, if_elim (All P) (leb f (suc len)) [] more tt (All-select f s (suc len) _ rest h.1))
    where
      more : List Ranked
      more = select f s (suc len) (count_session counts item) rest

select-IsOrdered :
    (less : Ranked → Ranked → Bool) (final_k max_per_session len : ℕ) (counts : Counts)
    (items : List Ranked)
    → IsOrdered less items
    → IsOrdered less (select final_k max_per_session len counts items)
unfolding select
select-IsOrdered less f s len counts [] h = tt
select-IsOrdered less f s len counts (item ∷ rest) h =
    if_elim (IsOrdered less) (is_capped s counts item) (select f s len counts rest)
      (item ∷ (if leb f (suc len) then [] else more))
      (select-IsOrdered less f s len counts rest h.1)
      (if_elim (λ l. IsOrdered less (item ∷ l)) (leb f (suc len)) [] more (tt, tt)
        (All-select _ f s (suc len) _ rest h.0, select-IsOrdered less f s (suc len) _ rest h.1))
  where
    more : List Ranked
    more = select f s (suc len) (count_session counts item) rest

-- An item may stand before another: its score is not less, and where the scores are equal, its id is not greater.
abbrev pub may_precede : FloatOps → Ranked → Ranked → Bool
may_precede fl a b = not (fl.lt a.score b.score) && (not (fl.eq a.score b.score) || leb a.id b.id)

abbrev pub IsRanking : FloatOps → List Ranked → Type 0
IsRanking fl [] = Unit
IsRanking fl (a ∷ items) = All (λ b. may_precede fl a b ≡ true) items × IsRanking fl items

module _ (fl : FloatOps) (o : IsFloatOrder fl) where
  ranks_before-may_precede :
      (a b : Ranked) → ranks_before fl b a ≡ false → may_precede fl a b ≡ true
  unfolding ranks_before
  ranks_before-may_precede a b h = ground (arith, o.ties a.score b.score, o.ties b.score a.score)

  IsOrdered-IsRanking :
      (items : List Ranked) → IsOrdered (ranks_before fl) items → IsRanking fl items
  IsOrdered-IsRanking [] h = tt
  IsOrdered-IsRanking (a ∷ items) h = (
    All-imp (λ b. ranks_before fl b a ≡ false) (λ b. may_precede fl a b ≡ true)
        (ranks_before-may_precede a) items h.0,
    IsOrdered-IsRanking items h.1,
  )

-- Of two items that FuseRRF returns, the first has no lower score than the second, and no greater id if the scores are
-- equal, for scores whose comparisons are a linear order.
pub fuse_rrf-IsRanking :
    (fl : FloatOps) (o : IsFloatOrder fl) (order : List ℕ → List ℕ) (bm25 vector : List Ranked)
    (rrf_k final_k max_per_session : ℤ)
    → IsRanking fl (fuse_rrf fl order bm25 vector rrf_k final_k max_per_session)
unfolding fuse_rrf
fuse_rrf-IsRanking fl o order bm25 vector rrf_k final_k max_per_session =
    IsOrdered-IsRanking fl o _ (
      select-IsOrdered (ranks_before fl) _ _ 0 [] _
        (slice_stable-IsOrdered (ranks_before fl) (ranks_before-IsWeakOrder fl o) _))
