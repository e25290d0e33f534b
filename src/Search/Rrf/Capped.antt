-- ===== src/Search/Rrf/Capped.antt =====
-- The last loop of `FuseRRF` against its specification: a pass that caps every session, and then
-- the first `finalK` of what is left.
use yet_another_memory_bank.Common.{
  ℕ, zero, suc, ◌-◌, ◌≤◌, ◌<◌, min, ◌≡◌, refl, ap, ◌∙◌, inl, inr, String, Bool, true, false, List,
  [], ◌∷◌, arith, leb, if◌then◌else◌, str_eq, eq_iff, blank, length, take, ltb, ◌||◌, not,
  length-take, count_where, Bool-cases,
}
use yet_another_memory_bank.Common.Int.{ℤ, or_default}
use yet_another_memory_bank.Common.Sort.{slice_stable}
use yet_another_memory_bank.Floats.{FloatOps}
use yet_another_memory_bank.Search.Rrf.{
  Ranked, Counts, merged_map, ranks_before, count_of, bump, is_capped, count_session, select,
  ranged, fuse_rrf,
}

-- Every item is kept whose session has had fewer than `max_per_session` items kept before it.
abbrev cap_sessions : ℕ → Counts → List Ranked → List Ranked
cap_sessions max_per_session counts [] = []
cap_sessions max_per_session counts (item ∷ rest) =
    let skipped = cap_sessions max_per_session counts rest in
    let kept = cap_sessions max_per_session (count_session counts item) rest in
    if is_capped max_per_session counts item then skipped else item ∷ kept

select-eq-take :
    (f s len : ℕ) (counts : Counts) (items : List Ranked)
    → len < f
    → select f s len counts items ≡ take (f - len) (cap_sessions s counts items)
unfolding select
select-eq-take f s len counts [] h = let e : f - len ≡ suc (f - suc len) = omega arith in rw e refl
select-eq-take f s len counts (item ∷ rest) h =
    let e : f - len ≡ suc (f - suc len) = omega arith in
    elim (Bool-cases (is_capped s counts item)) [
      | inl c ↦ rw c (select-eq-take f s len counts rest h)
      | inr c ↦
          rw (c, e)
            (elim (Bool-cases (leb f (suc len))) [
              | inl d ↦ rw d (let z : f - suc len ≡ 0 = ground arith in rw z refl)
              | inr d ↦ rw d (ap (◌∷◌ item) (select-eq-take f s (suc len) _ rest (ground arith)))
            ])
    ]

count_of-bump :
    (c : Counts) (s t : String)
    → count_of (bump c s) t ≡ (if str_eq s t then suc (count_of c t) else count_of c t)
unfolding count_of bump
count_of-bump [] s t = refl
count_of-bump ((k, n) ∷ c) s t =
    ground (arith, eq_iff k s, eq_iff k t, eq_iff s t, count_of-bump c s t)

-- the items of a session
abbrev pub of_session : String → Ranked → Bool
of_session s item = str_eq item.session_id s

-- Of a named session exactly as many items are kept as its cap has room for.
cap_sessions-count :
    (s : String)
    → blank s ≡ false
    → (m : ℕ) (counts : Counts) (items : List Ranked)
    → count_where (of_session s) (cap_sessions m counts items)
      ≡ min (m - count_of counts s) (count_where (of_session s) items)
unfolding is_capped count_session
cap_sessions-count s n m counts [] = omega arith
cap_sessions-count s n m counts (item ∷ rest) = ground (
  arith,
  cap_sessions-count s n m counts rest,
  cap_sessions-count s n m (bump counts item.session_id) rest,
  count_of-bump counts item.session_id s,
  eq_iff item.session_id s,
  eq_iff item.session_id "",
  eq_iff s "",
)

-- The items that may stay: those without a session, and those with fewer than `m` items of their session among the items
-- before them, kept or not; `before` has those before the list.
abbrev pub first_of_sessions : ℕ → List Ranked → List Ranked → List Ranked
first_of_sessions m before [] = []
first_of_sessions m before (item ∷ rest) =
    let later = first_of_sessions m (item ∷ before) rest in
    if blank item.session_id || ltb (count_where (of_session item.session_id) before) m
    then item ∷ later
    else later

-- The counts are those of the items before, up to the cap.
Counted : ℕ → Counts → List Ranked → Type 0
Counted m counts before =
    (s : String)
    → count_of counts s ≡ (if blank s then 0 else min m (count_where (of_session s) before))

module _ (m : ℕ) (counts : Counts) (before : List Ranked) (item : Ranked)
    (h : Counted m counts before) where
  Counted-kept :
      is_capped m counts item ≡ false → Counted m (count_session counts item) (item ∷ before)
  unfolding Counted is_capped count_session
  Counted-kept k s = ground (
    arith,
    k,
    h s,
    h item.session_id,
    count_of-bump counts item.session_id s,
    eq_iff item.session_id s,
    eq_iff item.session_id "",
    eq_iff s "",
  )

  Counted-skipped : is_capped m counts item ≡ true → Counted m counts (item ∷ before)
  unfolding Counted is_capped
  Counted-skipped k s = ground (
    arith,
    k,
    h s,
    h item.session_id,
    eq_iff item.session_id s,
    eq_iff item.session_id "",
    eq_iff s "",
  )

  may_stay-eq :
      (blank item.session_id || ltb (count_where (of_session item.session_id) before) m)
      ≡ not (is_capped m counts item)
  unfolding Counted is_capped
  may_stay-eq = ground (arith, h item.session_id, eq_iff item.session_id "")

cap_sessions-eq :
    (m : ℕ) (counts : Counts) (before items : List Ranked)
    → Counted m counts before
    → cap_sessions m counts items ≡ first_of_sessions m before items
cap_sessions-eq m counts before [] h = refl
cap_sessions-eq m counts before (item ∷ rest) h =
    let same = may_stay-eq m counts before item h in
    elim (Bool-cases (is_capped m counts item)) [
      | inl k ↦
          rw (same, k)
            (cap_sessions-eq m counts (item ∷ before) rest
              (Counted-skipped m counts before item h k))
      | inr k ↦
          rw (same, k)
            (ap (◌∷◌ item) (
              cap_sessions-eq m (count_session counts item) (item ∷ before) rest
                (Counted-kept m counts before item h k)))
    ]

-- Items without a session are all kept.
cap_sessions-blank :
    (m : ℕ) (counts : Counts) (items : List Ranked)
    → count_where (of_session "") (cap_sessions m counts items) ≡ count_where (of_session "") items
unfolding is_capped count_session
cap_sessions-blank m counts [] = refl
cap_sessions-blank m counts (item ∷ rest) = ground (
  arith,
  cap_sessions-blank m counts rest,
  cap_sessions-blank m (bump counts item.session_id) rest,
)

count_where-take :
    (p : Ranked → Bool) (n : ℕ) (items : List Ranked)
    → count_where p (take n items) ≤ count_where p items
count_where-take p zero items = omega arith
count_where-take p (suc n) [] = omega arith
count_where-take p (suc n) (x ∷ xs) = ground (arith, count_where-take p n xs)

none_counted : (m : ℕ) → Counted m [] []
unfolding Counted count_of
none_counted m s = ground arith

or_default-pos : (n : ℤ) (d : ℕ) → 0 < d → 0 < or_default n d
or_default-pos n d h = ground arith

module _ (fl : FloatOps) (order : List ℕ → List ℕ) (bm25 vector : List Ranked)
    (rrf_k final_k max_per_session : ℤ) where
  -- the fused items in their order, before the last loop
  abbrev pub ranked_items : List Ranked
  ranked_items =
      slice_stable (ranks_before fl)
        (ranged fl order (merged_map fl (or_default rrf_k 60) bm25 vector))

  fuse_rrf-capped :
      fuse_rrf fl order bm25 vector rrf_k final_k max_per_session
      ≡ take (or_default final_k 10) (cap_sessions (or_default max_per_session 3) [] ranked_items)
  unfolding fuse_rrf
  fuse_rrf-capped =
      select-eq-take (or_default final_k 10) (or_default max_per_session 3) 0 [] _
        (or_default-pos final_k 10 (omega arith))
      ∙ ap (λ n. take n (cap_sessions (or_default max_per_session 3) [] ranked_items)) (omega arith)

  -- FuseRRF returns the first finalK items, by default 10, of those ranked items that have no session, or before which
  -- fewer than maxPerSession ranked items, by default 3, are of their session.
  pub fuse_rrf-eq-take :
      fuse_rrf fl order bm25 vector rrf_k final_k max_per_session
      ≡ take
          (or_default final_k 10)
          (first_of_sessions (or_default max_per_session 3) [] ranked_items)
  fuse_rrf-eq-take =
      fuse_rrf-capped
      ∙ ap (take (or_default final_k 10)) (
          cap_sessions-eq (or_default max_per_session 3) [] [] ranked_items
            (none_counted (or_default max_per_session 3)))

  pub fuse_rrf-length :
      length (fuse_rrf fl order bm25 vector rrf_k final_k max_per_session) ≤ or_default final_k 10
  fuse_rrf-length = rw fuse_rrf-capped (
      omega (
        arith,
        length-take (or_default final_k 10)
            (cap_sessions (or_default max_per_session 3) [] ranked_items),
      ))

  -- The result holds at most `finalK` items, and at most `maxPerSession` of a named session,
  -- whatever the inputs, with the defaults 10 and 3 for limits that are not positive.
  pub fuse_rrf-bounds :
      (s : String)
      → blank s ≡ false
      → (length (fuse_rrf fl order bm25 vector rrf_k final_k max_per_session)
          ≤ or_default final_k 10)
        × (count_where (of_session s) (fuse_rrf fl order bm25 vector rrf_k final_k max_per_session)
            ≤ or_default max_per_session 3)
  fuse_rrf-bounds s n = rw fuse_rrf-capped (
    omega (
      arith,
      length-take (or_default final_k 10)
          (cap_sessions (or_default max_per_session 3) [] ranked_items),
    ),
    omega (
      arith,
      count_where-take (of_session s) (or_default final_k 10)
          (cap_sessions (or_default max_per_session 3) [] ranked_items),
      cap_sessions-count s n (or_default max_per_session 3) [] ranked_items,
    ),
  )
