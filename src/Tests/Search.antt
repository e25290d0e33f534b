-- ===== src/Tests/Search.antt =====
-- internal/search at concrete inputs. Scores are counted in millionths here, so that the
-- operations on them compute.
use mathlib.Core.List.Perm
use mathlib.Core.List.{reverse, reverse_perm}
use yet_another_memory_bank.Common.{
  ℕ, ◌+◌, ◌/◌, ◌≤◌, ◌≡◌, refl, String, ◌&&◌, not, List, [], ◌∷◌, map, arith, ltb, length, take,
  count_where,
}
use yet_another_memory_bank.Common.Int.{pos}
use yet_another_memory_bank.Common.Sort.{insert, slice_stable}
use yet_another_memory_bank.Floats.{FloatOps, IsFloatOrder}
use yet_another_memory_bank.Search.Rrf.{
  Ranked, entry, assign, merge_all, merge_bm25, merge_vector, merged_map, ranks_before, is_capped,
  count_session, count_of, bump, select, ranged, fuse_rrf,
}
use yet_another_memory_bank.Search.Rrf.Ordered.{IsRanking, fuse_rrf-order_irrel, fuse_rrf-IsRanking}
use yet_another_memory_bank.Search.Rrf.Capped.{
  of_session, first_of_sessions, ranked_items, fuse_rrf-eq-take, fuse_rrf-bounds,
}
use yet_another_memory_bank.Search.Rrf.Scores.{merged_map-score}

abbrev pub millionths : FloatOps
millionths = record {
  zero = 0;
  add = λ a b. a + b;
  recip = λ n. 1000000 / n;
  lt = ltb;
  eq = λ a b. not (ltb a b) && not (ltb b a);
}

millionths-order : IsFloatOrder millionths
millionths-order = record {
  asym = λ a b h. ground arith;
  chain = λ a b c h k. ground arith;
  ties = λ a b. refl;
}

abbrev item : ℕ → String → Ranked
item id session = record { id = id; session_id = session; score = 0; bm25_rank = 0; vec_rank = 0 }

abbrev lexical : List Ranked
lexical = item 1 "a" ∷ item 2 "a" ∷ item 3 "" ∷ []

abbrev semantic : List Ranked
semantic = item 3 "" ∷ item 4 "a" ∷ []

abbrev ids : List Ranked → List ℕ
ids = map (λ r. r.id)

fuse_rrf_run :
    ids (fuse_rrf millionths (λ l. l) lexical semantic (pos 60) (pos 10) (pos 2)) ≡ 3 ∷ 1 ∷ 2 ∷ []
unfolding fuse_rrf merged_map entry merge_all merge_bm25 merge_vector assign select is_capped
    count_session count_of bump slice_stable insert ranks_before ranged
fuse_rrf_run = refl

fuse_rrf-order_irrel_example :
    fuse_rrf millionths (λ l. l) lexical semantic (pos 60) (pos 10) (pos 2)
    ≡ fuse_rrf millionths reverse lexical semantic (pos 60) (pos 10) (pos 2)
fuse_rrf-order_irrel_example =
    fuse_rrf-order_irrel millionths millionths-order (λ l. l) reverse (λ l. Perm.refl l)
      reverse_perm lexical semantic (pos 60) (pos 10) (pos 2)

fuse_rrf-IsRanking_example :
    IsRanking millionths (fuse_rrf millionths reverse lexical semantic (pos 60) (pos 10) (pos 2))
fuse_rrf-IsRanking_example =
    fuse_rrf-IsRanking millionths millionths-order reverse lexical semantic (pos 60) (pos 10)
      (pos 2)

fuse_rrf-eq-take_example :
    fuse_rrf millionths reverse lexical semantic (pos 60) (pos 10) (pos 2)
    ≡ take 10 (
        first_of_sessions 2 []
          (ranked_items millionths reverse lexical semantic (pos 60) (pos 10) (pos 2)))
fuse_rrf-eq-take_example =
    fuse_rrf-eq-take millionths reverse lexical semantic (pos 60) (pos 10) (pos 2)

fuse_rrf-bounds_example :
    (length (fuse_rrf millionths reverse lexical semantic (pos 60) (pos 10) (pos 2)) ≤ 10)
    × (count_where
          (of_session "a")
          (fuse_rrf millionths reverse lexical semantic (pos 60) (pos 10) (pos 2))
        ≤ 2)
fuse_rrf-bounds_example =
    fuse_rrf-bounds millionths reverse lexical semantic (pos 60) (pos 10) (pos 2) "a" refl

merged_map-score_example :
    ((entry millionths (merged_map millionths 60 lexical semantic) 3).score
      ≡ 1000000 / 63 + 1000000 / 61)
    × ((entry millionths (merged_map millionths 60 lexical semantic) 3).bm25_rank ≡ 3)
    × ((entry millionths (merged_map millionths 60 lexical semantic) 3).vec_rank ≡ 1)
merged_map-score_example =
    merged_map-score millionths 60 lexical semantic 3 (refl, (refl, (refl, tt))) (refl, (refl, tt))
