-- ===== src/Search/Rrf.antt =====
-- internal/search/rrf.go: `FuseRRF`, reciprocal rank fusion of a lexical and a vector ranking.
-- The order in which Go ranges over the map `byID` is a parameter, a reordering of its keys.
pub mod Merged
pub mod Ordered
pub mod Capped
pub mod Scores
use yet_another_memory_bank.Common.{
  ℕ, suc, ◌+◌, String, Bool, ◌&&◌, not, List, [], ◌∷◌, map, ltb, leb, ◌==◌, if◌then◌else◌, str_eq,
  blank,
}
use yet_another_memory_bank.Common.Int.{ℤ, or_default}
use yet_another_memory_bank.Common.Sort.{slice_stable}
use yet_another_memory_bank.Floats.{Float64, FloatOps}

pub record Ranked : Type 0 where
  pub id : ℕ
  pub session_id : String
  pub score : Float64
  pub bm25_rank : ℕ
  pub vec_rank : ℕ

-- map[int64]Ranked
abbrev pub RankedMap : Type 0
RankedMap = List (ℕ × Ranked)

module _ (fl : FloatOps) where
  -- the zero value of `Ranked`
  abbrev pub no_rank : Ranked
  no_rank = record { id = 0; session_id = ""; score = fl.zero; bm25_rank = 0; vec_rank = 0 }

  -- byID[id]
  unfoldable pub entry : RankedMap → ℕ → Ranked
  entry [] id = no_rank
  entry ((key, item) ∷ m) id = if key == id then item else entry m id

-- byID[id] = item
unfoldable pub assign : RankedMap → ℕ → Ranked → RankedMap
assign [] id item = (id, item) ∷ []
assign ((key, old) ∷ m) id item =
    if key == id then (key, item) ∷ m else (key, old) ∷ assign m id item

-- the keys of the map
abbrev pub keys : RankedMap → List ℕ
keys = map (λ e. e.0)

module _ (fl : FloatOps) (rrf_k : ℕ) where
  -- the bodies of the two loops
  unfoldable pub merge_bm25 : ℕ → Ranked → Ranked → Ranked
  merge_bm25 rank item merged = record merged {
    id = item.id;
    session_id = item.session_id;
    bm25_rank = rank;
    score = fl.add merged.score (fl.recip (rrf_k + rank));
  }

  unfoldable pub merge_vector : ℕ → Ranked → Ranked → Ranked
  merge_vector rank item merged = record merged {
    id = item.id;
    session_id = if blank merged.session_id then item.session_id else merged.session_id;
    vec_rank = rank;
    score = fl.add merged.score (fl.recip (rrf_k + rank));
  }

-- for i, item := range items { … byID[item.ID] = merged }, from the index `i` on
unfoldable pub merge_all :
    FloatOps → (ℕ → Ranked → Ranked → Ranked) → ℕ → List Ranked → RankedMap → RankedMap
merge_all fl merge i [] m = m
merge_all fl merge i (item ∷ rest) m =
    merge_all fl merge (suc i) rest (assign m item.id (merge (suc i) item (entry fl m item.id)))

unfoldable pub merged_map : FloatOps → ℕ → List Ranked → List Ranked → RankedMap
merged_map fl rrf_k bm25 vector =
    merge_all fl (merge_vector fl rrf_k) 0 vector (merge_all fl (merge_bm25 fl rrf_k) 0 bm25 [])

-- the `less` of the sort: the greater score first, then the smaller id
unfoldable pub ranks_before : FloatOps → Ranked → Ranked → Bool
ranks_before fl a b = if fl.eq a.score b.score then ltb a.id b.id else fl.lt b.score a.score

-- perSession
abbrev pub Counts : Type 0
Counts = List (String × ℕ)

unfoldable pub count_of : Counts → String → ℕ
count_of [] s = 0
count_of ((key, n) ∷ c) s = if str_eq key s then n else count_of c s

unfoldable pub bump : Counts → String → Counts
bump [] s = (s, 1) ∷ []
bump ((key, n) ∷ c) s = if str_eq key s then (key, suc n) ∷ c else (key, n) ∷ bump c s

-- item.SessionID != "" && perSession[item.SessionID] >= maxPerSession
unfoldable pub is_capped : ℕ → Counts → Ranked → Bool
is_capped max_per_session counts item =
    not (blank item.session_id) && leb max_per_session (count_of counts item.session_id)

-- if item.SessionID != "" { perSession[item.SessionID]++ }
unfoldable pub count_session : Counts → Ranked → Counts
count_session counts item =
    if not (blank item.session_id) then bump counts item.session_id else counts

-- The last loop: `len` results are there, and `counts` is `perSession`.
unfoldable pub select : (final_k max_per_session len : ℕ) → Counts → List Ranked → List Ranked
select final_k max_per_session len counts [] = []
select final_k max_per_session len counts (item ∷ rest) =
    let skipped = select final_k max_per_session len counts rest in
    let more = select final_k max_per_session (suc len) (count_session counts item) rest in
    if is_capped max_per_session counts item
    then skipped
    else item ∷ (if leb final_k (suc len) then [] else more)

-- the items in the order that Go's range over the map gives them
unfoldable pub ranged : FloatOps → (List ℕ → List ℕ) → RankedMap → List Ranked
ranged fl order m = map (entry fl m) (order (keys m))

unfoldable pub fuse_rrf :
    FloatOps → (List ℕ → List ℕ) → List Ranked → List Ranked → ℤ → ℤ → ℤ → List Ranked
unfolding merged_map ranged
fuse_rrf fl order bm25 vector rrf_k final_k max_per_session =
    let m = merged_map fl (or_default rrf_k 60) bm25 vector in
    let items = slice_stable (ranks_before fl) (ranged fl order m) in
    select (or_default final_k 10) (or_default max_per_session 3) 0 [] items
