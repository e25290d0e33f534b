-- ===== src/Store/Text/Visible.antt =====
-- Which memories a text search finds.
use yet_another_memory_bank.Common.{
  ℕ, ◌≡◌, refl, inl, inr, String, true, ◌&&◌, not, Option, none, some, List, [], ◌∷◌, map, arith,
  if_elim, Bool-cases, str_eq, eq_iff, blank, rows_where, All, All-take, ok, err, Ensures,
  fts5_unavailable,
}
use yet_another_memory_bank.Common.Int.{ℤ}
use yet_another_memory_bank.Common.Sort.Laws.{All-slice_stable}
use yet_another_memory_bank.Floats.{Float64, FloatOps}
use yet_another_memory_bank.Store.Rows.{Db, MemoryRow}
use yet_another_memory_bank.Store.Memories.{Memory, is_active, is_given}
use yet_another_memory_bank.Store.Audit.{number_or_zero}
use yet_another_memory_bank.Store.Text.{
  is_word, TextIndex, fts_query, matches, matches_before, scan_match, search_memories,
}

-- A memory of the project that no other supersedes.
abbrev pub IsVisible : String → Memory → Type 0
IsVisible project m = (m.project ≡ project) × (m.superseded_by ≡ 0)

scan_match-IsVisible :
    (project : String) (r : MemoryRow × Float64)
    → (str_eq r.0.project project && is_active r.0) ≡ true
    → IsVisible project (scan_match r)
scan_match-IsVisible project r h =
    ((eq_iff r.0.project project).0 (ground arith), active r.0.superseded_by (ground arith))
  where
    active : (o : Option ℕ) → not (is_given o) ≡ true → number_or_zero o ≡ 0
    active none k = refl
    active (some t) k = cc

rows_where-IsVisible :
    (project : String) (rs : List (MemoryRow × Float64))
    → All
        (λ r. IsVisible project (scan_match r))
        (rows_where (λ r. str_eq r.0.project project && is_active r.0) rs)
rows_where-IsVisible project [] = tt
rows_where-IsVisible project (r ∷ rs) =
    elim (Bool-cases (str_eq r.0.project project && is_active r.0)) [
      | inl e ↦ rw e (scan_match-IsVisible project r e, rows_where-IsVisible project rs)
      | inr e ↦ rw e (rows_where-IsVisible project rs)
    ]

All-map_scan :
    (project : String) (rs : List (MemoryRow × Float64))
    → All (λ r. IsVisible project (scan_match r)) rs
    → All (IsVisible project) (map scan_match rs)
All-map_scan project [] h = tt
All-map_scan project (r ∷ rs) h = (h.0, All-map_scan project rs h.1)

-- The text search finds memories of the project only, and none that is superseded.
pub search_memories-IsVisible :
    (fl : FloatOps) (ix : TextIndex) (db : Db) (project text : String) (limit : ℤ)
    → Ensures (All (IsVisible project)) (search_memories fl ix db project text limit)
unfolding search_memories
search_memories-IsVisible fl ix db project text limit =
    if_elim (Ensures (All (IsVisible project))) (not db.fts5) (err fts5_unavailable) _ tt (
      if_elim (Ensures (All (IsVisible project))) (blank (fts_query (is_word ix) text)) (ok [])
        (ok _) tt
        (All-map_scan project _ (
          All-take _ _ _ (
            All-slice_stable (matches_before fl) _ _ (
              rows_where-IsVisible project (matches ix db (fts_query (is_word ix) text) db.fts))))))
