-- ===== src/Store/Reports/Profiles.antt =====
-- `ProjectProfile`, `ProjectProfiles` and `Status` of internal/store/mcp_helpers.go.
use Prim.Native.Char.{Char}
use yet_another_memory_bank.Common.{
  ◌>>=◌, ℕ, String, ◌&&◌, Option, List, [], ◌∷◌, str_eq, length, rows_where, count_where, Outcome,
  ok,
}
use yet_another_memory_bank.Common.Json.{Value}
use yet_another_memory_bank.Common.Sort.{slice_stable}
use yet_another_memory_bank.Store.Rows.{Db, MemoryRow}
use yet_another_memory_bank.Store.Sessions.{text_lt}
use yet_another_memory_bank.Store.Observations.{Zstd}
use yet_another_memory_bank.Store.Memories.{is_active}
use yet_another_memory_bank.Store.Reports.Patterns.{
  Counts, column, tally_all, scan_counts, project_tools, list_project_observation_payloads,
  tally_files,
}

pub record ProjectProfile : Type 0 where
  pub project : String
  pub memory_count : ℕ
  pub session_count : ℕ
  pub observation_count : ℕ
  pub top_tiers : Counts
  pub top_tools : Counts
  pub files_touched : Counts

abbrev pub active_memories : Db → String → List MemoryRow
active_memories db project = rows_where (λ m. str_eq m.project project && is_active m) db.memories

module _ (z : Zstd) (lower : Char → Char) (parse : List ℕ → Option Value) (db : Db) where
  unfoldable pub project_profile : String → Outcome ProjectProfile
  project_profile project = do
    payloads ← list_project_observation_payloads z db project 200
    ok (record {
      project = project;
      memory_count = length (active_memories db project);
      session_count = count_where (λ s. str_eq s.project project) db.sessions;
      observation_count = count_where (λ o. str_eq o.cwd project) db.observations;
      top_tiers = scan_counts (column (λ m. m.tier) (active_memories db project)) 10;
      top_tools = scan_counts (project_tools db project) 10;
      files_touched = tally_files lower parse payloads [];
    })

  unfoldable pub profiles_of : List String → Outcome (List ProjectProfile)
  profiles_of [] = ok []
  profiles_of (p ∷ projects) = do
    profile ← project_profile p
    rest ← profiles_of projects
    ok (profile ∷ rest)

  -- GROUP BY project ORDER BY project ASC
  unfoldable pub project_profiles : Outcome (List ProjectProfile)
  unfolding profiles_of
  project_profiles = profiles_of (
      column (λ g. g.0)
        (slice_stable (λ a b. text_lt a.0 b.0)
          (tally_all (column (λ m. m.project) (rows_where is_active db.memories)) [])))

pub record StatusCounts : Type 0 where
  pub memory_count : ℕ
  pub session_count : ℕ
  pub observation_count : ℕ

unfoldable pub status : Db → StatusCounts
status db = record {
  memory_count = count_where is_active db.memories;
  session_count = length db.sessions;
  observation_count = length db.observations;
}
