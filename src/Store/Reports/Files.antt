-- ===== src/Store/Reports/Files.antt =====
-- `FileHistory` of internal/store/phase2_helpers.go, with `normalizedFiles` and `containsAnyFile`.
-- `unicode.ToLower` and the conversion of bytes to a text are parameters.
pub mod Named
pub mod Collected
use Prim.Native.Char.{Char}
use yet_another_memory_bank.Common.{
  ◌>>=◌, ℕ, String, Bool, false, ◌&&◌, ◌||◌, not, List, [], ◌∷◌, ◌++◌, map, if◌then◌else◌, ◌==◌,
  leb, str_eq, blank, length, take, rows_where, exists_where, Outcome, ok,
}
use yet_another_memory_bank.Common.Int.{ℤ, clamp_limit}
use yet_another_memory_bank.Common.Sort.{slice_stable}
use yet_another_memory_bank.Common.Texts.{trim_space, to_lower, contains}
use yet_another_memory_bank.Store.Rows.{Db}
use yet_another_memory_bank.Store.Observations.{
  Zstd, Observation, scan_observations, later_observation,
}
use yet_another_memory_bank.Store.Memories.{Memory, scan_memory, is_active, later_memory}

pub record FileHistory : Type 0 where
  pub memories : List Memory
  pub observations : List Observation

-- the keys of `seen` are the texts of `out`
unfoldable pub normalized_from : (Char → Char) → List String → List String → List String
normalized_from lower out [] = out
normalized_from lower out (f ∷ files) =
    let file = to_lower lower (trim_space f) in
    normalized_from lower
      (if not (blank file) && not (exists_where (λ s. str_eq s file) out)
        then out ++ file ∷ []
        else out)
      files

abbrev pub normalized_files : (Char → Char) → List String → List String
normalized_files lower files = normalized_from lower [] files

unfoldable pub contains_any_file : (Char → Char) → String → List String → Bool
contains_any_file lower text files =
    exists_where (λ file. contains (to_lower lower text) file) files

-- The loop that appends what matches and ends with `limit` elements.
unfoldable pub collect {ℓ} : {A : Type ℓ} → (A → Bool) → ℕ → List A → List A → List A
collect p limit matched [] = matched
collect p limit matched (x ∷ xs) =
    let now = if p x then matched ++ x ∷ [] else matched in
    let rest = collect p limit now xs in if leb limit (length now) then now else rest

module _ (z : Zstd) (lower : Char → Char) (text : List ℕ → String) where
  -- from the test of `len(files)` on
  unfoldable pub history_of : Db → String → List String → ℕ → Outcome FileHistory
  unfolding collect contains_any_file
  history_of db project files limit =
      if length files == 0 then ok (record { memories = []; observations = [] }) else do
        observations ← scan_observations z (
            take 500 (
              slice_stable later_observation
                (rows_where (λ o. str_eq o.cwd project) db.observations)))
        ok (record {
          memories =
              collect (λ m. contains_any_file lower m.text files) limit []
                (map scan_memory (
                  take 500 (
                    slice_stable later_memory
                      (rows_where (λ m. str_eq m.project project && is_active m) db.memories))));
          observations =
              collect (λ o. contains_any_file lower (text o.payload_json) files) limit []
                observations;
        })

  unfoldable pub file_history : Db → String → List String → ℤ → Outcome FileHistory
  unfolding history_of normalized_from
  file_history db project files limit =
      history_of db project (normalized_files lower files) (clamp_limit limit 20 200)
