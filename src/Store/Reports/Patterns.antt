-- ===== src/Store/Reports/Patterns.antt =====
-- `Patterns` of internal/store/phase2_helpers.go, with `scanCounts`, `filesInPayload`, `isFileKey` and
-- `listProjectObservationPayloads` of mcp_helpers.go. A map of counts is the list of its entries.
use Prim.Native.Char.{Char}
use yet_another_memory_bank.Common.{
  ◌>>=◌, ℕ, suc, String, Bool, ◌&&◌, ◌||◌, not, Option, none, some, List, [], ◌∷◌, ◌++◌,
  if◌then◌else◌, ◌==◌, ltb, str_eq, blank, take, rows_where, exists_where, Outcome, ok,
}
use yet_another_memory_bank.Common.Int.{ℤ, clamp_limit}
use yet_another_memory_bank.Common.Sort.{slice_stable}
use yet_another_memory_bank.Common.Texts.{to_lower, has_suffix}
use yet_another_memory_bank.Common.Json.{
  Value, Items, Members, null, boolean, integer, float, string, array, object, end, item, empty,
  member,
}
use yet_another_memory_bank.Store.Rows.{Db, ObservationRow}
use yet_another_memory_bank.Store.Sessions.{text_lt}
use yet_another_memory_bank.Store.Observations.{Zstd, decode_payload, later_observation}

abbrev pub Counts : Type 0
Counts = List (String × ℕ)

-- counts[key]++
unfoldable pub tally : String → Counts → Counts
tally key [] = (key, 1) ∷ []
tally key ((k, n) ∷ rest) = if str_eq k key then (k, suc n) ∷ rest else (k, n) ∷ tally key rest

unfoldable pub tally_all : List String → Counts → Counts
unfolding tally
tally_all [] counts = counts
tally_all (key ∷ keys) counts = tally_all keys (tally key counts)

-- ORDER BY COUNT(*) DESC, key ASC
abbrev pub counts_before : String × ℕ → String × ℕ → Bool
counts_before a b = if a.1 == b.1 then text_lt a.0 b.0 else ltb b.1 a.1

-- SELECT key, COUNT(*) … GROUP BY key ORDER BY COUNT(*) DESC, key ASC LIMIT ?
unfoldable pub scan_counts : List String → ℕ → Counts
unfolding tally_all
scan_counts keys limit = take limit (slice_stable counts_before (tally_all keys []))

abbrev pub column {ℓ} : {A : Type ℓ} → (A → String) → List A → List String
column f [] = []
column f (x ∷ xs) = f x ∷ column f xs

unfoldable pub decode_all : Zstd → List ObservationRow → Outcome (List (List ℕ))
decode_all z [] = ok []
decode_all z (r ∷ rows) = do
  decoded ← decode_payload z r.payload r.payload_encoding
  rest ← decode_all z rows
  ok (decoded ∷ rest)

unfoldable pub list_project_observation_payloads : Zstd → Db → String → ℕ → Outcome (List (List ℕ))
unfolding decode_all
list_project_observation_payloads z db project limit = decode_all z (
    take limit
      (slice_stable later_observation (rows_where (λ o. str_eq o.cwd project) db.observations)))

unfoldable pub is_file_key : (Char → Char) → String → Bool
is_file_key lower key =
    let k = to_lower lower key in
    str_eq k "file"
    || str_eq k "filepath"
    || str_eq k "path"
    || has_suffix k "_file"
    || has_suffix k "_path"

-- A file that the walk meets, if it was not seen.
unfoldable pub meet : (Char → Char) → String → Value → List String → List String
unfolding is_file_key
meet lower key (string s) files =
    if is_file_key lower key && (not (blank s) && not (exists_where (λ f. str_eq f s) files))
    then files ++ s ∷ []
    else files
meet lower key null files = files
meet lower key (boolean b) files = files
meet lower key (integer n) files = files
meet lower key (float x) files = files
meet lower key (array xs) files = files
meet lower key (object ms) files = files

-- `walk`: Go ranges over the members of an object in any order, and the files of a payload come in
-- another order then.
unfoldable mutual
  unfolding meet

  pub walk : (Char → Char) → Value → List String → List String
  walk lower (object ms) files = walk_members lower ms files
  walk lower (array xs) files = walk_items lower xs files
  walk lower null files = files
  walk lower (boolean b) files = files
  walk lower (integer n) files = files
  walk lower (float x) files = files
  walk lower (string s) files = files

  pub walk_items : (Char → Char) → Items → List String → List String
  walk_items lower end files = files
  walk_items lower (item v xs) files = walk_items lower xs (walk lower v files)

  pub walk_members : (Char → Char) → Members → List String → List String
  walk_members lower empty files = files
  walk_members lower (member k v ms) files =
      walk_members lower ms (walk lower v (meet lower k v files))

unfoldable pub files_in_payload : (Char → Char) → (List ℕ → Option Value) → List ℕ → List String
files_in_payload lower parse payload = elim (parse payload) [ none ↦ [] | some v ↦ walk lower v [] ]

unfoldable pub tally_files :
    (Char → Char) → (List ℕ → Option Value) → List (List ℕ) → Counts → Counts
tally_files lower parse [] counts = counts
tally_files lower parse (p ∷ payloads) counts =
    tally_files lower parse payloads (tally_all (files_in_payload lower parse p) counts)

pub record PatternResult : Type 0 where
  pub top_tools : Counts
  pub top_kinds : Counts
  pub files : Counts

-- the tools of the project's observations that have one
abbrev pub project_tools : Db → String → List String
project_tools db project =
    column (λ o. o.tool)
      (rows_where (λ o. str_eq o.cwd project && not (blank o.tool)) db.observations)

unfoldable pub patterns :
    Zstd → (Char → Char) → (List ℕ → Option Value) → Db → String → ℤ → Outcome PatternResult
patterns z lower parse db project limit =
    let n = clamp_limit limit 10 100 in
    do
      payloads ← list_project_observation_payloads z db project 500
      ok (record {
        top_tools = scan_counts (project_tools db project) n;
        top_kinds =
            scan_counts
              (column (λ o. o.kind) (rows_where (λ o. str_eq o.cwd project) db.observations)) n;
        files = tally_files lower parse payloads [];
      })
