-- ===== src/Store/Text.antt =====
-- `SearchMemories` and `ftsQuery` of internal/store/memories.go. SQLite's FTS5 is a parameter, as
-- are Unicode's letters and digits.
pub mod Visible
use Prim.Native.Char.{Char, code}
use Prim.Native.String.{◌++◌ as append_text}
use yet_another_memory_bank.Common.{
  String, Bool, true, false, ◌&&◌, ◌||◌, not, Option, none, some, List, [], ◌∷◌, map, if◌then◌else◌,
  ◌==◌, str_eq, blank, take, rows_where, find, Outcome, ok, err, fts5_unavailable,
}
use yet_another_memory_bank.Common.Int.{ℤ, clamp_limit, lt_ℤ}
use yet_another_memory_bank.Common.Sort.{slice_stable}
use yet_another_memory_bank.Floats.{Float64, FloatOps}
use yet_another_memory_bank.Store.Rows.{Db, MemoryRow, FtsRow}
use yet_another_memory_bank.Store.Memories.{Memory, memory_id, scan_memory, is_active}

-- `bm25` of a row of the index for a query that the row matches; unicode.IsLetter and unicode.IsDigit.
pub record TextIndex : Type 0 where
  pub bm25 : List FtsRow → String → FtsRow → Option Float64
  pub is_letter : Char → Bool
  pub is_digit : Char → Bool

-- what the function that ftsQuery gives to strings.FieldsFunc does not hold of
unfoldable pub is_word : TextIndex → Char → Bool
is_word ix c = ix.is_letter c || ix.is_digit c || code c == 95

-- a token put before the others, if it is one
abbrev pub keep : String → List String → List String
keep t ts = if blank t then ts else t ∷ ts

-- the token that the text begins with, which may be empty, and the tokens after it
unfoldable pub split : (Char → Bool) → String → String × List String
split in_field String.[] = ("", [])
split in_field (String.◌∷◌ c s) =
    let rest = split in_field s in
    if in_field c then (String.◌∷◌ c rest.0, rest.1) else ("", keep rest.0 rest.1)

-- strings.FieldsFunc
unfoldable pub fields : (Char → Bool) → String → List String
fields in_field s = keep (split in_field s).0 (split in_field s).1

-- strings.ReplaceAll(token, `"`, `""`)
unfoldable pub double_quotes : String → String
double_quotes String.[] = ""
double_quotes (String.◌∷◌ c s) =
    if code c == 34
    then String.◌∷◌ c (String.◌∷◌ c (double_quotes s))
    else String.◌∷◌ c (double_quotes s)

abbrev pub quoted : String → String
quoted token = append_text "\"" (append_text (double_quotes token) "\"")

-- strings.Join(…, " ")
abbrev pub join : List String → String
join [] = ""
join (t ∷ []) = t
join (t ∷ u ∷ ts) = append_text t (append_text " " (join (u ∷ ts)))

unfoldable pub fts_query : (Char → Bool) → String → String
fts_query in_field query = join (map quoted (fields in_field query))

-- the rows that match, with their memories and scores
unfoldable pub matches : TextIndex → Db → String → List FtsRow → List (MemoryRow × Float64)
matches ix db query [] = []
matches ix db query (r ∷ rows) = elim (ix.bm25 db.fts query r) [
  | none ↦ matches ix db query rows
  | some score ↦ elim (find memory_id r.rowid db.memories) [
    | none ↦ matches ix db query rows
    | some m ↦ (m, score) ∷ matches ix db query rows
  ]
]

-- ORDER BY score, m.created_at DESC
abbrev pub matches_before : FloatOps → MemoryRow × Float64 → MemoryRow × Float64 → Bool
matches_before fl a b =
    if fl.lt a.1 b.1
    then true
    else if fl.lt b.1 a.1
    then false
    else lt_ℤ b.0.created_at a.0.created_at

abbrev pub scan_match : MemoryRow × Float64 → Memory
scan_match r = record (scan_memory r.0) { score = r.1 }

unfoldable pub search_memories :
    FloatOps → TextIndex → Db → String → String → ℤ → Outcome (List Memory)
search_memories fl ix db project text limit =
    let query = fts_query (is_word ix) text in
    if not db.fts5
    then err fts5_unavailable
    else if blank query
    then ok []
    else ok (
        map scan_match (
          take (clamp_limit limit 10 100) (
            slice_stable (matches_before fl) (
              rows_where (λ r. str_eq r.0.project project && is_active r.0)
                (matches ix db query db.fts)))))
