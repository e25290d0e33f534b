-- ===== src/Bench/Adapter.antt =====
-- internal/bench/adapter.go: the text search, with a search for common words where it finds nothing.
pub mod Bounds
use Prim.Native.Char.{Char}
use yet_another_memory_bank.Common.{
  ◌||◌, ℕ, zero, suc, ◌+◌, String, Bool, true, false, Option, none, some, List, [], ◌∷◌, map,
  if◌then◌else◌, ◌==◌, ltb, length, take, rows_where, Outcome, ok, err, fts5_unavailable,
}
use yet_another_memory_bank.Common.Int.{ℤ, pos, or_default}
use yet_another_memory_bank.Common.Sort.{slice_stable}
use yet_another_memory_bank.Common.Texts.{to_lower, has_prefix, trim_prefix, trim_space}
use yet_another_memory_bank.Bench.Metrics.{set, is_in}
use yet_another_memory_bank.Floats.{Float64, FloatOps}
use yet_another_memory_bank.Store.Memories.{Memory, recent_memories}
use yet_another_memory_bank.Store.Rows.{Db}
use yet_another_memory_bank.Store.Text.{TextIndex, fields, search_memories}

-- What the adapter uses from outside: the arithmetic, SQLite's index with the tests for letters and
-- digits, unicode.ToLower, and the conversion of an int to float64.
pub record AdapterEnv : Type 0 where
  pub floats : FloatOps
  pub index : TextIndex
  pub lower : Char → Char
  pub of_int : ℕ → Float64

pub record SearchResult : Type 0 where
  pub id : String
  pub text : String
  pub score : Float64

unfoldable pub memory_fixture_id : Memory → String
memory_fixture_id m =
    if has_prefix m.source "bench:"
    then trim_prefix m.source "bench:"
    else trim_prefix (trim_space m.text) "bench:"

abbrev pub search_result : Memory → SearchResult
search_result m = record { id = memory_fixture_id m; text = m.text; score = m.score }

-- the number of the tokens that are among others
unfoldable pub common : List String → List String → ℕ
common tokens [] = 0
common tokens (t ∷ ts) = if is_in t tokens then suc (common tokens ts) else common tokens ts

-- scored
abbrev pub Counted : Type 0
Counted = Memory × ℕ

abbrev pub counts_before : Counted → Counted → Bool
counts_before a b = if a.1 == b.1 then ltb a.0.id b.0.id else ltb b.1 a.1

module _ (e : AdapterEnv) where
  unfoldable pub token_set : String → List String
  unfolding set fields to_lower
  token_set text =
      set (fields (λ c. e.index.is_letter c || e.index.is_digit c) (to_lower e.lower text))

  -- the loop over the memories
  unfoldable pub scored_memories : List String → List Memory → List Counted
  unfolding token_set common
  scored_memories tokens [] = []
  scored_memories tokens (m ∷ ms) =
      let score = common (token_set m.text) tokens in
      let rest = scored_memories tokens ms in
      if ltb 0 score then (record m { score = e.of_int score }, score) ∷ rest else rest

  unfoldable pub lexical_fallback : Db → String → String → ℤ → List Memory
  unfolding scored_memories token_set
  lexical_fallback db project query limit =
      map (λ c. c.0)
        (take (or_default limit 10) (
          slice_stable counts_before
            (scored_memories (token_set query) (recent_memories db project (pos 1000)))))

  -- the memories, or those of the fallback where there is none
  abbrev pub or_fallback : List Memory → Db → String → String → ℤ → List Memory
  or_fallback memories db project query limit =
      if length memories == 0 then lexical_fallback db project query limit else memories

  -- for what the text search gives
  unfoldable pub after_search :
      Outcome (List Memory) → Db → String → String → ℤ → Outcome (List Memory)
  unfolding lexical_fallback
  after_search (ok memories) db project query limit =
      ok (or_fallback memories db project query limit)
  after_search (err fts5_unavailable) db project query limit =
      ok (or_fallback (lexical_fallback db project query limit) db project query limit)
  after_search (err x) db project query limit = err x

  abbrev pub listed : Outcome (List Memory) → Outcome (List SearchResult)
  listed (ok memories) = ok (map search_result memories)
  listed (err x) = err x

  -- `Search` of BM25Adapter
  unfoldable pub adapter_search : Db → String → String → ℤ → Outcome (List SearchResult)
  unfolding after_search memory_fixture_id
  adapter_search db project query limit = listed (
      after_search (search_memories e.floats e.index db project query limit) db project query limit)
