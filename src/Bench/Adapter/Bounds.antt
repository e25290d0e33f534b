-- ===== src/Bench/Adapter/Bounds.antt =====
-- internal/bench/adapter.go: how many results there are.
use yet_another_memory_bank.Common.{
  ℕ, ◌≤◌, String, List, [], arith, map, if_elim, not, blank, ◌==◌, length, length-map, length-take,
  take, fts5_unavailable, Outcome, ok, err, Ensures,
}
use yet_another_memory_bank.Common.Int.{ℤ, or_default, clamp_limit}
use yet_another_memory_bank.Bench.Adapter.{
  AdapterEnv, search_result, lexical_fallback, or_fallback, after_search, listed, adapter_search,
}
use yet_another_memory_bank.Store.Memories.{Memory}
use yet_another_memory_bank.Store.Rows.{Db}
use yet_another_memory_bank.Store.Text.{is_word, search_memories, scan_match, fts_query}

abbrev AtMost : {A : Type 0} → ℕ → List A → Type 0
AtMost n xs = length xs ≤ n

-- a list made of the first few of another
mapped-AtMost :
    {A B : Type 0} (f : A → B) (n m : ℕ) (xs : List A) → n ≤ m → AtMost m (map f (take n xs))
mapped-AtMost f n m xs h =
    let l = length-map f (take n xs) in let t = length-take n xs in omega arith

module _ (e : AdapterEnv) (db : Db) (project query : String) (limit : ℤ) where
  lexical_fallback-AtMost : AtMost (or_default limit 10) (lexical_fallback e db project query limit)
  unfolding lexical_fallback
  lexical_fallback-AtMost =
      mapped-AtMost _ (or_default limit 10) (or_default limit 10) _ (omega arith)

  search_memories-AtMost :
      Ensures
        (AtMost (or_default limit 10))
        (search_memories e.floats e.index db project query limit)
  unfolding search_memories clamp_limit
  search_memories-AtMost =
      let Few = λ (o : Outcome (List Memory)). Ensures (AtMost (or_default limit 10)) o in
      if_elim Few (not db.fts5) (err fts5_unavailable) _ tt (
        if_elim Few (blank (fts_query (is_word e.index) query)) (ok []) (ok _) (omega arith) (
          mapped-AtMost scan_match (clamp_limit limit 10 100) (or_default limit 10) _
            (ground arith)))

  or_fallback-AtMost :
      (memories : List Memory)
      → AtMost (or_default limit 10) memories
      → AtMost (or_default limit 10) (or_fallback e memories db project query limit)
  or_fallback-AtMost memories h =
      if_elim (AtMost (or_default limit 10)) (length memories == 0) _ memories
        lexical_fallback-AtMost h

  listed-AtMost :
      (o : Outcome (List Memory))
      → Ensures (AtMost (or_default limit 10)) o
      → Ensures (AtMost (or_default limit 10)) (listed e (after_search e o db project query limit))
  unfolding after_search
  listed-AtMost (ok memories) h =
      let l = length-map search_result (or_fallback e memories db project query limit) in
      let b = or_fallback-AtMost memories h in omega arith
  listed-AtMost (err fts5_unavailable) h =
      let found = lexical_fallback e db project query limit in
      let l = length-map search_result (or_fallback e found db project query limit) in
      let b = or_fallback-AtMost found lexical_fallback-AtMost in omega arith
  listed-AtMost (err _) h = tt

  -- The adapter gives at most `limit` results, or 10 where that is not positive.
  adapter_search-AtMost :
      Ensures
        (λ results. length results ≤ or_default limit 10)
        (adapter_search e db project query limit)
  unfolding adapter_search
  adapter_search-AtMost =
      listed-AtMost (search_memories e.floats e.index db project query limit) search_memories-AtMost
