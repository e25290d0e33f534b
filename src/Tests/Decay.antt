-- ===== src/Tests/Decay.antt =====
-- Decay at concrete inputs. Importance is counted in percent here, and every day takes one off.
use yet_another_memory_bank.Common.{
  ℕ, ◌-◌, ◌/◌, ◌≡◌, refl, String, arith, true, false, none, [], ◌∷◌, ltb, leb, find, Ensures, is_ok,
}
use yet_another_memory_bank.Common.Int.{pos, pos_part}
use yet_another_memory_bank.Store.Rows.{Db, MemoryRow}
use yet_another_memory_bank.Store.Memories.{memory_id}
use yet_another_memory_bank.Store.Memories.Invariant.{MemoriesOk}
use yet_another_memory_bank.Store.Decay.{DecayOps, DecayOptions, decay_one, decay_memories}
use yet_another_memory_bank.Store.Decay.Lookup.{bind_row, survivor, decay_memories-find}
use yet_another_memory_bank.Store.Decay.Success.{decay_memories-is_ok}

abbrev pub percents : DecayOps
percents = record {
  of_int = pos_part;
  mul = λ a b. a - b;
  div = λ a b. a;
  neg = λ a. a;
  exp = λ a. a / 86400000;
  lt = ltb;
  le = leb;
}

abbrev pub options : DecayOptions
options = record { now = pos 864000000; tau_days = pos 30; min_importance = 50 }

abbrev rated : ℕ → String → ℕ → MemoryRow
rated id tier importance = record {
  id = id;
  project = "p";
  text = "t";
  tier = tier;
  source = "manual";
  importance = importance;
  session_id = none;
  created_at = pos 0;
  updated_at = pos 0;
  accessed_at = pos 0;
  superseded_by = none;
  access_cnt = 0;
}

-- the first stays, the second goes, the third stays as it is procedural
abbrev three_memories : Db
three_memories = record {
  sessions = [];
  observations = [];
  memories = rated 1 "fact" 100 ∷ rated 2 "fact" 55 ∷ rated 3 "Procedural" 20 ∷ [];
  embeddings = [];
  attempts = [];
  audit = [];
  imported = [];
  fts = [];
  fts5 = false;
  next_observation = 1;
  next_memory = 4;
  next_attempt = 1;
  next_audit = 1;
  next_imported = 1;
}

three_memories-MemoriesOk : MemoriesOk three_memories
three_memories-MemoriesOk = record {
  distinct = (refl, (refl, (refl, tt)));
  positive = omega arith;
  fresh = λ id h. ground arith;
  indexed = λ on id. ground arith;
  targets = (tt, (tt, (tt, tt)));
  embedded = tt;
}

decay_memories-find_example :
    Ensures
      (λ r.
        (find memory_id 2 r.1.memories
          ≡ bind_row (find memory_id 2 three_memories.memories) (survivor percents options))
        × MemoriesOk r.1)
      (decay_memories percents three_memories options)
decay_memories-find_example =
    decay_memories-find percents three_memories options 2 three_memories-MemoriesOk

decay_memories-is_ok_example : is_ok (decay_memories percents three_memories options) ≡ true
unfolding decay_one
decay_memories-is_ok_example =
    decay_memories-is_ok percents three_memories options
      ((λ _. refl), ((λ _. refl), ((λ _. refl), tt)))
