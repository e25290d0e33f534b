-- ===== src/Store/Decay.antt =====
-- `DecayMemories` of internal/store/compaction.go. The arithmetic on float64 is a parameter.
pub mod Kept
pub mod Lookup
pub mod Success
use Prim.Native.Char.{code}
use yet_another_memory_bank.Common.{
  ◌>>=◌, ℕ, ◌+◌, String, Bool, true, false, ◌&&◌, not, List, [], ◌∷◌, map, if◌then◌else◌, ◌==◌, ltb,
  leb, update_where, Outcome, ok,
}
use yet_another_memory_bank.Common.Int.{ℤ, pos, or_default, ◌-ℤ◌}
use yet_another_memory_bank.Common.Sort.{slice_stable}
use yet_another_memory_bank.Floats.{Float64}
use yet_another_memory_bank.Store.Rows.{Db, MemoryRow}
use yet_another_memory_bank.Store.Memories.{memory_id}
use yet_another_memory_bank.Store.Removal.{delete_memory}

-- The operations on float64 that the decay uses, with math.Exp.
pub record DecayOps : Type 0 where
  pub of_int : ℤ → Float64
  pub mul : Float64 → Float64 → Float64
  pub div : Float64 → Float64 → Float64
  pub neg : Float64 → Float64
  pub exp : Float64 → Float64
  pub lt : Float64 → Float64 → Bool
  pub le : Float64 → Float64 → Bool

pub record DecayOptions : Type 0 where
  pub now : ℤ
  pub tau_days : ℤ
  pub min_importance : Float64

-- strings.ToLower on one character's number: letters outside ASCII do not become letters of
-- "procedural", so they stay
abbrev pub lower_code : ℕ → ℕ
lower_code n = if leb 65 n && leb n 90 then n + 32 else n

-- strings.ToLower(s) == t, for a `t` in lower case
abbrev pub lower_is : String → String → Bool
lower_is String.[] String.[] = true
lower_is String.[] (String.◌∷◌ d t) = false
lower_is (String.◌∷◌ c s) String.[] = false
lower_is (String.◌∷◌ c s) (String.◌∷◌ d t) = (lower_code (code c) == code d) && lower_is s t

abbrev pub is_procedural : MemoryRow → Bool
is_procedural m = lower_is m.tier "procedural"

-- `decayed`
pub record Decayed : Type 0 where
  pub id : ℕ
  pub importance : Float64
  pub delete : Bool

module _ (fl : DecayOps) where
  -- the default 0.05 by its bits
  abbrev pub min_importance_of : DecayOptions → Float64
  min_importance_of opts =
      if fl.le opts.min_importance 0 then 4587366580439587226 else opts.min_importance

  -- float64(opts.TauDays) * 24 * 60 * 60 * 1000
  abbrev pub tau_millis : DecayOptions → Float64
  tau_millis opts =
      fl.mul
        (fl.mul
          (fl.mul (fl.mul (fl.of_int (pos (or_default opts.tau_days 30))) (fl.of_int (pos 24)))
            (fl.of_int (pos 60)))
          (fl.of_int (pos 60)))
        (fl.of_int (pos 1000))

  abbrev pub age_of : DecayOptions → MemoryRow → Float64
  age_of opts m = let age = fl.of_int (opts.now -ℤ m.accessed_at) in if fl.lt age 0 then 0 else age

  unfoldable pub decayed_importance : DecayOptions → MemoryRow → Float64
  decayed_importance opts m =
      fl.mul m.importance (fl.exp (fl.div (fl.neg (age_of opts m)) (tau_millis opts)))

  unfoldable pub decay_one : DecayOptions → MemoryRow → Decayed
  decay_one opts m = record {
    id = m.id;
    importance = decayed_importance opts m;
    delete = fl.lt (decayed_importance opts m) (min_importance_of opts) && not (is_procedural m);
  }

-- ORDER BY id ASC
abbrev pub smaller_id : MemoryRow → MemoryRow → Bool
smaller_id a b = ltb a.id b.id

-- UPDATE memories SET importance = ? WHERE id = ?
unfoldable pub set_importance : Db → ℕ → Float64 → Db
set_importance db id importance = record db {
  memories =
      update_where (λ m. memory_id m == id) (λ m. record m { importance = importance }) db.memories;
}

-- the body of the loop: the number of rows deleted, and the database
unfoldable pub decay_step : Db → Decayed → Outcome (ℕ × Db)
decay_step db u =
    if u.delete then delete_memory db u.id else ok (0, set_importance db u.id u.importance)

-- The loop of the transaction; an error rolls back what was done before.
unfoldable pub decay_all : Db → List Decayed → Outcome (ℕ × Db)
decay_all db [] = ok (0, db)
decay_all db (u ∷ us) = do
  (n, db') ← decay_step db u
  (rest, db'') ← decay_all db' us
  ok (n + rest, db'')

unfoldable pub decay_memories : DecayOps → Db → DecayOptions → Outcome (ℕ × Db)
decay_memories fl db opts =
    decay_all db (map (decay_one fl opts) (slice_stable smaller_id db.memories))
