-- ===== src/Store/Migrations.antt =====
-- internal/store/migrations.go, and migrate of internal/store/store.go: the migrations that were not applied are,
-- in the order of their names, each in a transaction of its own. What a script does to the tables is SQLite's.
pub mod Twice
use Prim.Native.Char.{Char, code}
use yet_another_memory_bank.Common.{
  ℕ, String, Bool, true, false, ◌||◌, not, Option, none, some, List, [], ◌∷◌, ◌++◌, if◌then◌else◌,
  ◌==◌, exists_where, Outcome, ok, err, bad_migration,
}
use yet_another_memory_bank.Common.Action.{Action, ◌>>=◌, ◌>>◌, pure, query, transact_}
use yet_another_memory_bank.Common.Int.{ℤ, pos, le_ℤ, eq_ℤ}
use yet_another_memory_bank.Common.Sort.{slice_stable}
use yet_another_memory_bank.Common.Texts.{has_suffix}
use yet_another_memory_bank.Store.Sessions.{text_lt}

-- An entry of the directory of migrations, with the text of its file.
pub record Entry : Type 0 where
  pub name : String
  pub is_dir : Bool
  pub sql : String

-- What CREATE VIRTUAL TABLE IF NOT EXISTS comes to.
pub data Creation (T : Type 0) : Type 0 where
  created : T → Creation T
  no_module failed : Creation T

-- What the migrations use: the tables, what a script does to them if it does not fail, the creation of the index, and
-- strconv.Atoi.
pub record Scripts : Type 1 where
  pub Tables : Type 0
  pub execute : String → Tables → Option Tables
  pub create_fts : Tables → Creation Tables
  pub atoi : String → Option ℤ

-- The tables, and the rows of schema_version.
pub record Schema (e : Scripts) : Type 0 where
  pub tables : e.Tables
  pub versions : List ℤ

-- strings.SplitN(name, "_", 2)[0]
unfoldable pub version_prefix : String → String
version_prefix String.[] = ""
version_prefix (String.◌∷◌ c s) = if code c == 95 then "" else String.◌∷◌ c (version_prefix s)

abbrev pub name_before : Entry → Entry → Bool
name_before a b = text_lt a.name b.name

module _ (e : Scripts) where
  unfoldable pub migration_version : String → Outcome ℤ
  unfolding version_prefix
  migration_version name = elim (e.atoi (version_prefix name)) [
    | none ↦ err bad_migration
    | some v ↦ if le_ℤ v (pos 0) then err bad_migration else ok v
  ]

  unfoldable pub version_applied : Schema e → ℤ → Bool
  version_applied s version = exists_where (λ v. eq_ℤ v version) s.versions

  -- the transaction
  unfoldable pub apply_migration : ℤ → String → Schema e → Outcome (Schema e)
  unfolding version_applied
  apply_migration version sql s =
      if version_applied s version then ok s else elim (e.execute sql s.tables) [
        | none ↦ err bad_migration
        | some tables ↦ ok (record { tables = tables; versions = s.versions ++ version ∷ [] })
      ]

  -- the version of an entry, none for those that are passed over
  unfoldable pub entry_version : Entry → Outcome (Option ℤ)
  unfolding migration_version
  entry_version entry =
      if entry.is_dir || not (has_suffix entry.name ".sql")
      then ok none
      else elim (migration_version entry.name) [ err x ↦ err x | ok v ↦ ok (some v) ]

  unfoldable pub apply_version : String → Option ℤ → Action (Schema e) (Unit {0})
  unfolding apply_migration
  apply_version sql none = pure tt
  apply_version sql (some version) = transact_ (apply_migration version sql)

  -- the loop over the entries
  unfoldable pub apply_entries : List Entry → Action (Schema e) (Unit {0})
  unfolding entry_version apply_version
  apply_entries [] = pure tt
  apply_entries (entry ∷ entries) = do
    version ← query λ _. entry_version entry
    apply_version entry.sql version
    apply_entries entries

  unfoldable pub apply_migrations : List Entry → Action (Schema e) (Unit {0})
  unfolding apply_entries
  apply_migrations entries = apply_entries (slice_stable name_before entries)

  -- the value of s.fts5, and what was created
  unfoldable pub create_index : Action (Schema e) Bool
  create_index s = elim (e.create_fts s.tables) [
    | created tables ↦ (ok true, record s { tables = tables })
    | no_module ↦ (ok false, s)
    | failed ↦ (err bad_migration, s)
  ]

  unfoldable pub migrate : List Entry → Action (Schema e) Bool
  unfolding apply_migrations create_index
  migrate entries = do apply_migrations entries; create_index
