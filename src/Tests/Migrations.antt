-- ===== src/Tests/Migrations.antt =====
-- The migrations at a concrete directory.
use yet_another_memory_bank.Common.{
  ◌≡◌, refl, ℕ, ◌+◌, false, some, List, [], ◌∷◌, ok, str_eq, if◌then◌else◌,
}
use yet_another_memory_bank.Common.Action.{After, ◌>>=◌, ◌>>◌, query, pure, transact_}
use yet_another_memory_bank.Common.Sort.{slice_stable}
use yet_another_memory_bank.Common.Texts.{has_suffix}
use yet_another_memory_bank.Common.Int.{pos}
use yet_another_memory_bank.Store.Migrations.{Entry, Scripts, Schema, created, apply_migrations}
use yet_another_memory_bank.Store.Migrations.Twice.{apply_migrations-twice}

-- The tables are the number of the scripts that were run.
abbrev counting : Scripts
counting = record {
  Tables = ℕ;
  execute = λ sql n. some (n + 1);
  create_fts = λ n. created n;
  atoi = λ s. some (if str_eq s "001" then pos 1 else pos 2);
}

abbrev scripts : List Entry
scripts =
    record { name = "002_b.sql"; is_dir = false; sql = "B" }
    ∷ record { name = "001_a.sql"; is_dir = false; sql = "A" }
    ∷ record { name = "notes.txt"; is_dir = false; sql = "" }
    ∷ []

abbrev empty : Schema counting
empty = record { tables = 0; versions = [] }

-- Two of the entries are migrations, and are applied in the order of their names.
applied :
    apply_migrations counting scripts empty
    ≡ (ok tt, record { tables = 2; versions = pos 1 ∷ pos 2 ∷ [] })
unfolding apply_migrations slice_stable ◌>>=◌ ◌>>◌ query pure transact_ has_suffix
applied = refl

apply_migrations-twice_example :
    After
      (λ _ s'. apply_migrations counting scripts s' ≡ (ok tt, s'))
      (apply_migrations counting scripts empty)
apply_migrations-twice_example = apply_migrations-twice counting scripts empty
