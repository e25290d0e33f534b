-- ===== src/Tests/Admin.antt =====
-- The admin commands at concrete command lines.
use yet_another_memory_bank.Common.{◌≡◌, refl, true, none, some, List, [], ◌∷◌, All, ok, ◌>>=◌, ℕ}
use yet_another_memory_bank.Common.Int.{pos}
use yet_another_memory_bank.Common.Texts.{has_prefix, drop_prefix, trim_space}
use yet_another_memory_bank.Common.Action.{◌>>=◌ as then, ◌>>◌ as and_then, transact, pure}
use yet_another_memory_bank.Store.Memories.{add_memory}
use yet_another_memory_bank.Admin.Flags.{parse}
use yet_another_memory_bank.Admin.Commands.{AdminEnv, Disk, content, added_memory}
use yet_another_memory_bank.Admin.Commands.Dispatch.{add, decay, run_command}
use yet_another_memory_bank.Admin.Commands.Runs.{run_command-run}
use yet_another_memory_bank.Admin.Options.{Surface, parse_options, start, with_project}
use yet_another_memory_bank.Admin.Options.Spelling.{
  Item, spaced, joined, word, db, limit, spell, read, parse_options-spell,
}
use yet_another_memory_bank.Config.{load}
use yet_another_memory_bank.Embed.Client.{Reply, unreachable, replied}
use yet_another_memory_bank.Secrets.Calls.{IsRedacted}
use yet_another_memory_bank.Store.Runs.{Call, run}
use yet_another_memory_bank.Tests.Config.{surroundings}
use yet_another_memory_bank.Tests.Decay.{percents}
use yet_another_memory_bank.Tests.Hybrid.{everything, searcher}
use yet_another_memory_bank.Tests.Import.{plain, log}
use yet_another_memory_bank.Tests.Search.{millionths}

abbrev surface : Surface
surface = record { surroundings = surroundings; getwd = some "/home" }

-- `--db a.db note --limit=9`
abbrev items : List Item
items = spaced db "a.db" ∷ word "note" ∷ joined limit "9" ∷ []

parsed :
    parse_options surface (spell items)
    ≡ ok (record {
      opts = record { db_path = "a.db"; project = "/home"; limit = pos 9 };
      rest = "note" ∷ [];
    })
unfolding parse_options spell parse has_prefix drop_prefix with_project
parsed = refl

parse_options-spell_example : parse_options surface (spell items) ≡ (
    load surface.surroundings "" >>= λ cfg.
    read surface items (start surface cfg) >>= λ p. with_project surface.getwd p)
unfolding has_prefix
parse_options-spell_example = parse_options-spell surface items (tt, (refl, (tt, tt)))

abbrev admin_env : AdminEnv
admin_env = record {
  surface = surface;
  openable = λ path. true;
  fts5 = true;
  now = pos 1000;
  roots = λ root. some ((some log, pos 5) ∷ []);
  replies = λ k. unreachable;
  order = searcher.order;
  transcripts = plain;
  floats = millionths;
  cosine_ops = searcher.cosine_ops;
  decay_ops = percents;
  index = everything;
}

abbrev no_stores : Disk
no_stores path = none

-- The first memory of a new store.
added :
    (run_command admin_env add ("--db" ∷ "a.db" ∷ "note" ∷ []) no_stores).0 ≡ (0, added_memory 1)
unfolding run_command parse has_prefix with_project trim_space then and_then transact add_memory
    pure
added = refl

run_command-run_example :
    (calls : List Call) × (All IsRedacted calls
      × (content true (run_command admin_env decay ("--db" ∷ "a.db" ∷ []) no_stores).1 "a.db"
          ≡ run plain.zstd percents (content true no_stores "a.db") calls))
run_command-run_example = run_command-run admin_env decay ("--db" ∷ "a.db" ∷ []) no_stores "a.db"

abbrev vectors : ℕ → Reply
vectors k = replied 200 (some (1 ∷ k ∷ []))
