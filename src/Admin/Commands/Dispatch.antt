-- ===== src/Admin/Commands/Dispatch.antt =====
-- runEmbedMissing of internal/admin/embed.go, runImportJSONL of internal/admin/import_jsonl.go, and the commands of
-- `Run` that use the store.
use yet_another_memory_bank.Common.{
  ℕ, String, Bool, true, false, Option, none, some, List, [], ◌∷◌, map, if◌then◌else◌, str_eq,
  Outcome, ok, err,
}
use yet_another_memory_bank.Common.Action.{Action, ◌>>◌, modify}
use yet_another_memory_bank.Admin.Commands.{
  AdminEnv, Disk, Exit, nothing, embedded, imported, ended, on_store, with_options, without_words,
  run_migrate, run_add, run_sessions, run_decay, run_compact,
}
use yet_another_memory_bank.Admin.Commands.Searching.{run_search}
use yet_another_memory_bank.Admin.Embed.{model_name, new_embedding_client, embed_missing}
use yet_another_memory_bank.Admin.Import.{import_roots}
use yet_another_memory_bank.Admin.Options.{Options, Parsed, parse_options}
use yet_another_memory_bank.Config.{Config, load}
use yet_another_memory_bank.Embed.Client.{Client}
use yet_another_memory_bank.Store.Embeddings.{delete_embeddings}
use yet_another_memory_bank.Store.Rows.{Db}

-- The commands of the switch of `Run` that are modelled.
pub data Command : Type 0 where
  migrate add search sessions compact decay import_jsonl : Command
  embed_memories : (rebuild : Bool) → Command

-- bench, perf-seed, backup and doctor apart
unfoldable pub command_of : String → Option Command
command_of name =
    if str_eq name "migrate"
    then some migrate
    else if str_eq name "add"
    then some add
    else if str_eq name "search"
    then some search
    else if str_eq name "sessions"
    then some sessions
    else if str_eq name "embed-missing"
    then some (embed_memories false)
    else if str_eq name "embed-rebuild"
    then some (embed_memories true)
    else if str_eq name "compact"
    then some compact
    else if str_eq name "decay"
    then some decay
    else if str_eq name "import-jsonl"
    then some import_jsonl
    else none

module _ (e : AdminEnv) where
  unfoldable pub rebuilt : Bool → String → Config → Action Db (Unit {0})
  unfolding model_name
  rebuilt rebuild project cfg =
      modify λ db. if rebuild then delete_embeddings db project (model_name cfg) else db

  unfoldable pub embed_store : Bool → Options → Config → Client → Action Db ℕ
  unfolding rebuilt embed_missing model_name
  embed_store rebuild opts cfg c = do
    rebuilt rebuild opts.project cfg
    embed_missing e.replies c (model_name cfg) opts.project opts.limit

  -- for the configuration, and then for the client
  unfoldable pub embed_with : Bool → Options → Config → Outcome Client → Disk → Exit × Disk
  unfolding on_store embed_store
  embed_with rebuild opts cfg (err x) disk = ((2, nothing), disk)
  embed_with rebuild opts cfg (ok c) disk =
      on_store e opts.db_path (ended embedded (embed_store rebuild opts cfg c)) disk

  unfoldable pub embed_configured : Bool → Options → Outcome Config → Disk → Exit × Disk
  unfolding embed_with new_embedding_client
  embed_configured rebuild opts (err x) disk = ((1, nothing), disk)
  embed_configured rebuild opts (ok cfg) disk =
      embed_with rebuild opts cfg (new_embedding_client cfg) disk

  unfoldable pub run_embed_missing : Bool → List String → Disk → Exit × Disk
  unfolding parse_options load embed_configured
  run_embed_missing rebuild args =
      with_options e (parse_options e.surface args) λ p.
        without_words e p.rest (embed_configured rebuild p.opts (load e.surface.surroundings ""))

  unfoldable pub import_words : Parsed → List String → Disk → Exit × Disk
  unfolding on_store import_roots
  import_words p [] disk = ((2, nothing), disk)
  import_words p (w ∷ rest) disk =
      on_store e p.opts.db_path
        (ended imported (
          import_roots e.transcripts p.opts.project (map e.roots (w ∷ rest))
            (record { files = 0; imported = 0; skipped = 0 })))
        disk

  unfoldable pub run_import_jsonl : List String → Disk → Exit × Disk
  unfolding parse_options import_words
  run_import_jsonl args = with_options e (parse_options e.surface args) λ p. import_words p p.rest

  unfoldable pub run_command : Command → List String → Disk → Exit × Disk
  unfolding run_migrate run_add run_search run_sessions run_compact run_decay run_import_jsonl
      run_embed_missing
  run_command migrate args = run_migrate e args
  run_command add args = run_add e args
  run_command search args = run_search e args
  run_command sessions args = run_sessions e args
  run_command compact args = run_compact e args
  run_command decay args = run_decay e args
  run_command import_jsonl args = run_import_jsonl args
  run_command (embed_memories rebuild) args = run_embed_missing rebuild args
