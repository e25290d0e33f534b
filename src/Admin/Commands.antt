-- ===== src/Admin/Commands.antt =====
-- The commands of internal/admin/run.go that use the store: their options, what they do to the store at the path
-- that the options name, their exit code and what they print, as data.
pub mod Searching
pub mod Dispatch
pub mod Runs
use Prim.Native.String.{◌++◌ as append_text}
use yet_another_memory_bank.Common.{
  ℕ, suc, ◌+◌, ◌*◌, String, Bool, true, false, not, Option, none, some, List, [], ◌∷◌, map,
  if◌then◌else◌, str_eq, blank, Error, fts5_unavailable, Outcome, ok, err,
}
use yet_another_memory_bank.Common.Action.{
  Action, ◌>>=◌, ◌>>◌, pure, query, gets, modify, transact, transact_,
}
use yet_another_memory_bank.Common.Int.{ℤ, pos, ◌-ℤ◌}
use yet_another_memory_bank.Common.Texts.{trim_space}
use yet_another_memory_bank.Admin.Embed.{
  model_name, new_embedding_client, embed_missing, embed_memory_if_enabled,
}
use yet_another_memory_bank.Admin.Import.{ImportStats, Transcript, import_roots}
use yet_another_memory_bank.Admin.Options.{
  Surface, Options, Parsed, parse_options, parse_compact_options, parse_decay_options,
}
use yet_another_memory_bank.Admin.Transcript.{Transcripts}
use yet_another_memory_bank.Config.{Config, load}
use yet_another_memory_bank.Embed.Breaker.{CircuitBreaker}
use yet_another_memory_bank.Embed.Client.{Client, Reply, embed, current_dim}
use yet_another_memory_bank.Floats.{Float64, FloatOps}
use yet_another_memory_bank.Search.Hybrid.{hybrid}
use yet_another_memory_bank.Search.Vectors.{CosineOps, Result, Searcher}
use yet_another_memory_bank.Store.Compaction.{session_cwds, compactable_sessions}
use yet_another_memory_bank.Store.Decay.{DecayOps, decay_memories}
use yet_another_memory_bank.Store.Embeddings.{delete_embeddings}
use yet_another_memory_bank.Store.Memories.{Memory, add_memory}
use yet_another_memory_bank.Store.Rows.{Db}
use yet_another_memory_bank.Store.Runs.{new_db}
use yet_another_memory_bank.Store.Sessions.{Session, session, list_sessions}
use yet_another_memory_bank.Store.Text.{TextIndex, join, search_memories}

-- What the commands have from outside: if a store can be opened at a path, if SQLite has FTS5, the time, the
-- transcripts that a root leads to, the replies of the embedding server, the order in which Go ranges over the
-- map of FuseRRF, and libraries.
pub record AdminEnv : Type 0 where
  pub surface : Surface
  pub openable : String → Bool
  pub fts5 : Bool
  pub now : ℤ
  pub roots : String → Option (List (Option Transcript × ℤ))
  pub replies : ℕ → Reply
  pub order : List ℕ → List ℕ
  pub transcripts : Transcripts
  pub floats : FloatOps
  pub cosine_ops : CosineOps
  pub decay_ops : DecayOps
  pub index : TextIndex

-- The stores by their paths.
abbrev pub Disk : Type 0
Disk = String → Option Db

-- What a command prints.
pub data Output : Type 0 where
  nothing ready : Output
  instruction : (text : String) → Output
  session_list compactable : List Session → Output
  found : List Memory → Output
  deleted embedded added_memory : ℕ → Output
  imported : ImportStats → Output

-- The exit code, and what was printed.
abbrev pub Exit : Type 0
Exit = ℕ × Output

abbrev pub exit_of : {A : Type 0} → (A → Output) → Outcome A → Exit
exit_of out (ok a) = (0, out a)
exit_of out (err e) = (1, nothing)

abbrev pub ended : {A : Type 0} → (A → Output) → Action Db A → Db → Exit × Db
ended out m db = (exit_of out (m db).0, (m db).1)

-- What store.Open finds at a path: a new store where there was none.
abbrev pub content : Bool → Disk → String → Db
content fts5 disk path = elim (disk path) [ none ↦ new_db fts5 | some db ↦ db ]

abbrev pub with_db : Disk → String → Db → Disk
with_db disk path db p = if str_eq p path then some db else disk p

-- compactInstruction
unfoldable pub compact_instruction : String → String → String → List String → String
compact_instruction agent session_id project cwds =
    let prompt = append_text "session_id=" (
      append_text session_id (
        append_text " project=" (
          append_text project (
            append_text " cwds=[" (
              append_text (join cwds)
                "] - read observations via mcp__mcb__memory_session_observations, deduplicate with mcp__mcb__memory_search, save one summary with mcp__mcb__memory_session_summary_save, then save 3-7 durable facts with mcp__mcb__memory_save. Always pass session_id."))))) in
    if str_eq agent "opencode"
    then append_text "Run the mcb-compactor subagent with this prompt:\n\n" prompt
    else append_text "To compact session " (
        append_text session_id (
          append_text ", dispatch the mcb-compactor subagent via Task with this prompt:\n\n"
            prompt))

module _ (e : AdminEnv) where
  -- from store.Open to s.Close
  unfoldable pub on_store : String → (Db → Exit × Db) → Disk → Exit × Disk
  on_store path f disk =
      if e.openable path
      then (let r = f (content e.fts5 disk path) in (r.0, with_db disk path r.1))
      else ((1, nothing), disk)

  -- for options that were parsed
  abbrev pub with_options : {A : Type 0} → Outcome A → (A → Disk → Exit × Disk) → Disk → Exit × Disk
  with_options (ok p) f disk = f p disk
  with_options (err x) f disk = ((2, nothing), disk)

  -- if len(rest) > 0
  abbrev pub without_words : List String → (Disk → Exit × Disk) → Disk → Exit × Disk
  without_words [] f disk = f disk
  without_words (w ∷ rest) f disk = ((2, nothing), disk)

  unfoldable pub run_migrate : List String → Disk → Exit × Disk
  unfolding on_store parse_options
  run_migrate args =
      with_options (parse_options e.surface args)
        λ p. without_words p.rest (on_store p.opts.db_path λ db. ((0, ready), db))

  -- err is printed, and left
  unfoldable pub leave : {A : Type 0} → Action Db A → Action Db (Unit {0})
  leave m db = (ok tt, (m db).1)

  unfoldable pub add_text : Parsed → String → Action Db ℕ
  unfolding leave embed_memory_if_enabled
  add_text p text = do
    id ← transact λ db. add_memory db (record {
      project = p.opts.project;
      text = text;
      tier = "fact";
      source = "manual";
      importance = 0;
      session_id = "";
      created_at = e.now;
    })
    leave (embed_memory_if_enabled e.replies e.surface.surroundings id)
    pure id

  -- for a text that is not blank
  abbrev pub with_text : List String → (String → Disk → Exit × Disk) → Disk → Exit × Disk
  with_text words f disk =
      let text = trim_space (join words) in if blank text then ((2, nothing), disk) else f text disk

  unfoldable pub run_add : List String → Disk → Exit × Disk
  unfolding on_store add_text parse_options
  run_add args =
      with_options (parse_options e.surface args)
        λ p. with_text p.rest λ text. on_store p.opts.db_path (ended added_memory (add_text p text))

  unfoldable pub run_sessions : List String → Disk → Exit × Disk
  unfolding on_store parse_options
  run_sessions args = with_options (parse_options e.surface args) λ p. without_words p.rest (
      on_store p.opts.db_path
        (ended session_list (gets λ db. list_sessions db p.opts.project p.opts.limit)))

  unfoldable pub run_decay : List String → Disk → Exit × Disk
  unfolding on_store parse_decay_options
  run_decay args = with_options (parse_decay_options e.surface args) λ p. without_words p.0.rest (
      on_store p.0.opts.db_path (
        ended deleted (
          transact λ db.
            decay_memories e.decay_ops db
              (record { now = e.now; tau_days = p.1; min_importance = p.2 }))))

  -- io.Now() - 7*24*60*60*1000
  abbrev pub week_ago : ℤ
  week_ago = e.now -ℤ pos 604800000

  -- the list of the sessions, for the configuration
  unfoldable pub compact_listing : Options → Outcome Config → Db → Exit × Db
  compact_listing opts (err x) db = ((2, nothing), db)
  compact_listing opts (ok cfg) db = (
    (0, compactable (compactable_sessions db cfg.compaction.min_observations week_ago opts.limit)),
    db,
  )

  unfoldable pub compact_session : String → String → Action Db String
  unfolding compact_instruction
  compact_session session_id agent = do
    s ← query λ db. session db session_id
    cwds ← gets λ db. session_cwds db session_id (pos 10)
    pure (compact_instruction agent s.id s.project cwds)

  abbrev pub compact_words : Options → List String → Db → Exit × Db
  unfolding compact_listing load
  compact_words opts [] db = compact_listing opts (load e.surface.surroundings "") db
  compact_words opts (w ∷ rest) db = ((2, nothing), db)

  unfoldable pub run_compact : List String → Disk → Exit × Disk
  unfolding on_store compact_words compact_session parse_compact_options
  run_compact args = with_options (parse_compact_options e.surface args) λ p.
      on_store p.0.opts.db_path λ db.
        if blank p.1
        then compact_words p.0.opts p.0.rest db
        else ended instruction (compact_session p.1 p.2) db
