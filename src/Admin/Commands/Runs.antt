-- ===== src/Admin/Commands/Runs.antt =====
-- What the commands of internal/admin do to the stores, as runs of the store's writing methods.
pub mod Parts
use yet_another_memory_bank.Common.{
  ℕ, String, Bool, true, false, Option, none, some, List, [], ◌∷◌, ◌++◌, All, All-append, arith,
  inl, inr, ◌≡◌, refl, sym, ap, ◌∙◌, map, Bool-cases, if_elim, str_eq, eq_iff, if◌then◌else◌, blank,
  Outcome, ok, err,
}
use mathlib.Core.Path.{subst}
use yet_another_memory_bank.Common.Action.{Action, gets, transact, Keeps, Keeps-gets}
use yet_another_memory_bank.Common.Int.{ℤ}
use yet_another_memory_bank.Common.Texts.{trim_space}
use yet_another_memory_bank.Admin.Commands.{
  AdminEnv, Disk, Exit, Output, nothing, ended, content, with_db, on_store, embedded, imported,
  ready, added_memory, session_list, instruction, deleted, with_options, without_words, with_text,
  compact_listing, compact_words, compact_session, add_text, run_migrate, run_add, run_sessions,
  run_decay, run_compact,
}
use yet_another_memory_bank.Admin.Commands.Searching.{command_search, search_exit, run_search}
use yet_another_memory_bank.Admin.Commands.Dispatch.{
  Command, migrate, add, search, sessions, compact, decay, import_jsonl, embed_memories,
  embed_store, embed_with, embed_configured, import_words, run_embed_missing, run_import_jsonl,
  run_command,
}
use yet_another_memory_bank.Admin.Commands.Runs.Parts.{
  add_text-Keeps, decayed-Keeps, compact_session-Keeps, command_search-Keeps, embed_store-Keeps,
}
use yet_another_memory_bank.Admin.Embed.{new_embedding_client}
use yet_another_memory_bank.Admin.Import.Calls.{import_roots-Keeps}
use yet_another_memory_bank.Admin.Options.{Options, Parsed}
use yet_another_memory_bank.Config.{Config, load}
use yet_another_memory_bank.Embed.Client.{Client}
use yet_another_memory_bank.Secrets.Calls.{IsRedacted}
use yet_another_memory_bank.Store.Decay.{DecayOptions, decay_memories}
use yet_another_memory_bank.Store.Rows.{Db}
use yet_another_memory_bank.Store.Runs.{Call, perform, run, run-append, new_db}
use yet_another_memory_bank.Store.Sessions.{list_sessions}
use yet_another_memory_bank.Store.Text.{join}

-- What holds of the store at a path still does after it.
record Kept {ℓ} (fts5 : Bool) (P : Db → Type ℓ) (f : Disk → Exit × Disk) : Type ℓ where
  apply :
      (disk : Disk) (path : String) → P (content fts5 disk path) → P (content fts5 (f disk).1 path)

module _ {ℓ} (e : AdminEnv) (P : Db → Type ℓ)
    (kept : (db : Db) (c : Call)
      → IsRedacted c
      → P db
      → P (perform e.transcripts.zstd e.decay_ops db c)) where
  -- what is at a path after a store was written
  written :
      (b : Bool) (old : Option Db) (new : Db)
      → ((b ≡ true) → P new)
      → P (elim old [ none ↦ new_db e.fts5 | some db ↦ db ])
      → P (elim (if b then some new else old) [ none ↦ new_db e.fts5 | some db ↦ db ])
  written true old new h v = h refl
  written false old new h v = v

  on_store-Kept :
      (path : String) (f : Db → Exit × Db)
      → ((db : Db) → P db → P (f db).1)
      → Kept e.fts5 P (on_store e path f)
  unfolding on_store
  on_store-Kept path f k = record {
    apply = λ disk p v.
        let new = f (content e.fts5 disk path) in
        if_elim (λ (r : Exit × Disk). P (content e.fts5 r.1 p)) (e.openable path)
          (new.0, with_db disk path new.1) ((1, nothing), disk)
          (written (str_eq p path) (disk p) new.1
            (λ h.
              k (content e.fts5 disk path)
                (subst (λ q. P (content e.fts5 disk q)) ((eq_iff p path).0 h) v))
            v)
          v;
  }

  ended-Kept :
      {A : Type 0} (path : String) (out : A → Output) (m : Action Db A)
      → Keeps P m
      → Kept e.fts5 P (on_store e path (ended out m))
  ended-Kept path out m k = on_store-Kept path (ended out m) k.apply

  unchanged-Kept : (exit : Exit) → Kept e.fts5 P (λ disk. (exit, disk))
  unchanged-Kept exit = record { apply = λ disk path v. v }

  with_options-Kept :
      {A : Type 0} (o : Outcome A) (f : A → Disk → Exit × Disk)
      → ((p : A) → Kept e.fts5 P (f p))
      → Kept e.fts5 P (with_options e o f)
  with_options-Kept (ok p) f k = k p
  with_options-Kept (err x) f k = unchanged-Kept (2, nothing)

  without_words-Kept :
      (words : List String) (f : Disk → Exit × Disk)
      → Kept e.fts5 P f
      → Kept e.fts5 P (without_words e words f)
  without_words-Kept [] f k = k
  without_words-Kept (w ∷ rest) f k = unchanged-Kept (2, nothing)

  with_text-Kept :
      (words : List String) (f : String → Disk → Exit × Disk)
      → ((text : String) → Kept e.fts5 P (f text))
      → Kept e.fts5 P (with_text e words f)
  with_text-Kept words f k = record {
    apply = λ disk path v.
        let text = trim_space (join words) in
        if_elim (λ (r : Exit × Disk). P (content e.fts5 r.1 path)) (blank text) ((2, nothing), disk)
          (f text disk) v ((k text).apply disk path v);
  }

  compact_words-keeps :
      (opts : Options) (words : List String) (db : Db) → P db → P (compact_words e opts words db).1
  unfolding compact_words compact_listing
  compact_words-keeps opts [] db v = listed (load e.surface.surroundings "")
    where
      listed : (o : Outcome Config) → P (compact_listing e opts o db).1
      listed (ok cfg) = v
      listed (err x) = v
  compact_words-keeps opts (w ∷ rest) db v = v

  embed_with-Kept :
      (rebuild : Bool) (opts : Options) (cfg : Config) (c : Outcome Client)
      → Kept e.fts5 P (embed_with e rebuild opts cfg c)
  unfolding embed_with
  embed_with-Kept rebuild opts cfg (ok c) =
      ended-Kept opts.db_path embedded (embed_store e rebuild opts cfg c)
        (embed_store-Keeps e P kept rebuild opts cfg c)
  embed_with-Kept rebuild opts cfg (err x) = unchanged-Kept (2, nothing)

  embed_configured-Kept :
      (rebuild : Bool) (opts : Options) (cfg : Outcome Config)
      → Kept e.fts5 P (embed_configured e rebuild opts cfg)
  unfolding embed_configured
  embed_configured-Kept rebuild opts (ok cfg) =
      embed_with-Kept rebuild opts cfg (new_embedding_client cfg)
  embed_configured-Kept rebuild opts (err x) = unchanged-Kept (1, nothing)

  import_words-Kept : (p : Parsed) (words : List String) → Kept e.fts5 P (import_words e p words)
  unfolding import_words
  import_words-Kept p [] = unchanged-Kept (2, nothing)
  import_words-Kept p (w ∷ rest) = ended-Kept p.opts.db_path imported _ (
      import_roots-Keeps e.transcripts p.opts.project e.decay_ops P kept (map e.roots (w ∷ rest))
        (record { files = 0; imported = 0; skipped = 0 }))

  run_command-Kept : (c : Command) (args : List String) → Kept e.fts5 P (run_command e c args)
  unfolding run_command run_migrate run_add run_sessions run_decay run_compact run_search
      run_import_jsonl run_embed_missing
  run_command-Kept migrate args = with_options-Kept _ _ λ (p : Parsed).
      without_words-Kept p.rest _ (on_store-Kept p.opts.db_path (λ db. ((0, ready), db)) λ db v. v)
  run_command-Kept add args = with_options-Kept _ _ λ (p : Parsed). with_text-Kept p.rest _ λ text.
      ended-Kept p.opts.db_path added_memory (add_text e p text) (add_text-Keeps e P kept p text)
  run_command-Kept search args = with_options-Kept _ _ λ (p : Parsed).
      with_text-Kept p.rest _ λ text.
        on_store-Kept p.opts.db_path
          (λ db. let r = command_search e p.opts text db in (search_exit e r.0, r.1))
          (command_search-Keeps e P kept p.opts text).apply
  run_command-Kept sessions args = with_options-Kept _ _ λ (p : Parsed).
      without_words-Kept p.rest _ (
        let listing = λ (db : Db). list_sessions db p.opts.project p.opts.limit in
        ended-Kept p.opts.db_path session_list (gets listing) (Keeps-gets listing))
  run_command-Kept compact args = with_options-Kept _ _ λ (p : Parsed × String × String).
      let words = compact_words e p.0.opts p.0.rest in
      let one = ended instruction (compact_session e p.1 p.2) in
      on_store-Kept p.0.opts.db_path (λ db. if blank p.1 then words db else one db)
        λ db v.
          if_elim (λ (r : Exit × Db). P r.1) (blank p.1) (words db) (one db)
            (compact_words-keeps p.0.opts p.0.rest db v)
            ((compact_session-Keeps e P kept p.1 p.2).apply db v)
  run_command-Kept decay args = with_options-Kept _ _ λ (p : Parsed × ℤ × ℕ).
      without_words-Kept p.0.rest _ (
        let opts : DecayOptions = record { now = e.now; tau_days = p.1; min_importance = p.2 } in
        ended-Kept p.0.opts.db_path deleted (transact λ db. decay_memories e.decay_ops db opts)
          (decayed-Keeps e P kept opts))
  run_command-Kept import_jsonl args =
      with_options-Kept _ _ λ (p : Parsed). import_words-Kept p p.rest
  run_command-Kept (embed_memories rebuild) args = with_options-Kept _ _ λ (p : Parsed).
      without_words-Kept p.rest _
        (embed_configured-Kept rebuild p.opts (load e.surface.surroundings ""))

-- Whatever one of the commands migrate, add, search, sessions, compact, decay, import-jsonl, embed-missing and embed-rebuild
-- does and whatever comes of it, the store at each path is left as by a run of the store's writing methods, of which no
-- call stores a payload with a secret.
pub run_command-run :
    (e : AdminEnv) (c : Command) (args : List String) (disk : Disk) (path : String)
    → (calls : List Call) × (All IsRedacted calls
        × (content e.fts5 (run_command e c args disk).1 path
            ≡ run e.transcripts.zstd e.decay_ops (content e.fts5 disk path) calls))
unfolding run
run_command-run e c args disk path =
    let z = e.transcripts.zstd in
    let before = content e.fts5 disk path in
    (run_command-Kept e
        (λ db. (calls : List Call) × (All IsRedacted calls × (db ≡ run z e.decay_ops before calls)))
        (λ db call k r. (
          r.0 ++ call ∷ [],
          (
            All-append _ r.0 (call ∷ []) r.1.0 (k, tt),
            ap (λ d. perform z e.decay_ops d call) r.1.1
                ∙ sym (run-append z e.decay_ops before r.0 (call ∷ [])),
          ),
        ))
        c args).apply
      disk path ([], (tt, refl))
