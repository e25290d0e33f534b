-- ===== src/Admin/Commands/Runs/Parts.antt =====
-- What the parts of the commands of internal/admin keep of a store.
use yet_another_memory_bank.Common.{
  ℕ, suc, ◌+◌, String, Bool, List, [], ◌∷◌, if_elim, Option, Outcome, ok, err,
}
use yet_another_memory_bank.Common.Action.{
  Action, transact, transact_, Keeps, keeps, Keeps-bind, Keeps-then, Keeps-pure, Keeps-query,
  Keeps-transact, Keeps-transact_, Keeps-modify,
}
use yet_another_memory_bank.Common.Int.{ℤ}
use yet_another_memory_bank.Admin.Commands.{AdminEnv, leave, add_text, compact_session}
use yet_another_memory_bank.Admin.Commands.Searching.{
  admin_searcher, text_search, of_hybrid, search_by, command_search,
}
use yet_another_memory_bank.Admin.Commands.Dispatch.{rebuilt, embed_store}
use yet_another_memory_bank.Admin.Embed.{embed_each, embed_missing, embed_memory_if_enabled}
use yet_another_memory_bank.Admin.Options.{Options, Parsed}
use yet_another_memory_bank.Config.{Config, Surroundings}
use yet_another_memory_bank.Embed.Breaker.{CircuitBreaker}
use yet_another_memory_bank.Embed.Client.{Client, embed}
use yet_another_memory_bank.Search.Hybrid.Keeps.{hybrid-keeps}
use yet_another_memory_bank.Search.Vectors.{Result}
use yet_another_memory_bank.Secrets.Calls.{IsRedacted}
use yet_another_memory_bank.Store.Decay.{DecayOptions, decay_memories}
use yet_another_memory_bank.Store.Embeddings.{save_memory_embedding}
use yet_another_memory_bank.Store.Memories.{Memory, MemoryInput, add_memory}
use yet_another_memory_bank.Store.Rows.{Db}
use yet_another_memory_bank.Store.Runs.{
  Call, perform, add, touch, decay, embed as embed_call, unembed,
}

module _ {ℓ} (e : AdminEnv) (P : Db → Type ℓ)
    (kept : (db : Db) (c : Call)
      → IsRedacted c
      → P db
      → P (perform e.transcripts.zstd e.decay_ops db c)) where
  saved-Keeps :
      (id : ℕ) (model : String) (vec : List ℕ)
      → Keeps P (transact_ λ db. save_memory_embedding db id model vec)
  unfolding perform
  saved-Keeps id model vec = Keeps-transact_ _ (λ db v. kept db (embed_call id model vec) tt v)

  added-Keeps : (input : MemoryInput) → Keeps P (transact λ db. add_memory db input)
  unfolding perform
  added-Keeps input = Keeps-transact _ (λ db v. kept db (add input) tt v)

  pub decayed-Keeps :
      (opts : DecayOptions) → Keeps P (transact λ db. decay_memories e.decay_ops db opts)
  unfolding perform
  decayed-Keeps opts = Keeps-transact _ (λ db v. kept db (decay opts) tt v)

  leave-Keeps : {A : Type 0} (m : Action Db A) → Keeps P m → Keeps P (leave e m)
  unfolding leave
  leave-Keeps m k = record { apply = k.apply }

  embed_memory_if_enabled-Keeps :
      (s : Surroundings) (id : ℕ) → Keeps P (embed_memory_if_enabled e.replies s id)
  unfolding embed_memory_if_enabled
  embed_memory_if_enabled-Keeps s id = search (keeps, saved-Keeps)

  pub add_text-Keeps : (p : Parsed) (text : String) → Keeps P (add_text e p text)
  unfolding add_text
  add_text-Keeps p text = search (keeps, added-Keeps, leave-Keeps, embed_memory_if_enabled-Keeps)

  pub compact_session-Keeps :
      (session_id agent : String) → Keeps P (compact_session e session_id agent)
  unfolding compact_session
  compact_session-Keeps session_id agent = search keeps

  text_search-Keeps : (opts : Options) (text : String) → Keeps P (text_search e opts text)
  unfolding text_search
  text_search-Keeps opts text = Keeps-query _

  of_hybrid-keeps :
      (opts : Options) (text : String) (r : (Outcome (List Result) × Db) × Option CircuitBreaker)
      → P r.0.1
      → P (of_hybrid e opts text r).1
  unfolding of_hybrid
  of_hybrid-keeps opts text ((ok results, db), b) v = v
  of_hybrid-keeps opts text ((err x, db), b) v = (text_search-Keeps opts text).apply db v

  search_by-Keeps :
      (opts : Options) (text : String) (cfg : Config) (c : Outcome Client)
      → Keeps P (search_by e opts text cfg c)
  unfolding search_by perform
  search_by-Keeps opts text cfg (err x) = record { apply = (text_search-Keeps opts text).apply }
  search_by-Keeps opts text cfg (ok c) = record {
    apply = λ db v. of_hybrid-keeps opts text _ (
        hybrid-keeps P (admin_searcher e cfg c) db _ _ e.now (λ ids at. kept db (touch ids at) tt v)
          v);
  }

  pub command_search-Keeps : (opts : Options) (text : String) → Keeps P (command_search e opts text)
  unfolding command_search text_search
  command_search-Keeps opts text = search (keeps, search_by-Keeps)

  embed_each-Keeps :
      (c : Client) (model : String) (missing : List Memory) (k n : ℕ)
      → Keeps P (embed_each e.replies c model missing k n)
  unfolding embed_each
  embed_each-Keeps c model [] k n = Keeps-pure _
  embed_each-Keeps c model (m ∷ ms) k n = Keeps-bind (Keeps-query _) λ vec.
      Keeps-then (saved-Keeps m.id model vec)
        (embed_each-Keeps (embed c (e.replies k)).1 model ms (suc k) (n + 1))

  embed_missing-Keeps :
      (c : Client) (model project : String) (limit : ℤ)
      → Keeps P (embed_missing e.replies c model project limit)
  unfolding embed_missing
  embed_missing-Keeps c model project limit = search (keeps, embed_each-Keeps)

  rebuilt-Keeps :
      (rebuild : Bool) (project : String) (cfg : Config) → Keeps P (rebuilt e rebuild project cfg)
  unfolding rebuilt perform
  rebuilt-Keeps rebuild project cfg =
      Keeps-modify _ λ db v. if_elim P rebuild _ db (kept db (unembed project _) tt v) v

  pub embed_store-Keeps :
      (rebuild : Bool) (opts : Options) (cfg : Config) (c : Client)
      → Keeps P (embed_store e rebuild opts cfg c)
  unfolding embed_store
  embed_store-Keeps rebuild opts cfg c = search (keeps, rebuilt-Keeps, embed_missing-Keeps)
