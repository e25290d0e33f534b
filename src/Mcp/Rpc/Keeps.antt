-- ===== src/Mcp/Rpc/Keeps.antt =====
-- What the parts of the MCP tools keep of the store.
pub mod Served
use yet_another_memory_bank.Common.{
  ℕ, String, Bool, ◌&&◌, not, Option, none, some, List, if◌then◌else◌, if_elim, ltb, ◌==◌, length,
  Outcome, ok, err, Error, committed, wrong_dim,
}
use yet_another_memory_bank.Common.Action.{
  Action, transact, modify, Keeps, keeps, Keeps-pure, Keeps-raise, Keeps-transact, Keeps-modify,
}
use yet_another_memory_bank.Common.Int.{ℤ}
use yet_another_memory_bank.Embed.Breaker.{CircuitBreaker}
use yet_another_memory_bank.Mcp.Arguments.{Env, World, SaveArgs, on_db}
use yet_another_memory_bank.Mcp.Search.{
  search_text, searcher_of, after_hybrid, search_with, search as search_memory,
}
use yet_another_memory_bank.Mcp.Tools.{
  argument, ensure_parts, ensure_normalized_session, save_vector, save_answer, save_embedding,
  save_own_embedding, add_note, memory_recall, embedding_saved, wanted_dim,
}
use yet_another_memory_bank.Mcp.Rpc.{recall, save, call}
use yet_another_memory_bank.Search.Hybrid.Keeps.{hybrid-keeps}
use yet_another_memory_bank.Search.Vectors.{Embedder, Result, asked, succeeded, model_of}
use yet_another_memory_bank.Secrets.Calls.{IsRedacted}
use yet_another_memory_bank.Store.Compaction.{mark_compaction_completed}
use yet_another_memory_bank.Store.Decay.{DecayOps}
use yet_another_memory_bank.Store.Embeddings.{save_memory_embedding}
use yet_another_memory_bank.Store.Memories.{MemoryInput, add_memory, touch_memories}
use yet_another_memory_bank.Store.Observations.{Zstd}
use yet_another_memory_bank.Store.Rows.{Db}
use yet_another_memory_bank.Store.Runs.{Call, perform, ensure, add, touch, complete, embed}
use yet_another_memory_bank.Store.Sessions.{ensure_session}

pub Keeps-argument {ℓ} :
    {S A : Type 0} {Q : S → Type ℓ} (o : Option A) → Keeps Q (argument {S = S} o)
unfolding argument
Keeps-argument none = Keeps-raise _
Keeps-argument (some a) = Keeps-pure _

module _ {ℓ} (P : Db → Type ℓ) where
  -- the store of a world
  abbrev pub InWorld : World → Type ℓ
  InWorld w = P w.db

  pub Keeps-on_db : {A : Type 0} {m : Action Db A} → Keeps P m → Keeps InWorld (on_db m)
  unfolding on_db
  Keeps-on_db h = record { apply = λ w v. h.apply w.db v }

module _ {ℓ} (z : Zstd) (fl : DecayOps) (P : Db → Type ℓ)
    (kept : (db : Db) (c : Call) → IsRedacted c → P db → P (perform z fl db c)) where
  pub touch-keeps : (db : Db) → P db → (ids : List ℕ) (at : ℤ) → P (touch_memories db ids at)
  unfolding perform
  touch-keeps db v ids at = kept db (touch ids at) tt v

  pub ensure_session-Keeps :
      (agent external_id project : String) (ts : ℤ)
      → Keeps P (transact λ db. ensure_session db agent external_id project ts)
  unfolding perform
  ensure_session-Keeps agent external_id project ts =
      Keeps-transact _ (λ db v. kept db (ensure agent external_id project ts) tt v)

  module _ (env : Env) where
    search_text-Keeps :
        (text project : String) (limit : ℤ) (b : Bool)
        → Keeps P (search_text env text project limit b)
    unfolding search_text
    search_text-Keeps text project limit b = search (
      keeps,
      Keeps-modify,
      λ (db : Db) (v : P db) (ids : List ℕ) (at : ℤ).
          if_elim P b (touch_memories db ids at) db (touch-keeps db v ids at) v,
    )

    after_hybrid-keeps :
        (text project : String) (limit : ℤ) (b : Bool)
        (r : (Outcome (List Result) × Db) × Option CircuitBreaker)
        → P r.0.1
        → InWorld P (after_hybrid env text project limit b r).1
    unfolding after_hybrid on_db
    after_hybrid-keeps text project limit b ((ok results, db), br) v = v
    after_hybrid-keeps text project limit b ((err e, db), br) v =
        (search_text-Keeps text project limit b).apply db v

    search_with-keeps :
        (e : Option Embedder) (text project : String) (limit : ℤ) (b : Bool) (w : World)
        → P w.db
        → P (search_with env e text project limit b w).1.db
    unfolding search_with on_db
    search_with-keeps none text project limit b w v =
        (search_text-Keeps text project limit b).apply w.db v
    search_with-keeps (some e) text project limit b w v =
        after_hybrid-keeps text project limit b _ (
          hybrid-keeps P (searcher_of env b) w.db _ w.breaker env.breaker_now (touch-keeps w.db v)
            v)

    pub search-Keeps :
        (text project : String) (limit : ℤ) (b : Bool)
        → Keeps (InWorld P) (search_memory env text project limit b)
    unfolding search_memory
    search-Keeps text project limit b = record {
      apply = search_with-keeps env.searcher.embedder text project limit b;
    }

    ruleset in_world = (keeps, Keeps-argument, Keeps-on_db, search-Keeps, ensure_session-Keeps)

    pub memory_recall-Keeps :
        (b : Bool) (raw : List ℕ) → Keeps (InWorld P) (memory_recall env b raw)
    unfolding memory_recall
    memory_recall-Keeps b raw = search in_world

    ensure_parts-Keeps :
        (parts : Option (String × String)) (name : String) → Keeps P (ensure_parts env parts name)
    unfolding ensure_parts
    ensure_parts-Keeps none name = search in_world
    ensure_parts-Keeps (some p) name = search in_world

    added-Keeps : (input : MemoryInput) → Keeps P (transact λ db. add_memory db input)
    unfolding perform
    added-Keeps input = Keeps-transact _ (λ db v. kept db (add input) tt v)

    completed-Keeps :
        (b : Bool) (id : String) (at : ℤ)
        → Keeps P (modify λ db. if b then db else mark_compaction_completed db id at)
    unfolding perform
    completed-Keeps b id at =
        Keeps-modify _ (λ db v. if_elim P b db _ v (kept db (complete id at) tt v))

    pub add_note-Keeps : (in_ : SaveArgs) → Keeps P (add_note env in_)
    unfolding add_note ensure_normalized_session
    add_note-Keeps in_ = search (in_world, ensure_parts-Keeps, added-Keeps, completed-Keeps)

    embedding_saved-keeps :
        (w : World) (r : Outcome Db) → P (committed w.db r) → P (embedding_saved env w r).1.db
    embedding_saved-keeps w (ok db) k = k
    embedding_saved-keeps w (err x) k = k

    save_vector-keeps :
        (e : Embedder) (id : ℕ) (vec : List ℕ) (w : World)
        → P w.db
        → P (save_vector env e id vec w).1.db
    unfolding save_vector perform
    save_vector-keeps e id vec w v =
        if_elim (λ (r : Option Error × World). P r.1.db)
          (ltb 0 (wanted_dim env e) && not (length vec == wanted_dim env e)) (some wrong_dim, w)
          (embedding_saved env w
            (save_memory_embedding w.db id (model_of env.searcher.config e) vec))
          v
          (embedding_saved-keeps w
            (save_memory_embedding w.db id (model_of env.searcher.config e) vec)
            (kept w.db (embed id (model_of env.searcher.config e) vec) tt v))

    save_answer-keeps :
        (e : Embedder) (id : ℕ) (a : Outcome (List ℕ)) (w : World)
        → P w.db
        → P (save_answer env e id a w).1.db
    unfolding save_answer
    save_answer-keeps e id (err x) w v = v
    save_answer-keeps e id (ok vec) w v =
        save_vector-keeps e id vec (record w { breaker = succeeded w.breaker }) v

    save_embedding-keeps :
        (e : Option Embedder) (id : ℕ) (w : World) → P w.db → P (save_embedding env e id w).1.db
    unfolding save_embedding
    save_embedding-keeps none id w v = v
    save_embedding-keeps (some e) id w v =
        if_elim (λ (r : Option Error × World). P r.1.db) (asked w.breaker env.breaker_now).0 _ _ v
          (save_answer-keeps e id e.answer _ v)

    pub save_own_embedding-Keeps : (id : ℕ) → Keeps (InWorld P) (save_own_embedding env id)
    unfolding save_own_embedding
    save_own_embedding-Keeps id = record { apply = save_embedding-keeps env.searcher.embedder id }
