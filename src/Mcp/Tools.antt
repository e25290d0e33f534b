-- ===== src/Mcp/Tools.antt =====
-- The tools of internal/mcp/server.go that search or change the store.
pub mod Safety
use Prim.Native.String.{len}
use yet_another_memory_bank.Common.{
  ℕ, ◌*◌, ◌^◌, String, Bool, true, false, ◌&&◌, ◌||◌, not, Option, none, some, List, [], ◌∷◌,
  if◌then◌else◌, ◌==◌, leb, ltb, blank, or_text, length, Error, Outcome, ok, err, bad_argument,
  circuit_open, wrong_dim,
}
use yet_another_memory_bank.Common.Action.{
  Action, ◌>>=◌, ◌>>◌, pure, raise, require, modify, transact, transact_,
}
use yet_another_memory_bank.Common.Int.{ℤ}
use yet_another_memory_bank.Common.Json.{Value, boolean, string, dict, count}
use yet_another_memory_bank.Common.Texts.{trim_space, split_colon}
use yet_another_memory_bank.Embed.Client.{positive_or}
use yet_another_memory_bank.Floats.{Float64}
use yet_another_memory_bank.Mcp.Arguments.{
  Env, World, RecallArgs, SaveArgs, ForgetArgs, SummaryArgs, SupersedeArgs, UpdateArgs, on_db,
  project,
}
use yet_another_memory_bank.Mcp.Dtos.{memory_dtos}
use yet_another_memory_bank.Mcp.Search.{normalized_limit, search}
use yet_another_memory_bank.Search.Vectors.{Embedder, asked, failed, succeeded, model_of}
use yet_another_memory_bank.Store.Compaction.{mark_compaction_completed}
use yet_another_memory_bank.Store.Embeddings.{save_memory_embedding}
use yet_another_memory_bank.Store.Memories.{add_memory, update_memory, is_zero_float, one_float}
use yet_another_memory_bank.Store.Removal.{delete_memories, supersede_memory}
use yet_another_memory_bank.Store.Rows.{Db}
use yet_another_memory_bank.Store.Sessions.{ensure_session, save_session_summary}

-- strings.TrimSpace(s) == ""
abbrev pub is_blank : String → Bool
is_blank s = blank (trim_space s)

-- `err != nil` of json.Unmarshal
unfoldable pub argument : {S A : Type 0} → Option A → Action S A
argument none = raise bad_argument
argument (some a) = pure a

module _ (env : Env) where
  unfoldable pub memory_recall : Bool → List ℕ → Action World Value
  memory_recall touch raw = do
    in_ ← argument (env.json.recall raw)
    require (not (is_blank in_.query)) bad_argument
    memories ←
        search env in_.query (project env in_.project) (normalized_limit in_.limit 10 100) touch
    pure (dict (("memories", memory_dtos memories) ∷ []))

  -- in.Importance < 0 || in.Importance > 1
  abbrev pub out_of_range : Float64 → Bool
  out_of_range x = env.searcher.floats.lt x 0 || env.searcher.floats.lt one_float x

  -- The parts of `id` before and after its first colon must not be empty.
  unfoldable pub ensure_parts : Option (String × String) → String → Action Db (Unit {0})
  ensure_parts none project = raise bad_argument
  ensure_parts (some p) project = do
    require (not (blank p.0) && not (blank p.1)) bad_argument
    _ ← transact λ db. ensure_session db p.0 p.1 project (env.now 0)
    pure tt

  unfoldable pub ensure_normalized_session : String → String → Action Db (Unit {0})
  unfolding ensure_parts
  ensure_normalized_session id project = ensure_parts (split_colon id) project

  -- the dimension that a vector must have, or 0
  abbrev pub wanted_dim : Embedder → ℕ
  wanted_dim e =
      positive_or env.searcher.config.dim (elim e.info [ none ↦ 0 | some i ↦ positive_or i.1 0 ])

  -- from the vector on: the error, if there is one
  abbrev pub embedding_saved : World → Outcome Db → Option Error × World
  embedding_saved w (ok db) = (none, record w { db = db })
  embedding_saved w (err e) = (some e, w)

  unfoldable pub save_vector : Embedder → ℕ → List ℕ → World → Option Error × World
  save_vector e id vec w =
      if ltb 0 (wanted_dim e) && not (length vec == wanted_dim e)
      then (some wrong_dim, w)
      else embedding_saved w (save_memory_embedding w.db id (model_of env.searcher.config e) vec)

  -- from the answer of the embedder on
  unfoldable pub save_answer : Embedder → ℕ → Outcome (List ℕ) → World → Option Error × World
  unfolding save_vector
  save_answer e id (err x) w = (some x, record w { breaker = failed w.breaker env.breaker_now })
  save_answer e id (ok vec) w = save_vector e id vec (record w { breaker = succeeded w.breaker })

  unfoldable pub save_embedding : Option Embedder → ℕ → World → Option Error × World
  unfolding save_answer
  save_embedding none id w = (none, w)
  save_embedding (some e) id w =
      let a = asked w.breaker env.breaker_now in
      if a.0
      then (some circuit_open, record w { breaker = a.1 })
      else save_answer e id e.answer (record w { breaker = a.1 })

  -- `saveMemoryEmbedding`, which returns no error but its text
  unfoldable pub save_own_embedding : ℕ → Action World (Option Error)
  unfolding save_embedding
  save_own_embedding id w = let r = save_embedding env.searcher.embedder id w in (ok r.0, r.1)

  abbrev pub saved_value : ℕ → Option Error → Value
  saved_value id none = dict (("id", count id) ∷ [])
  saved_value id (some e) =
      dict (("id", count id) ∷ ("embedding_error", string (env.message e)) ∷ [])

  -- 0.5
  abbrev pub half_float : Float64
  half_float = 1022 * 2 ^ 52

  abbrev pub saved_importance : Float64 → String → Float64
  saved_importance importance session_id =
      if is_zero_float importance && not (blank session_id) then half_float else importance

  unfoldable pub add_note : SaveArgs → Action Db ℕ
  unfolding ensure_normalized_session
  add_note in_ = do
    require (not (out_of_range in_.importance)) bad_argument
    if blank in_.session_id
        then pure tt
        else ensure_normalized_session in_.session_id (project env in_.project)
    id ← transact λ db. add_memory db (record {
      project = project env in_.project;
      text = in_.text;
      tier = or_text in_.tier "semantic";
      source = "mcp";
      importance = saved_importance in_.importance in_.session_id;
      session_id = in_.session_id;
      created_at = env.now 1;
    })
    modify λ db.
        if blank in_.session_id then db else mark_compaction_completed db in_.session_id (env.now 2)
    pure id

  unfoldable pub memory_save : List ℕ → Action World Value
  unfolding add_note save_own_embedding
  memory_save raw = do
    in_ ← argument (env.json.save raw)
    require (not (is_blank in_.text)) bad_argument
    id ← on_db (add_note in_)
    failure ← save_own_embedding id
    pure (saved_value id failure)

  -- `memoryForget` from the test of `len(in.IDs)` on, and with a query
  unfoldable pub forget_ids : ForgetArgs → Action World Value
  forget_ids in_ = do
    require (not (length in_.ids == 0)) bad_argument
    require in_.confirm bad_argument
    deleted ← on_db (transact λ db. delete_memories db in_.ids)
    pure (dict (("deleted", count deleted) ∷ []))

  unfoldable pub forget_candidates : ForgetArgs → Action World Value
  forget_candidates in_ = do
    require in_.dry_run bad_argument
    memories ←
        search env in_.query (project env in_.project) (normalized_limit in_.limit 10 100) false
    pure (dict (("candidates", memory_dtos memories) ∷ ("dry_run", boolean true) ∷ []))

  unfoldable pub memory_forget : List ℕ → Action World Value
  unfolding forget_ids forget_candidates
  memory_forget raw = do
    in_ ← argument (env.json.forget raw)
    if is_blank in_.query then forget_ids in_ else forget_candidates in_

  abbrev pub was_updated : Value
  was_updated = dict (("updated", boolean true) ∷ [])

  -- `len` counts bytes.
  unfoldable pub memory_session_summary_save : List ℕ → Action World Value
  memory_session_summary_save raw = do
    in_ ← argument (env.json.summary raw)
    require (not (blank in_.session_id) && not (is_blank in_.summary)) bad_argument
    require (leb (len in_.summary) 800) bad_argument
    on_db (modify λ db. save_session_summary db in_.session_id in_.summary (env.now 0))
    on_db (modify λ db. mark_compaction_completed db in_.session_id (env.now 0))
    pure was_updated

  unfoldable pub memory_supersede : List ℕ → Action World Value
  memory_supersede raw = do
    in_ ← argument (env.json.supersede raw)
    require (ltb 0 in_.old_id && ltb 0 in_.new_id) bad_argument
    on_db (transact_ λ db. supersede_memory db in_.old_id in_.new_id)
    pure was_updated

  abbrev pub is_blank_text : Option String → Bool
  is_blank_text none = false
  is_blank_text (some t) = is_blank t

  abbrev pub is_out_of_range : Option Float64 → Bool
  is_out_of_range none = false
  is_out_of_range (some x) = out_of_range x

  unfoldable pub memory_update : List ℕ → Action World Value
  memory_update raw = do
    in_ ← argument (env.json.update raw)
    require (ltb 0 in_.id) bad_argument
    require (not (is_blank_text in_.text)) bad_argument
    require (not (is_out_of_range in_.importance)) bad_argument
    on_db (
        transact_ λ db. update_memory db (record {
          id = in_.id;
          text = in_.text;
          tier = in_.tier;
          importance = in_.importance;
          updated_at = env.now 0;
        }))
    pure was_updated
