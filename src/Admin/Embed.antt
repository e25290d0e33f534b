-- ===== src/Admin/Embed.antt =====
pub mod Saved
pub mod Loop
pub mod Finished
-- internal/admin/embed.go: the embedding of memories that lack one. What the embedding server replies to the
-- calls of a command is an input, by the number of the call.
use yet_another_memory_bank.Common.{
  ℕ, suc, ◌+◌, String, not, List, [], ◌∷◌, if◌then◌else◌, str_eq, blank, or_text, length, Outcome,
  ok, err, bad_argument, no_url,
}
use yet_another_memory_bank.Common.Action.{Action, ◌>>=◌, ◌>>◌, pure, query, gets, transact_}
use yet_another_memory_bank.Common.Int.{ℤ}
use yet_another_memory_bank.Config.{Config, Surroundings, load}
use yet_another_memory_bank.Embed.Client.{Client, Reply, embed}
use yet_another_memory_bank.Store.Embeddings.{missing_embeddings, save_memory_embedding}
use yet_another_memory_bank.Store.Memories.{Memory}
use yet_another_memory_bank.Store.Rows.{Db}

-- ModelName
unfoldable pub model_name : Config → String
model_name cfg = or_text cfg.embedding.model "nomic-embed-text"

unfoldable pub new_embedding_client : Config → Outcome Client
new_embedding_client cfg =
    if not (str_eq cfg.embedding.provider "ollama")
    then err bad_argument
    else if blank cfg.embedding.ollama_url
    then err no_url
    else ok (record {
      url = cfg.embedding.ollama_url;
      dim = cfg.embedding.dimensions;
      detected_dim = 0;
    })

module _ (replies : ℕ → Reply) where
  -- the loop of `embedMissing`, from its call with the number `k` on
  unfoldable pub embed_each : Client → String → List Memory → ℕ → ℕ → Action Db ℕ
  embed_each c model [] k embedded = pure embedded
  embed_each c model (memory ∷ missing) k embedded = do
    vec ← query λ _. (embed c (replies k)).0
    transact_ λ db. save_memory_embedding db memory.id model vec
    embed_each (embed c (replies k)).1 model missing (suc k) (embedded + 1)

  unfoldable pub embed_missing : Client → String → String → ℤ → Action Db ℕ
  unfolding embed_each
  embed_missing c model project limit = do
    probe ← query λ _. (embed c (replies 0)).0
    missing ← gets λ db. missing_embeddings db project model (length probe) limit
    embed_each (embed c (replies 0)).1 model missing 1 0

  unfoldable pub embed_memory_if_enabled : Surroundings → ℕ → Action Db (Unit {0})
  unfolding load new_embedding_client model_name
  embed_memory_if_enabled e id = do
    cfg ← query λ _. load e ""
    if not (str_eq cfg.embedding.provider "ollama") then pure tt else (do
      c ← query λ _. new_embedding_client cfg
      vec ← query λ _. (embed c (replies 0)).0
      transact_ λ db. save_memory_embedding db id (model_name cfg) vec)
