-- ===== src/Admin/Embed/Loop.antt =====
-- internal/admin/embed.go: the loop over the memories that lack an embedding.
use yet_another_memory_bank.Common.{
  ℕ, suc, ◌+◌, ◌≡◌, refl, ◌∙◌, String, false, List, [], ◌∷◌, arith, ◌==◌, length, All, Outcome, ok,
  err, Ensures, Ensures-imp,
}
use yet_another_memory_bank.Common.Action.{
  ◌>>=◌, ◌>>◌, pure, query, proceed, settle_, transact_, After, After-bind,
}
use yet_another_memory_bank.Admin.Embed.{embed_each}
use yet_another_memory_bank.Admin.Embed.Saved.{Has, Kept, save_memory_embedding-Kept}
use yet_another_memory_bank.Embed.Client.{Client, Reply, embed, current_dim}
use yet_another_memory_bank.Embed.Client.Dimension.{Answered, embed-Answered}
use yet_another_memory_bank.Store.Embeddings.{save_memory_embedding}
use yet_another_memory_bank.Store.Memories.{Memory}
use yet_another_memory_bank.Store.Rows.{Db}

module _ (replies : ℕ → Reply) (model : String) (d : ℕ) (positive : (d == 0) ≡ false) where
  Kept-trans : (a b c : Db) → Kept model d a b → Kept model d b c → Kept model d a c
  Kept-trans a b c h k = (k.0 ∙ h.0, λ id v. k.1 id (h.1 id v))

  -- What the loop has done: it has counted the memories, and each has an embedding.
  abbrev pub Embedded : List Memory → ℕ → Db → ℕ → Db → Type 0
  Embedded missing before db n db' =
      (n ≡ before + length missing)
      × (Kept model d db db' × All (λ m. Has model d db' m.id) missing)

  saved-Has :
      (db : Db) (id : ℕ) (vec : List ℕ)
      → length vec ≡ d
      → After
          (λ _ db'. Kept model d db db' × Has model d db' id)
          (transact_ (λ s. save_memory_embedding s id model vec) db)
  unfolding transact_
  saved-Has db id vec h =
      settled (save_memory_embedding db id model vec)
        (save_memory_embedding-Kept model d db id vec h)
    where
      settled :
          (r : Outcome Db)
          → Ensures (λ db'. Kept model d db db' × Has model d db' id) r
          → After (λ (_ : Unit {0}) db'. Kept model d db db' × Has model d db' id) (settle_ db r)
      settled (ok db') k = k
      settled (err x) k = tt

  pub embed_each-Embedded :
      (c : Client) (missing : List Memory) (k n : ℕ) (db : Db)
      → current_dim c ≡ d
      → After (Embedded missing n db) (embed_each replies c model missing k n db)
  unfolding embed_each pure query ◌>>=◌ ◌>>◌
  embed_each-Embedded c [] k n db h = (omega arith, ((refl, λ id v. v), tt))
  embed_each-Embedded c (m ∷ ms) k n db h =
      answered (embed c (replies k)).0 (embed c (replies k)).1 (embed-Answered c (replies k))
        (λ c' e db'. embed_each-Embedded c' ms (suc k) (n + 1) db' e)
    where
      answered :
          (o : Outcome (List ℕ)) (c' : Client)
          → Answered c (o, c')
          → ((e : Client)
              → current_dim e ≡ d
              → (db' : Db)
              → After (Embedded ms (n + 1) db') (embed_each replies e model ms (suc k) (n + 1) db'))
          → After (Embedded (m ∷ ms) n db) (
              proceed
                (λ vec.
                  transact_ (λ s. save_memory_embedding s m.id model vec)
                  >> embed_each replies c' model ms (suc k) (n + 1))
                o
                db)
      answered (err x) c' a next = tt
      answered (ok vec) c' a next =
          let known : (current_dim c == 0) ≡ false = rw h positive in
          let dim = a.1.1 known ∙ h in
          After-bind (λ _ db'. Kept model d db db' × Has model d db' m.id) (Embedded (m ∷ ms) n db)
            (transact_ λ s. save_memory_embedding s m.id model vec)
            (λ _. embed_each replies c' model ms (suc k) (n + 1)) db
            (saved-Has db m.id vec (a.0 ∙ dim))
            λ u db' s.
              let run = embed_each replies c' model ms (suc k) (n + 1) db' in
              Ensures-imp (λ j. Embedded ms (n + 1) db' j run.1)
                (λ j. Embedded (m ∷ ms) n db j run.1) run.0
                (λ j q. (
                  (let e = q.0 in omega arith),
                  (Kept-trans db db' run.1 s.0 q.1.0, (q.1.0.1 m.id s.1, q.1.1)),
                ))
                (next c' dim db')
