-- ===== src/Admin/Embed/Saved.antt =====
-- internal/admin/embed.go: what saving an embedding leaves.
use yet_another_memory_bank.Common.{
  ℕ, ◌≡◌, refl, sym, ◌∙◌, inl, inr, String, Bool, true, ◌&&◌, not, List, [], ◌∷◌, ◌++◌, arith,
  Bool-cases, if_elim, if_split, ◌==◌, ==_iff, ==_refl, str_eq, eq_refl, blank, length,
  exists_where, exists_where-append, update_where, has, Outcome, ok, err, no_model, no_vector,
  foreign_key, Ensures,
}
use yet_another_memory_bank.Store.Embeddings.{
  embedding_id, new_embedding, upsert_embedding, save_memory_embedding,
}
use yet_another_memory_bank.Store.Memories.{memory_id}
use yet_another_memory_bank.Store.Rows.{Db, EmbeddingRow}

module _ {A : Type 0} (p : A → Bool) (e : A) where
  exists_where-replaced :
      (q : A → Bool)
      → q e ≡ true
      → (xs : List A) → exists_where p xs ≡ true
      → exists_where q (update_where p (λ _. e) xs) ≡ true
  exists_where-replaced q h [] k = k
  exists_where-replaced q h (x ∷ xs) k = elim (Bool-cases (p x)) [
    | inl m ↦ rw (m, h) refl
    | inr m ↦
        rw m
          (let rest = exists_where-replaced q h xs (ground (arith, k, m)) in ground (arith, rest))
  ]

  exists_where-kept :
      (q : A → Bool)
      → ((x : A) → p x ≡ true → q x ≡ true → q e ≡ true)
      → (xs : List A) → exists_where q xs ≡ true
      → exists_where q (update_where p (λ _. e) xs) ≡ true
  exists_where-kept q h [] k = k
  exists_where-kept q h (x ∷ xs) k = elim (Bool-cases (q x)) [
    | inl y ↦ elim (Bool-cases (p x)) [ inl m ↦ rw (m, h x m y) refl | inr m ↦ rw (m, y) refl ]
    | inr y ↦ let rest = exists_where-kept q h xs (ground (arith, k, y)) in ground (arith, rest)
  ]

module _ (model : String) (d : ℕ) where
  abbrev pub row_of : ℕ → EmbeddingRow → Bool
  row_of id e = e.memory_id == id && (str_eq e.model model && e.dim == d)

  -- The memory has an embedding of the model and dimension.
  abbrev pub Has : Db → ℕ → Type 0
  Has db id = exists_where (row_of id) db.embeddings ≡ true

  -- The memories stay, and so do the embeddings that they have.
  abbrev pub Kept : Db → Db → Type 0
  Kept db db' = (db'.memories ≡ db.memories) × ((id : ℕ) → Has db id → Has db' id)

  row_of-new :
      (id : ℕ) (vec : List ℕ) → length vec ≡ d → row_of id (new_embedding id model vec) ≡ true
  row_of-new id vec h = rw (==_refl id, eq_refl model, h) (==_refl d)

  upserted-Has :
      (id : ℕ) (vec : List ℕ) (es : List EmbeddingRow)
      → length vec ≡ d
      → exists_where (row_of id) (upsert_embedding (new_embedding id model vec) es) ≡ true
  unfolding upsert_embedding
  upserted-Has id vec es h =
      let e = new_embedding id model vec in
      if_split (λ l. exists_where (row_of id) l ≡ true) (has embedding_id id es)
        (update_where (λ r. embedding_id r == id) (λ r. e) es) (es ++ e ∷ [])
        (λ m.
          exists_where-replaced (λ r. embedding_id r == id) e (row_of id) (row_of-new id vec h) es
            m)
        (λ _. exists_where-append (row_of id) es (e ∷ []) ∙ rw (row_of-new id vec h) (ground arith))

  upserted-keeps :
      (id : ℕ) (vec : List ℕ) (es : List EmbeddingRow) (other : ℕ)
      → length vec ≡ d
      → exists_where (row_of other) es ≡ true
      → exists_where (row_of other) (upsert_embedding (new_embedding id model vec) es) ≡ true
  unfolding upsert_embedding
  upserted-keeps id vec es other h k =
      let e = new_embedding id model vec in
      if_split (λ l. exists_where (row_of other) l ≡ true) (has embedding_id id es)
        (update_where (λ r. embedding_id r == id) (λ r. e) es) (es ++ e ∷ [])
        (λ _.
          exists_where-kept (λ r. embedding_id r == id) e (row_of other)
            (λ x m y. let same = other_id x m y in rw same (row_of-new id vec h)) es k)
        (λ _. exists_where-append (row_of other) es (e ∷ []) ∙ rw k refl)
    where
      other_id :
          (x : EmbeddingRow) → (embedding_id x == id) ≡ true → row_of other x ≡ true → other ≡ id
      other_id x m y =
          let left : (x.memory_id == other) ≡ true = ground (arith, y) in
          sym ((==_iff x.memory_id other).0 left) ∙ (==_iff x.memory_id id).0 m

  pub save_memory_embedding-Kept :
      (db : Db) (id : ℕ) (vec : List ℕ)
      → length vec ≡ d
      → Ensures (λ db'. Kept db db' × Has db' id) (save_memory_embedding db id model vec)
  unfolding save_memory_embedding
  save_memory_embedding-Kept db id vec h =
      let P = λ (o : Outcome Db). Ensures (λ db'. Kept db db' × Has db' id) o in
      if_elim P (blank model) (err no_model) _ tt (
        if_elim P (length vec == 0) (err no_vector) _ tt (
          if_elim P (not (has memory_id id db.memories)) (err foreign_key) (ok _) tt (
            (refl, λ other k. upserted-keeps id vec db.embeddings other h k),
            upserted-Has id vec db.embeddings h,
          )))
