-- ===== src/Mcp/Tools/Safety.antt =====
-- What `memoryForget` of internal/mcp/server.go can delete.
use yet_another_memory_bank.Common.{
  ℕ, ◌≡◌, refl, ap, ◌∙◌, inl, inr, Bool, true, false, ◌&&◌, ◌||◌, Option, none, some, List, [], ◌∷◌,
  ◌==◌, if◌then◌else◌, if_elim, ltb, Bool-cases, exists_where, find, has, find-delete, length,
  Outcome, ok, err, is_ok, foreign_key, Ensures, Ensures-bind,
}
use yet_another_memory_bank.Common.Action.{
  ◌>>=◌, ◌>>◌, pure, raise, require, transact, settle, proceed,
}
use yet_another_memory_bank.Common.Json.{Value}
use yet_another_memory_bank.Mcp.Arguments.{Env, World, ForgetArgs, on_db}
use yet_another_memory_bank.Mcp.Tools.{
  argument, is_blank, forget_ids, forget_candidates, memory_forget,
}
use yet_another_memory_bank.Mcp.Rpc.Readers.{forget_candidates-quiet}
use yet_another_memory_bank.Store.Audit.{insert_audit}
use yet_another_memory_bank.Store.Memories.{memory_id}
use yet_another_memory_bank.Store.Removal.{
  is_referenced, remove_rows, delete_memory, audit_delete, delete_memories,
}
use yet_another_memory_bank.Store.Rows.{Db, MemoryRow}

-- The arguments ask for the deletion of the memory: its id is listed, it is confirmed, and there is no
-- query.
abbrev pub asks_for : ℕ → Option ForgetArgs → Bool
asks_for id none = false
asks_for id (some a) = is_blank a.query && (a.confirm && exists_where (λ k. k == id) a.ids)

-- the row that a memory has, if it was not one of the deleted
abbrev left_of : Bool → Option MemoryRow → Option MemoryRow
left_of gone r = if gone then none else r

delete_memory-find :
    (db : Db) (id k : ℕ)
    → Ensures
        (λ p. find memory_id id p.1.memories ≡ left_of (k == id) (find memory_id id db.memories))
        (delete_memory db k)
unfolding delete_memory remove_rows
delete_memory-find db id k =
    if_elim
      (Ensures (λ (p : ℕ × Db).
        find memory_id id p.1.memories ≡ left_of (k == id) (find memory_id id db.memories)))
      (has memory_id k db.memories && is_referenced k db.memories) (err foreign_key) (ok _) tt
      (find-delete memory_id k id db.memories)

audit_delete-memories : (n k : ℕ) (db : Db) → (audit_delete n k db).memories ≡ db.memories
unfolding audit_delete insert_audit
audit_delete-memories n k db =
    if_elim (λ (d : Db). d.memories ≡ db.memories) (ltb 0 n) _ db refl refl

left-left : (a b : Bool) (r : Option MemoryRow) → left_of b (left_of a r) ≡ left_of (a || b) r
left-left true true r = refl
left-left true false r = refl
left-left false b r = refl

-- DeleteMemories takes away the memories that are listed and no others.
delete_memories-find :
    (ids : List ℕ) (db : Db) (id : ℕ)
    → Ensures
        (λ p.
          find memory_id id p.1.memories
          ≡ left_of (exists_where (λ k. k == id) ids) (find memory_id id db.memories))
        (delete_memories db ids)
unfolding delete_memories
delete_memories-find [] db id = refl
delete_memories-find (k ∷ ids) db id =
    Ensures-bind
      (λ (p : ℕ × Db).
        find memory_id id p.1.memories ≡ left_of (k == id) (find memory_id id db.memories))
      _ (delete_memory db k) _ (delete_memory-find db id k)
      (λ p h.
        Ensures-bind
          (λ (q : ℕ × Db).
            find memory_id id q.1.memories
            ≡ left_of (exists_where (λ k. k == id) ids)
                (find memory_id id (audit_delete p.0 k p.1).memories))
          _ (delete_memories (audit_delete p.0 k p.1) ids) _
          (delete_memories-find ids (audit_delete p.0 k p.1) id)
          (λ q g.
            g
            ∙ ap (λ ms. left_of (exists_where (λ k. k == id) ids) (find memory_id id ms))
                (audit_delete-memories p.0 k p.1)
            ∙ ap (left_of (exists_where (λ k. k == id) ids)) h
            ∙ left-left (k == id) (exists_where (λ k. k == id) ids)
                (find memory_id id db.memories)))

-- What a result says of a memory, for arguments that ask for its deletion or do not.
abbrev Forgotten : ℕ → World → Bool → Outcome Value × World → Type 0
Forgotten id w asked r =
    find memory_id id r.1.db.memories
    ≡ left_of (is_ok r.0 && asked) (find memory_id id w.db.memories)

-- for each outcome of DeleteMemories
deleted-Forgotten :
    (id : ℕ) (asked : Bool) (w : World) (f : ℕ → Value) (o : Outcome (ℕ × Db))
    → Ensures
        (λ p. find memory_id id p.1.memories ≡ left_of asked (find memory_id id w.db.memories))
        o
    → Forgotten id w asked
        (proceed (λ n. pure (f n)) (settle w.db o).0 (record w { db = (settle w.db o).1 }))
unfolding pure
deleted-Forgotten id asked w f (ok p) h = h
deleted-Forgotten id asked w f (err e) h = refl

forget_ids-Forgotten :
    (env : Env) (id : ℕ) (in_ : ForgetArgs) (w : World)
    → Forgotten id w (in_.confirm && exists_where (λ k. k == id) in_.ids) (forget_ids env in_ w)
unfolding forget_ids ◌>>=◌ ◌>>◌ require transact on_db pure
forget_ids-Forgotten env id in_ w = elim (Bool-cases (length in_.ids == 0)) [
  | inl e ↦ rw e refl
  | inr e ↦ rw e (elim (Bool-cases in_.confirm) [
    | inr c ↦ rw c refl
    | inl c ↦ rw c (
        deleted-Forgotten id (exists_where (λ k. k == id) in_.ids) w _ _
          (delete_memories-find in_.ids w.db id))
  ])
]

none-asked : (o : Outcome Value) (r : Option MemoryRow) → r ≡ left_of (is_ok o && false) r
none-asked (ok v) r = refl
none-asked (err e) r = refl

-- A search forgets nothing.
candidates-Forgotten :
    (env : Env) (id : ℕ) (in_ : ForgetArgs) (w : World)
    → Forgotten id w false (forget_candidates env in_ w)
candidates-Forgotten env id in_ w =
    (forget_candidates-quiet (λ db. find memory_id id db.memories ≡ find memory_id id w.db.memories)
        env in_).apply
      w refl
    ∙ none-asked (forget_candidates env in_ w).0 (find memory_id id w.db.memories)

-- for the arguments, if they are decoded
forgotten :
    (env : Env) (id : ℕ) (o : Option ForgetArgs) (w : World)
    → Forgotten id w (asks_for id o) (
        (argument o >>= λ in_.
        if is_blank in_.query then forget_ids env in_ else forget_candidates env in_)
          w)
unfolding ◌>>=◌ argument raise pure
forgotten env id none w = refl
forgotten env id (some a) w = elim (Bool-cases (is_blank a.query)) [
  | inl e ↦ rw e (forget_ids-Forgotten env id a w)
  | inr e ↦ rw e (candidates-Forgotten env id a w)
]

-- A memory is gone after a successful memory_forget exactly if its id is among `ids`, `confirm` is set and
-- the query is blank; otherwise, and after every failure, its row is as it was.
pub memory_forget-find :
    (env : Env) (raw : List ℕ) (w : World) (id : ℕ)
    → let r = memory_forget env raw w in
      find memory_id id r.1.db.memories ≡ (
        if is_ok r.0 && asks_for id (env.json.forget raw)
        then none
        else find memory_id id w.db.memories)
unfolding memory_forget
memory_forget-find env raw w id = forgotten env id (env.json.forget raw) w
