-- ===== src/Store/Decay/Success.antt =====
-- When `DecayMemories` cannot fail.
use yet_another_memory_bank.Common.{
  ℕ, ◌≡◌, refl, ◌∙◌, inl, inr, true, false, ◌&&◌, List, [], ◌∷◌, map, arith, ◌==◌, Bool-cases, All,
  All-imp, delete_where, update_where, has, ok, err, is_ok, is_ok-bind, Ensures, Ensures-all,
  if_elim,
}
use yet_another_memory_bank.Common.Sort.{slice_stable}
use yet_another_memory_bank.Common.Sort.Laws.{All-slice_stable}
use yet_another_memory_bank.Store.Rows.{Db, MemoryRow}
use yet_another_memory_bank.Store.Memories.{memory_id}
use yet_another_memory_bank.Store.Removal.{delete_memory, remove_rows, is_referenced}
use yet_another_memory_bank.Store.Decay.{
  DecayOps, DecayOptions, Decayed, decay_one, smaller_id, set_importance, decay_step, decay_all,
  decay_memories,
}

delete-is_referenced :
    (i j : ℕ) (ms : List MemoryRow)
    → is_referenced i ms ≡ false
    → is_referenced i (delete_where (λ m. memory_id m == j) ms) ≡ false
delete-is_referenced i j [] h = refl
delete-is_referenced i j (m ∷ ms) h = ground (arith, delete-is_referenced i j ms)

update-is_referenced :
    (i j x : ℕ) (ms : List MemoryRow)
    → is_referenced i (update_where (λ m. memory_id m == j) (λ m. record m { importance = x }) ms)
      ≡ is_referenced i ms
update-is_referenced i j x [] = refl
update-is_referenced i j x (m ∷ ms) = ground (arith, update-is_referenced i j x ms)

-- What is deleted is not referred to.
abbrev pub IsFree : List MemoryRow → Decayed → Type 0
IsFree ms u = u.delete ≡ true → is_referenced u.id ms ≡ false

abbrev pub AllFree : List MemoryRow → List Decayed → Type 0
AllFree ms = All (IsFree ms)

decay_step-is_ok : (db : Db) (u : Decayed) → IsFree db.memories u → is_ok (decay_step db u) ≡ true
unfolding decay_step delete_memory
decay_step-is_ok db u h = elim (Bool-cases u.delete) [
  | inl e ↦
      rw (e, h e)
        (elim (Bool-cases (has memory_id u.id db.memories)) [
          | inl k ↦ rw k refl
          | inr k ↦ rw k refl
        ])
  | inr e ↦ rw e refl
]

decay_step-AllFree :
    (db : Db) (u : Decayed) (us : List Decayed)
    → AllFree db.memories us
    → Ensures (λ r. AllFree r.1.memories us) (decay_step db u)
unfolding decay_step delete_memory remove_rows set_importance
decay_step-AllFree db u us h =
    if_elim (Ensures (λ r. AllFree r.1.memories us)) u.delete (delete_memory db u.id) (ok (0, _))
      (if_elim (Ensures (λ r. AllFree r.1.memories us))
        (has memory_id u.id db.memories && is_referenced u.id db.memories) (err _) (ok (_, _)) tt
        (All-imp _ _ (λ x k e. delete-is_referenced x.id u.id db.memories (k e)) us h))
      (All-imp _ _ (λ x k e. update-is_referenced x.id u.id u.importance db.memories ∙ k e) us h)

decay_all-is_ok :
    (us : List Decayed) (db : Db) → AllFree db.memories us → is_ok (decay_all db us) ≡ true
unfolding decay_all
decay_all-is_ok [] db h = refl
decay_all-is_ok (u ∷ us) db h =
    is_ok-bind (λ r. AllFree r.1.memories us) (decay_step db u) _ (decay_step-is_ok db u h.0)
      (decay_step-AllFree db u us h.1)
      λ r k.
        is_ok-bind (λ _. Unit {0}) (decay_all r.1 us) _ (decay_all-is_ok us r.1 k)
          (Ensures-all (λ _. Unit {0}) (decay_all r.1 us) (λ _. tt)) (λ _ _. refl)

AllFree-map :
    (fl : DecayOps) (opts : DecayOptions) (ms rows : List MemoryRow)
    → All (λ m. IsFree ms (decay_one fl opts m)) rows
    → AllFree ms (map (decay_one fl opts) rows)
AllFree-map fl opts ms [] h = tt
AllFree-map fl opts ms (m ∷ rows) h = (h.0, AllFree-map fl opts ms rows h.1)

-- Decay succeeds if no memory that it is to delete is referred to by another memory's
-- `superseded_by`.
pub decay_memories-is_ok :
    (fl : DecayOps) (db : Db) (opts : DecayOptions)
    → All (λ m. IsFree db.memories (decay_one fl opts m)) db.memories
    → is_ok (decay_memories fl db opts) ≡ true
unfolding decay_memories
decay_memories-is_ok fl db opts h = decay_all-is_ok _ db (
    AllFree-map fl opts db.memories (slice_stable smaller_id db.memories)
      (All-slice_stable smaller_id _ db.memories h))
