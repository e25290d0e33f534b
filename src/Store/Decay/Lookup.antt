-- ===== src/Store/Decay/Lookup.antt =====
-- What `DecayMemories` does to each memory.
use yet_another_memory_bank.Common.{
  ℕ, ◌≡◌, refl, sym, ◌∙◌, ap, inl, inr, true, false, ◌&&◌, Option, none, some, List, [], ◌∷◌, map,
  arith, if◌then◌else◌, ◌==◌, ==_iff, Bool-cases, find, has, not, ◌||◌, find-delete, find-update,
  HasDistinctKeys, ok, err, Ensures, Ensures-bind, Ensures-imp, Ensures-and, Bool, if_elim,
  if_split,
}
use yet_another_memory_bank.Common.Int.{pos, or_default, ◌-ℤ◌}
use yet_another_memory_bank.Common.Sort.{slice_stable}
use yet_another_memory_bank.Common.Sort.Keys.{find-slice_stable, slice_stable-HasDistinctKeys}
use yet_another_memory_bank.Store.Rows.{Db, MemoryRow}
use yet_another_memory_bank.Store.Memories.{memory_id}
use yet_another_memory_bank.Store.Removal.{delete_memory, remove_rows, is_referenced}
use yet_another_memory_bank.Store.Memories.Invariant.{MemoriesOk}
use yet_another_memory_bank.Store.Decay.Kept.{decay_memories-MemoriesOk}
use yet_another_memory_bank.Store.Decay.{
  DecayOps, DecayOptions, Decayed, lower_is, decayed_importance, decay_one, smaller_id,
  set_importance, decay_step, decay_all, decay_memories,
}

-- A row after its update.
abbrev pub decayed_row : Decayed → MemoryRow → Option MemoryRow
decayed_row u m = if u.delete then none else some (record m { importance = u.importance })

abbrev pub bind_row : Option MemoryRow → (MemoryRow → Option MemoryRow) → Option MemoryRow
bind_row none f = none
bind_row (some m) f = f m

-- What an update does to the row that a lookup finds.
abbrev pub after_update : Decayed → ℕ → Option MemoryRow → Option MemoryRow
after_update u j o = if u.id == j then bind_row o (decayed_row u) else o

delete_memory-find :
    (db : Db) (id j : ℕ)
    → Ensures
        (λ r.
          find memory_id j r.1.memories ≡ (if id == j then none else find memory_id j db.memories))
        (delete_memory db id)
unfolding delete_memory remove_rows
delete_memory-find db id j =
    if_elim
      (Ensures (λ r.
        find memory_id j r.1.memories ≡ (if id == j then none else find memory_id j db.memories)))
      (has memory_id id db.memories && is_referenced id db.memories) (err _) (ok (_, _)) tt
      (find-delete memory_id id j db.memories)

deleted_row :
    (u : Decayed) (j : ℕ) (o : Option MemoryRow)
    → u.delete ≡ true
    → (if u.id == j then none else o) ≡ after_update u j o
deleted_row u j none e = ground arith
deleted_row u j (some m) e = ground (arith, e)

changed_row :
    (u : Decayed) (j : ℕ) (o : Option MemoryRow)
    → u.delete ≡ false
    → (if u.id == j
        then (elim o [ none ↦ none | some m ↦ some (record m { importance = u.importance }) ])
        else o)
      ≡ after_update u j o
changed_row u j none e = ground arith
changed_row u j (some m) e = ground (arith, e)

decay_step-find :
    (db : Db) (u : Decayed) (j : ℕ)
    → Ensures
        (λ r. find memory_id j r.1.memories ≡ after_update u j (find memory_id j db.memories))
        (decay_step db u)
unfolding decay_step set_importance
decay_step-find db u j =
    if_split (Ensures (λ r. find memory_id j r.1.memories ≡ after_update u j o)) u.delete
      (delete_memory db u.id) (ok (0, _))
      (λ e.
        Ensures-imp _ _ (delete_memory db u.id) (λ r h. h ∙ deleted_row u j o e)
          (delete_memory-find db u.id j))
      (λ e. find-update memory_id _ (λ m. refl) u.id j db.memories ∙ changed_row u j o e)
  where
    o : Option MemoryRow
    o = find memory_id j db.memories

abbrev pub after_updates : List Decayed → ℕ → Option MemoryRow → Option MemoryRow
after_updates [] j o = o
after_updates (u ∷ us) j o = after_updates us j (after_update u j o)

decay_all-find :
    (us : List Decayed) (db : Db) (j : ℕ)
    → Ensures
        (λ r. find memory_id j r.1.memories ≡ after_updates us j (find memory_id j db.memories))
        (decay_all db us)
unfolding decay_all
decay_all-find [] db j = refl
decay_all-find (u ∷ us) db j =
    Ensures-bind _
      (λ r.
        find memory_id j r.1.memories
        ≡ after_updates us j (after_update u j (find memory_id j db.memories)))
      (decay_step db u) _ (decay_step-find db u j)
      λ r e.
        Ensures-bind _
          (λ r.
            find memory_id j r.1.memories
            ≡ after_updates us j (after_update u j (find memory_id j db.memories)))
          (decay_all r.1 us) _ (decay_all-find us r.1 j) (λ r' e'. e' ∙ ap (after_updates us j) e)

module _ (fl : DecayOps) (opts : DecayOptions) where
  -- A lookup that none of the updates is about.
  after_updates-other :
      (j : ℕ) (rows : List MemoryRow) (o : Option MemoryRow)
      → has memory_id j rows ≡ false
      → after_updates (map (decay_one fl opts) rows) j o ≡ o
  unfolding decay_one
  after_updates-other j [] o h = refl
  after_updates-other j (m ∷ rows) o h = ground (arith, after_updates-other j rows o)

  after_updates-find :
      (j : ℕ) (rows : List MemoryRow)
      → HasDistinctKeys memory_id rows
      → after_updates (map (decay_one fl opts) rows) j (find memory_id j rows)
        ≡ bind_row (find memory_id j rows) (λ m. decayed_row (decay_one fl opts m) m)
  unfolding decay_one
  after_updates-find j [] d = refl
  after_updates-find j (m ∷ rows) d = elim (Bool-cases (m.id == j)) [
    | inl e ↦ rw e (
        after_updates-other j rows _
          (ap (λ (k : ℕ). has memory_id k rows) (sym ((==_iff m.id j).0 e)) ∙ d.0)
        ∙ rw e refl)
    | inr e ↦ rw e (
        ap (after_updates (map (decay_one fl opts) rows) j) (rw e refl)
        ∙ after_updates-find j rows d.1)
  ]

decay_memories-updated :
    (fl : DecayOps) (db : Db) (opts : DecayOptions) (j : ℕ)
    → MemoriesOk db
    → Ensures
        (λ r.
          find memory_id j r.1.memories
          ≡ bind_row (find memory_id j db.memories) (λ m. decayed_row (decay_one fl opts m) m))
        (decay_memories fl db opts)
unfolding decay_memories
decay_memories-updated fl db opts j v =
    Ensures-imp _ _ (decay_all db _)
      (λ r e.
        e
        ∙ ap (after_updates (map (decay_one fl opts) (slice_stable smaller_id db.memories)) j)
            (sym sorted)
        ∙ after_updates-find fl opts j (slice_stable smaller_id db.memories)
            (slice_stable-HasDistinctKeys memory_id smaller_id db.memories v.distinct)
        ∙ ap (λ o. bind_row o (λ m. decayed_row (decay_one fl opts m) m)) sorted)
      (decay_all-find _ db j)
  where
    sorted : find memory_id j (slice_stable smaller_id db.memories) ≡ find memory_id j db.memories
    sorted = find-slice_stable memory_id smaller_id j db.memories v.distinct

-- What is left of a memory: its importance times exp(-age / tau), for the milliseconds since its last access, or 0 if that
-- is in the future, and the milliseconds of TauDays, by default 30; nothing if that is below MinImportance, by default
-- 0.05, and the tier is not "procedural".
abbrev pub survivor : DecayOps → DecayOptions → MemoryRow → Option MemoryRow
survivor fl opts m =
    let days = fl.of_int (pos (or_default opts.tau_days 30)) in
    let minutes = fl.mul (fl.mul days (fl.of_int (pos 24))) (fl.of_int (pos 60)) in
    let tau = fl.mul (fl.mul minutes (fl.of_int (pos 60))) (fl.of_int (pos 1000)) in
    let since = fl.of_int (opts.now -ℤ m.accessed_at) in
    let age = if fl.lt since 0 then 0 else since in
    let importance = fl.mul m.importance (fl.exp (fl.div (fl.neg age) tau)) in
    let minimum =
      if fl.le opts.min_importance 0 then 4587366580439587226 else opts.min_importance in
    if lower_is m.tier "procedural" || not (fl.lt importance minimum)
    then some (record m { importance = importance })
    else none

if_swapped :
    {A : Type 0} (low procedural : Bool) (gone kept : A)
    → (if low && not procedural then gone else kept)
      ≡ (if procedural || not low then kept else gone)
if_swapped low true gone kept = ground arith
if_swapped low false gone kept = ground arith

decayed_row-survivor :
    (fl : DecayOps) (opts : DecayOptions) (m : MemoryRow)
    → decayed_row (decay_one fl opts m) m ≡ survivor fl opts m
unfolding decay_one decayed_importance
decayed_row-survivor fl opts m = if_swapped _ (lower_is m.tier "procedural") none _

bind_row-eq :
    (o : Option MemoryRow) (f g : MemoryRow → Option MemoryRow)
    → ((m : MemoryRow) → f m ≡ g m)
    → bind_row o f ≡ bind_row o g
bind_row-eq none f g h = refl
bind_row-eq (some m) f g h = h m

-- DecayMemories, where it does not fail and the memory tables satisfy their invariant before it, leaves of each memory what
-- its importance, its age and its tier say: it is deleted exactly when the decayed importance is below the minimum and
-- the tier is not "procedural", and otherwise only its importance changes, to the decayed one. The tables satisfy their
-- invariant after it too.
pub decay_memories-find :
    (fl : DecayOps) (db : Db) (opts : DecayOptions) (j : ℕ)
    → MemoriesOk db
    → Ensures
        (λ r.
          (find memory_id j r.1.memories
            ≡ bind_row (find memory_id j db.memories) (survivor fl opts))
          × MemoriesOk r.1)
        (decay_memories fl db opts)
decay_memories-find fl db opts j v =
    let same = bind_row-eq (find memory_id j db.memories) _ _ (decayed_row-survivor fl opts) in
    Ensures-and _ _ (decay_memories fl db opts)
      (Ensures-imp _ _ (decay_memories fl db opts) (λ r e. e ∙ same)
        (decay_memories-updated fl db opts j v))
      (decay_memories-MemoriesOk fl db opts v)
