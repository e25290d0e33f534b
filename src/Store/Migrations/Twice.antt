-- ===== src/Store/Migrations/Twice.antt =====
-- internal/store/migrations.go: a second run of the migrations.
use yet_another_memory_bank.Common.{
  String, true, false, Option, none, some, List, [], ◌∷◌, ◌++◌, arith, inl, inr, ◌⊎◌, ◌≡◌, refl,
  sym, ◌∙◌, Bool-cases, exists_where-append, Outcome, ok, err, Ensures, Ensures-imp,
  committed-Ensures, bad_migration,
}
use mathlib.Core.Path.{subst}
use yet_another_memory_bank.Common.Action.{
  ◌>>=◌, ◌>>◌, pure, query, proceed, settle_, transact_, Keeps, Keeps-bind, Keeps-then, Keeps-query,
  Keeps-transact_, Keeps-pure, After, After-bind, After-and,
}
use yet_another_memory_bank.Common.Int.{ℤ, eq_ℤ}
use yet_another_memory_bank.Common.Sort.{slice_stable}
use yet_another_memory_bank.Store.Migrations.{
  Entry, Scripts, Schema, version_applied, apply_migration, entry_version, apply_version,
  apply_entries, apply_migrations, name_before,
}

eq_ℤ_refl : (n : ℤ) → eq_ℤ n n ≡ true
eq_ℤ_refl n = ground arith

module _ (e : Scripts) where
  abbrev HasVersion : ℤ → Schema e → Type 0
  HasVersion version s = version_applied e s version ≡ true

  -- The version of an entry is applied, if it has one.
  abbrev Applied : Outcome (Option ℤ) → Schema e → Type 0
  Applied (err x) s = false ≡ true
  Applied (ok none) s = Unit
  Applied (ok (some version)) s = HasVersion version s

  abbrev AllApplied : List Entry → Schema e → Type 0
  AllApplied [] s = Unit
  AllApplied (entry ∷ entries) s = Applied (entry_version e entry) s × AllApplied entries s

  -- what the script of a migration leaves
  executed-Ensures :
      (P : Schema e → Type 0) (version : ℤ) (s : Schema e) (o : Option e.Tables)
      → ((tables : e.Tables)
          → P (record { tables = tables; versions = s.versions ++ version ∷ [] }))
      → Ensures P (elim o [
        | none ↦ err bad_migration
        | some tables ↦ ok (record { tables = tables; versions = s.versions ++ version ∷ [] })
      ])
  executed-Ensures P version s none k = tt
  executed-Ensures P version s (some tables) k = k tables

  added-HasVersion :
      (version added : ℤ) (s : Schema e) (tables : e.Tables)
      → (version_applied e s version ≡ true) ⊎ (version ≡ added)
      → HasVersion version (record { tables = tables; versions = s.versions ++ added ∷ [] })
  unfolding version_applied
  added-HasVersion version added s tables h =
      exists_where-append (λ v. eq_ℤ v version) s.versions (added ∷ [])
      ∙ (elim h [ inl k ↦ rw k refl | inr p ↦ rw p (ground (arith, eq_ℤ_refl added)) ])

  apply_migration-Ensures :
      (version added : ℤ) (sql : String) (s : Schema e)
      → (version_applied e s version ≡ true) ⊎ (version ≡ added)
      → Ensures (HasVersion version) (apply_migration e added sql s)
  unfolding apply_migration
  apply_migration-Ensures version added sql s h = elim (Bool-cases (version_applied e s added)) [
    | inl k ↦ rw k (elim h [ inl v ↦ v | inr p ↦ subst (λ v. HasVersion v s) (sym p) k ])
    | inr k ↦ rw k (
        executed-Ensures (HasVersion version) added s (e.execute sql s.tables)
          (λ tables. added-HasVersion version added s tables h))
  ]

  apply_version-Keeps :
      (version : ℤ) (sql : String) (o : Option ℤ)
      → Keeps (HasVersion version) (apply_version e sql o)
  unfolding apply_version
  apply_version-Keeps version sql none = Keeps-pure tt
  apply_version-Keeps version sql (some added) =
      Keeps-transact_ (apply_migration e added sql) λ s v.
        committed-Ensures (HasVersion version) s (apply_migration e added sql s) v
          (apply_migration-Ensures version added sql s (inl v))

  apply_entries-Keeps :
      (version : ℤ) (entries : List Entry) → Keeps (HasVersion version) (apply_entries e entries)
  unfolding apply_entries
  apply_entries-Keeps version [] = Keeps-pure tt
  apply_entries-Keeps version (entry ∷ entries) = Keeps-bind (Keeps-query _) λ o.
      Keeps-then (apply_version-Keeps version entry.sql o) (apply_entries-Keeps version entries)

  Applied-Keeps :
      (entries : List Entry) (o : Outcome (Option ℤ)) → Keeps (Applied o) (apply_entries e entries)
  Applied-Keeps entries (err x) = record { apply = λ s v. ground (arith, v) }
  Applied-Keeps entries (ok none) = record { apply = λ s v. tt }
  Applied-Keeps entries (ok (some version)) = apply_entries-Keeps version entries

  apply_version-Applied :
      (sql : String) (o : Option ℤ) (s : Schema e)
      → After (λ _ s'. Applied (ok o) s') (apply_version e sql o s)
  unfolding apply_version pure transact_
  apply_version-Applied sql none s = tt
  apply_version-Applied sql (some version) s =
      settled (apply_migration e version sql s)
        (apply_migration-Ensures version version sql s (inr refl))
    where
      settled :
          (r : Outcome (Schema e))
          → Ensures (HasVersion version) r
          → After (λ (_ : Unit {0}) s'. HasVersion version s') (settle_ s r)
      settled (ok s') h = h
      settled (err x) h = tt

  apply_entries-AllApplied :
      (entries : List Entry) (s : Schema e)
      → After (λ _ s'. AllApplied entries s') (apply_entries e entries s)
  unfolding apply_entries query ◌>>=◌ ◌>>◌ pure
  apply_entries-AllApplied [] s = tt
  apply_entries-AllApplied (entry ∷ entries) s =
      versioned (entry_version e entry) (λ s'. apply_entries-AllApplied entries s')
    where
      versioned :
          (o : Outcome (Option ℤ))
          → ((s' : Schema e)
              → After (λ (_ : Unit {0}) s2. AllApplied entries s2) (apply_entries e entries s'))
          → After
              (λ (_ : Unit {0}) s'. Applied o s' × AllApplied entries s')
              (proceed (λ v. apply_version e entry.sql v >> apply_entries e entries) o s)
      versioned (err x) k = tt
      versioned (ok o) k =
          After-bind (λ _ s'. Applied (ok o) s') (λ _ s'. Applied (ok o) s' × AllApplied entries s')
            (apply_version e entry.sql o) (λ _. apply_entries e entries) s
            (apply_version-Applied entry.sql o s)
            λ _ s' a.
              let run = apply_entries e entries s' in
              After-and (Applied (ok o)) (λ _ s2. AllApplied entries s2) run.0 run.1
                ((Applied-Keeps entries (ok o)).apply s' a) (k s')

  apply_entries-again :
      (entries : List Entry) (s : Schema e)
      → AllApplied entries s
      → apply_entries e entries s ≡ (ok tt, s)
  unfolding apply_entries query ◌>>=◌ ◌>>◌ pure apply_version transact_ apply_migration
  apply_entries-again [] s h = refl
  apply_entries-again (entry ∷ entries) s h =
      versioned (entry_version e entry) h.0 (apply_entries-again entries s h.1)
    where
      versioned :
          (o : Outcome (Option ℤ))
          → Applied o s
          → apply_entries e entries s ≡ (ok tt, s)
          → proceed (λ v. apply_version e entry.sql v >> apply_entries e entries) o s ≡ (ok tt, s)
      versioned (err x) a k = ground (arith, a)
      versioned (ok none) a k = k
      versioned (ok (some version)) a k = rw a k

-- After migrations that succeed, a second run of them succeeds, and changes neither the tables nor the applied versions.
pub apply_migrations-twice :
    (e : Scripts) (entries : List Entry) (s : Schema e)
    → After (λ _ s'. apply_migrations e entries s' ≡ (ok tt, s')) (apply_migrations e entries s)
unfolding apply_migrations
apply_migrations-twice e entries s =
    let sorted = slice_stable name_before entries in
    let run = apply_entries e sorted s in
    Ensures-imp (λ _. AllApplied e sorted run.1)
      (λ _. apply_entries e sorted run.1 ≡ (ok tt, run.1)) run.0
      (λ _ h. apply_entries-again e sorted run.1 h) (apply_entries-AllApplied e sorted s)
