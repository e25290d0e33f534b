-- ===== src/Store/Reports/Files/Collected.antt =====
-- The loops of `FileHistory` with their break, against the rows that match.
use yet_another_memory_bank.Common.{
  ltb, not, if◌then◌else◌, String, ◌==◌, str_eq, ◌&&◌, map, Outcome, ok, err, Ensures, Ensures-all,
  Ensures-imp, rows_where-eq, ◌>>=◌, if_split, ℕ, zero, suc, ◌-◌, ◌<◌, ◌≡◌, refl, sym, ap, ◌∙◌, inl,
  inr, Bool, true, false, List, [], ◌∷◌, ◌++◌, arith, leb, leb→le, length, length-append, take,
  rows_where, Bool-cases,
}
use mathlib.Core.List.{append_assoc, append-nil}
use Prim.Native.Char.{Char}
use yet_another_memory_bank.Common.Int.{ℤ, pos, negsuc, clamp_limit, eq_ℤ, lt_ℤ}
use yet_another_memory_bank.Common.Sort.{slice_stable}
use yet_another_memory_bank.Store.Rows.{Db, MemoryRow, ObservationRow}
use yet_another_memory_bank.Store.Observations.{Zstd, Observation, scan_observations}
use yet_another_memory_bank.Store.Memories.{Memory, scan_memory, is_given}
use yet_another_memory_bank.Store.Reports.Files.Named.{names_file, contains_any_file-normalized}
use yet_another_memory_bank.Store.Reports.Files.{
  FileHistory, collect, contains_any_file, normalized_files, history_of, file_history,
}

module _ {ℓ} {A : Type ℓ} (p : A → Bool) (limit : ℕ) where
  take-nil : (n : ℕ) → take {A = A} n [] ≡ []
  take-nil zero = refl
  take-nil (suc n) = refl

  below_of : (n m : ℕ) → leb n m ≡ false → m < n
  below_of n m h = ground arith

  take-one : (n : ℕ) (x : A) (xs : List A) → n ≡ 1 → take n (x ∷ xs) ≡ x ∷ []
  take-one n x xs h = rw h refl

  take-suc : (n m : ℕ) (x : A) (xs : List A) → n ≡ suc m → take n (x ∷ xs) ≡ x ∷ take m xs
  take-suc n m x xs h = rw h refl

  collect-from :
      (xs matched : List A)
      → length matched < limit
      → collect p limit matched xs ≡ matched ++ take (limit - length matched) (rows_where p xs)
  unfolding collect
  collect-from [] matched h =
      sym (ap (λ ys. matched ++ ys) (take-nil (limit - length matched)) ∙ append-nil matched)
  collect-from (x ∷ xs) matched h = elim (Bool-cases (p x)) [
    | inr e ↦ rw e (elim (Bool-cases (leb limit (length matched))) [
      | inl l ↦ absurd (omega (arith, h, leb→le limit (length matched) l))
      | inr l ↦ rw l (collect-from xs matched h)
    ])
    | inl e ↦
        let grown = length-append matched (x ∷ []) in
        rw e (elim (Bool-cases (leb limit (length (matched ++ x ∷ [])))) [
          | inl l ↦ rw l (
              ap (λ ys. matched ++ ys)
                (sym (
                  take-one (limit - length matched) x (rows_where p xs)
                    (omega (arith, h, grown, leb→le limit (length (matched ++ x ∷ [])) l)))))
          | inr l ↦
              let below : length (matched ++ x ∷ []) < limit =
                below_of limit (length (matched ++ x ∷ [])) l in
              rw l (
                collect-from xs (matched ++ x ∷ []) below
                ∙ append_assoc matched (x ∷ []) _
                ∙ ap (λ ys. matched ++ ys)
                    (sym (
                      take-suc (limit - length matched) (limit - length (matched ++ x ∷ [])) x
                        (rows_where p xs) (omega (arith, grown, below)))))
        ])
  ]

  -- The loop with its break leaves the first `limit` of the elements that match, for a positive limit.
  pub collect-eq-take :
      (xs : List A) → 0 < limit → collect p limit [] xs ≡ take limit (rows_where p xs)
  collect-eq-take xs h =
      let e : limit - 0 ≡ limit = omega arith in
      collect-from xs [] h ∙ ap (λ n. take n (rows_where p xs)) e

clamp_limit-positive : (limit : ℤ) (n m : ℕ) → 0 < n → 0 < m → 0 < clamp_limit limit n m
unfolding clamp_limit
clamp_limit-positive (pos zero) n m h k = ground arith
clamp_limit-positive (pos (suc a)) n m h k = ground arith
clamp_limit-positive (negsuc a) n m h k = ground arith

not_empty : (n : ℕ) → ¬ ((suc n == 0) ≡ true)
not_empty n h = absurd (ground arith)

-- no file, no match
no_files {ℓ} :
    {A : Type ℓ} (lower : Char → Char) (f : A → String) (files : List String) (n : ℕ) (xs : List A)
    → (length files == 0) ≡ true
    → take n (rows_where (λ x. contains_any_file lower (f x) files) xs) ≡ []
unfolding contains_any_file
no_files lower f (c ∷ files) n xs h = absurd (not_empty (length files) h)
no_files lower f [] zero xs h = refl
no_files lower f [] (suc n) [] h = refl
no_files lower f [] (suc n) (x ∷ xs) h = no_files lower f [] (suc n) xs h

-- the later one, and of two at one time the one with the greater id
abbrev pub newer_memory : MemoryRow → MemoryRow → Bool
newer_memory a b =
    if eq_ℤ a.created_at b.created_at then ltb b.id a.id else lt_ℤ b.created_at a.created_at

abbrev pub newer_observation : ObservationRow → ObservationRow → Bool
newer_observation a b = if eq_ℤ b.ts a.ts then ltb b.id a.id else lt_ℤ b.ts a.ts

module _ (z : Zstd) (lower : Char → Char) (text : List ℕ → String) (db : Db)
    (project : String) where
  -- the newest 500 memories of the project that no other supersedes, and as many of its observations, both newest first
  abbrev pub newest_memories : List Memory
  newest_memories = map scan_memory (
      take 500 (
        slice_stable newer_memory (
          rows_where (λ m. str_eq m.project project && not (is_given m.superseded_by))
            db.memories)))

  abbrev pub newest_observations : Outcome (List Observation)
  newest_observations = scan_observations z (
      take 500
        (slice_stable newer_observation (rows_where (λ o. str_eq o.cwd project) db.observations)))

  -- the first of those that match, for what the reading of the observations gives
  abbrev Matching : List String → ℕ → Outcome (List Observation) → FileHistory → Type 0
  Matching files n o h =
      (h.memories ≡ take n (rows_where (λ m. contains_any_file lower m.text files) newest_memories))
      × Ensures
          (λ os.
            h.observations
            ≡ take n (rows_where (λ q. contains_any_file lower (text q.payload_json) files) os))
          o

  scanned-Matching :
      (files : List String) (limit : ℤ) (o : Outcome (List Observation))
      → let n = clamp_limit limit 20 200 in
        Ensures (Matching files n o) (
          o >>= λ os. ok (record {
            memories = collect (λ m. contains_any_file lower m.text files) n [] newest_memories;
            observations =
                collect (λ q. contains_any_file lower (text q.payload_json) files) n [] os;
          }))
  scanned-Matching files limit (err e) = tt
  scanned-Matching files limit (ok os) =
      let h = clamp_limit-positive limit 20 200 (omega arith) (omega arith) in
      (
        collect-eq-take _ (clamp_limit limit 20 200) newest_memories h,
        collect-eq-take _ (clamp_limit limit 20 200) os h,
      )

  found-Matching :
      (files : List String) (limit : ℤ)
      → Ensures
          (Matching (normalized_files lower files) (clamp_limit limit 20 200) newest_observations)
          (file_history z lower text db project files limit)
  unfolding file_history history_of
  found-Matching files limit =
      let fs = normalized_files lower files in
      if_split (Ensures (Matching fs (clamp_limit limit 20 200) newest_observations))
        (length fs == 0) _ _
        (λ e. (
          sym (no_files lower (λ m. m.text) fs _ newest_memories e),
          Ensures-all _ newest_observations
              (λ os. sym (no_files lower (λ q. text q.payload_json) fs _ os e)),
        ))
        (λ e. scanned-Matching fs limit newest_observations)

  -- the first `n` of those whose text names one of the files
  abbrev pub IsHistory : List String → ℕ → FileHistory → Type 0
  IsHistory files n h =
      (h.memories ≡ take n (rows_where (λ m. names_file lower files m.text) newest_memories))
      × Ensures
          (λ os.
            h.observations
            ≡ take n (rows_where (λ q. names_file lower files (text q.payload_json)) os))
          newest_observations

  named_rows {ℓ} :
      {A : Type ℓ} (f : A → String) (files : List String) (n : ℕ) (xs : List A)
      → take n (rows_where (λ x. contains_any_file lower (f x) (normalized_files lower files)) xs)
        ≡ take n (rows_where (λ x. names_file lower files (f x)) xs)
  named_rows f files n xs = ap (take n) (
      rows_where-eq (λ x. contains_any_file lower (f x) (normalized_files lower files))
        (λ x. names_file lower files (f x)) (λ x. contains_any_file-normalized lower (f x) files)
        xs)

  -- FileHistory, where it does not fail, gives the first memories and observations, as many as the limit between 1 and
  -- 200 says, among the newest 500 active memories and the newest 500 observations of the project, of those whose text,
  -- in lower case, has one of the given files, trimmed and in lower case, where that is not empty.
  pub file_history-IsHistory :
      (files : List String) (limit : ℤ)
      → Ensures
          (IsHistory files (clamp_limit limit 20 200))
          (file_history z lower text db project files limit)
  file_history-IsHistory files limit =
      let n = clamp_limit limit 20 200 in
      Ensures-imp (Matching (normalized_files lower files) n newest_observations)
        (IsHistory files n) (file_history z lower text db project files limit)
        (λ h m. (
          m.0 ∙ named_rows (λ m. m.text) files n newest_memories,
          Ensures-imp _ _ newest_observations
              (λ os e. e ∙ named_rows (λ q. text q.payload_json) files n os) m.1,
        ))
        (found-Matching files limit)
