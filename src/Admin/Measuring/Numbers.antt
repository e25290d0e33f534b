-- ===== src/Admin/Measuring/Numbers.antt =====
-- internal/admin/perf_seed.go: the numbers of the options.
use yet_another_memory_bank.Common.{
  ◌≡◌, refl, String, false, Option, none, some, List, Bool-cases, inl, inr, blank, ◌>>=◌, ok, err,
  Ensures, Ensures-bind, Ensures-all, bad_argument,
}
use yet_another_memory_bank.Common.Int.{ℤ, pos, le_ℤ, lt_ℤ}
use yet_another_memory_bank.Admin.Flags.{parse}
use yet_another_memory_bank.Admin.Flags.Keeps.{parse-Ensures}
use yet_another_memory_bank.Admin.Measuring.{
  SeedOptions, non_negative, seed_flags, checked_seed, parse_perf_seed_options,
}
use yet_another_memory_bank.Config.{Config, Surroundings, load}

-- No number is negative.
abbrev pub IsCounted : SeedOptions → Type 0
IsCounted s =
    (lt_ℤ s.sessions (pos 0) ≡ false)
    × ((lt_ℤ s.memories (pos 0) ≡ false) × (lt_ℤ s.observations (pos 0) ≡ false))

-- There are a project and a session.
abbrev pub IsSeedable : SeedOptions → Type 0
IsSeedable s = (blank s.project ≡ false) × ((le_ℤ s.sessions (pos 0) ≡ false) × IsCounted s)

non_negative-Ensures : (n : Option ℤ) → Ensures (λ m. lt_ℤ m (pos 0) ≡ false) (non_negative n)
unfolding non_negative
non_negative-Ensures none = tt
non_negative-Ensures (some n) = elim (Bool-cases (lt_ℤ n (pos 0))) [
  | inl h ↦ rw h tt
  | inr h ↦ rw h h
]

checked_seed-IsSeedable :
    (e : Surroundings) (s : SeedOptions) → IsCounted s → Ensures IsSeedable (checked_seed e s)
unfolding checked_seed
checked_seed-IsSeedable e s v = elim (Bool-cases (blank s.project)) [
  | inl h ↦ rw h tt
  | inr h ↦
      rw h
        (elim (Bool-cases (le_ℤ s.sessions (pos 0))) [ inl k ↦ rw k tt | inr k ↦ rw k (h, (k, v)) ])
]

module _ (e : Surroundings) where
  -- a number that is taken over
  IsCounted-IsKeeping :
      (set : ℤ → SeedOptions → SeedOptions)
      → ((n : ℤ) (s : SeedOptions) → lt_ℤ n (pos 0) ≡ false → IsCounted s → IsCounted (set n s))
      → (value : String) (s : SeedOptions) → IsCounted s
      → Ensures IsCounted (non_negative (e.atoi value) >>= λ n. ok (set n s))
  IsCounted-IsKeeping set h value s v =
      Ensures-bind (λ n. lt_ℤ n (pos 0) ≡ false) IsCounted (non_negative (e.atoi value))
        (λ n. ok (set n s)) (non_negative-Ensures (e.atoi value)) (λ n k. h n s k v)

  flags-IsCounted :
      (args : List String) (s : SeedOptions)
      → IsCounted s
      → Ensures IsCounted (parse (seed_flags e) (λ arg t. err bad_argument) args s)
  flags-IsCounted =
      parse-Ensures IsCounted (seed_flags e) (λ arg t. err bad_argument)
        (
          (λ value s v. v),
          (
            (λ value s v. v),
            (
              (λ value s v. v),
              (
                (λ value s v. v),
                (
                  IsCounted-IsKeeping (λ n s. record s { sessions = n }) (λ n s k v. (k, v.1)),
                  (
                    IsCounted-IsKeeping (λ n s. record s { memories = n })
                        (λ n s k v. (v.0, (k, v.1.1))),
                    (
                      IsCounted-IsKeeping (λ n s. record s { observations = n })
                          (λ n s k v. (v.0, (v.1.0, k))),
                      tt,
                    ),
                  ),
                ),
              ),
            ),
          ),
        )
        (λ value s v. tt)

  -- Whatever the arguments, the options of perf-seed that are accepted have a project, a session, and no negative number.
  pub parse_perf_seed_options-IsSeedable :
      (args : List String) → Ensures IsSeedable (parse_perf_seed_options e args)
  unfolding parse_perf_seed_options
  parse_perf_seed_options-IsSeedable args =
      Ensures-bind (λ (_ : Config). Unit {0}) IsSeedable (load e "") _
        (Ensures-all (λ _. Unit {0}) (load e "") (λ _. tt))
        λ cfg u.
          Ensures-bind IsCounted IsSeedable
            (parse (seed_flags e) (λ arg t. err bad_argument) args _) (checked_seed e)
            (flags-IsCounted args _ (refl, (refl, refl))) (checked_seed-IsSeedable e)
