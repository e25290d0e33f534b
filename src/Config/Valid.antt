-- ===== src/Config/Valid.antt =====
-- What a configuration satisfies that is read from the environment.
use yet_another_memory_bank.Common.{
  ℕ, ◌≡◌, String, Bool, true, false, ◌&&◌, not, Option, none, some, List, [], ◌∷◌, if_elim,
  if_split, if◌then◌else◌, blank, arith, All, ok, err, Ensures, Ensures-bind, bad_argument,
}
use yet_another_memory_bank.Common.Int.{ℤ, pos, le_ℤ, lt_ℤ}
use yet_another_memory_bank.Floats.{FloatOps}
use yet_another_memory_bank.Config.{
  Config, Surroundings, Step, base, text_env, refused, refused_float, assigned, apply_int_env,
  apply_int64_env, apply_float_env, steps, run_steps, load,
}

abbrev pub is_positive : ℤ → Bool
is_positive n = not (le_ℤ n (pos 0))

abbrev pub is_natural : ℤ → Bool
is_natural n = not (lt_ℤ n (pos 0))

-- The numbers of the configuration that have to be positive are, and the others are not below 0.
abbrev pub is_valid : FloatOps → Config → Bool
is_valid fl c =
    is_positive c.capture.dedup_window_seconds
    && is_positive c.memory.session_start_top_n
    && is_positive c.memory.decay_tau_days
    && is_natural c.memory.decay_interval_hours
    && is_natural c.embedding.dimensions
    && is_positive c.embedding.timeout_ms
    && is_positive c.embedding.circuit_breaker_failures
    && is_positive c.embedding.circuit_breaker_cooldown_ms
    && is_positive c.search.bm25_top_k
    && is_positive c.search.vector_top_k
    && is_positive c.search.final_top_k
    && is_positive c.search.rrf_k
    && is_positive c.search.max_per_session
    && is_positive c.compaction.min_observations
    && is_positive c.compaction.max_block_attempts
    && is_positive c.compaction.attempt_ttl_seconds
    && not (fl.lt c.memory.min_importance 0)

abbrev pub IsValid : FloatOps → Config → Type 0
IsValid fl c = is_valid fl c ≡ true

-- A step keeps what it says of the configuration.
abbrev Valid : FloatOps → Step → Type 0
Valid fl step = (c : Config) → IsValid fl c → Ensures (IsValid fl) (step c)

abbrev Accepted : Bool → ℤ → Type 0
Accepted positive n = refused positive n ≡ false

module _ (e : Surroundings) where
  text_env-Valid :
      (name : String) (set : String → Config → Config)
      → ((v : String) (c : Config) → IsValid e.floats c → IsValid e.floats (set v c))
      → Valid e.floats (text_env e name set)
  unfolding text_env
  text_env-Valid name set h c v =
      if_elim (Ensures (IsValid e.floats)) (blank (e.getenv name)) (ok c)
        (ok (set (e.getenv name) c)) v (h (e.getenv name) c v)

  assigned-Valid :
      (positive : Bool) (set : ℤ → Config → Config) (c : Config) (o : Option ℤ)
      → ((n : ℤ) → Accepted positive n → IsValid e.floats (set n c))
      → Ensures (IsValid e.floats) (assigned positive set c o)
  unfolding assigned
  assigned-Valid positive set c none h = tt
  assigned-Valid positive set c (some n) h =
      if_split (Ensures (IsValid e.floats)) (refused positive n) (err bad_argument) (ok (set n c))
        (λ _. tt) (h n)

  apply_int_env-Valid :
      (name : String) (set : ℤ → Config → Config) (positive : Bool)
      → ((n : ℤ) (c : Config)
          → Accepted positive n
          → IsValid e.floats c
          → IsValid e.floats (set n c))
      → Valid e.floats (apply_int_env e name set positive)
  unfolding apply_int_env
  apply_int_env-Valid name set positive h c v =
      if_elim (Ensures (IsValid e.floats)) (blank (e.getenv name)) (ok c) _ v
        (assigned-Valid positive set c (e.atoi (e.getenv name)) (λ n k. h n c k v))

  apply_int64_env-Valid :
      (name : String) (set : ℤ → Config → Config) (positive : Bool)
      → ((n : ℤ) (c : Config)
          → Accepted positive n
          → IsValid e.floats c
          → IsValid e.floats (set n c))
      → Valid e.floats (apply_int64_env e name set positive)
  unfolding apply_int64_env
  apply_int64_env-Valid name set positive h c v =
      if_elim (Ensures (IsValid e.floats)) (blank (e.getenv name)) (ok c) _ v
        (assigned-Valid positive set c (e.parse_int (e.getenv name)) (λ n k. h n c k v))

  run_steps-Valid :
      (rest : List Step) → All (Valid e.floats) rest → Valid e.floats (run_steps e rest)
  run_steps-Valid [] h c v = v
  run_steps-Valid (step ∷ rest) h c v =
      Ensures-bind (IsValid e.floats) (IsValid e.floats) (step c) (run_steps e rest) (h.0 c v)
        (λ c' k. run_steps-Valid rest h.1 c' k)

  apply_float_env-Valid :
      (name : String) (set : ℕ → Config → Config) (positive : Bool)
      → ((n : ℕ) (c : Config)
          → refused_float e positive n ≡ false
          → IsValid e.floats c
          → IsValid e.floats (set n c))
      → Valid e.floats (apply_float_env e name set positive)
  unfolding apply_float_env
  apply_float_env-Valid name set positive h c v =
      if_elim (Ensures (IsValid e.floats)) (blank (e.getenv name)) (ok c) _ v
        (float-Valid set positive c (e.parse_float (e.getenv name)) (λ n k. h n c k v))
    where
      float-Valid :
          (set : ℕ → Config → Config) (positive : Bool) (c : Config) (o : Option ℕ)
          → ((n : ℕ) → refused_float e positive n ≡ false → IsValid e.floats (set n c))
          → Ensures (IsValid e.floats) (elim o [
            | none ↦ err bad_argument
            | some x ↦ if refused_float e positive x then err bad_argument else ok (set x c)
          ])
      float-Valid set positive c none h = tt
      float-Valid set positive c (some x) h =
          if_split (Ensures (IsValid e.floats)) (refused_float e positive x) (err bad_argument)
            (ok (set x c)) (λ _. tt) (h x)

  steps-Valid : All (Valid e.floats) (steps e)
  steps-Valid = (
    text_env-Valid _ _ (λ n c v. v),
    (
      text_env-Valid _ _ (λ n c v. v),
      (
        apply_int64_env-Valid _ _ _ (λ n c k v. ground arith),
        (
          apply_int_env-Valid _ _ _ (λ n c k v. ground arith),
          (
            apply_int_env-Valid _ _ _ (λ n c k v. ground arith),
            (
              apply_float_env-Valid _ _ _ (λ n c k v. ground (arith, k)),
              (
                apply_int_env-Valid _ _ _ (λ n c k v. ground arith),
                (
                  text_env-Valid _ _ (λ n c v. v),
                  (
                    text_env-Valid _ _ (λ n c v. v),
                    (
                      text_env-Valid _ _ (λ n c v. v),
                      (
                        apply_int_env-Valid _ _ _ (λ n c k v. ground arith),
                        (
                          apply_int_env-Valid _ _ _ (λ n c k v. ground arith),
                          (
                            apply_int_env-Valid _ _ _ (λ n c k v. ground arith),
                            (
                              apply_int_env-Valid _ _ _ (λ n c k v. ground arith),
                              (
                                apply_int_env-Valid _ _ _ (λ n c k v. ground arith),
                                (
                                  apply_int_env-Valid _ _ _ (λ n c k v. ground arith),
                                  (
                                    apply_int_env-Valid _ _ _ (λ n c k v. ground arith),
                                    (
                                      apply_int_env-Valid _ _ _ (λ n c k v. ground arith),
                                      (
                                        apply_int_env-Valid _ _ _ (λ n c k v. ground arith),
                                        (
                                          text_env-Valid _ _ (λ n c v. v),
                                          (
                                            text_env-Valid _ _ (λ n c v. v),
                                            (
                                              apply_int_env-Valid _ _ _ (λ n c k v. ground arith),
                                              (
                                                apply_int_env-Valid _ _ _ (λ n c k v. ground arith),
                                                (
                                                  apply_int64_env-Valid _ _ _
                                                      (λ n c k v. ground arith),
                                                  tt,
                                                ),
                                              ),
                                            ),
                                          ),
                                        ),
                                      ),
                                    ),
                                  ),
                                ),
                              ),
                            ),
                          ),
                        ),
                      ),
                    ),
                  ),
                ),
              ),
            ),
          ),
        ),
      ),
    ),
  )

  -- If the configuration before the environment is read, the file's or without a file the default, has positive numbers
  -- where it needs them, and no number below 0 elsewhere, MinImportance included, so has what Load gives, where it does
  -- not fail.
  pub load-IsValid :
      (path : String)
      → Ensures (IsValid e.floats) (base e path)
      → Ensures (IsValid e.floats) (load e path)
  unfolding load
  load-IsValid path h =
      Ensures-bind (IsValid e.floats) (IsValid e.floats) (base e path) (run_steps e (steps e)) h
        (run_steps-Valid (steps e) steps-Valid)
