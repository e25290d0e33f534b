-- ===== src/Bench/Summary/Counted.antt =====
-- internal/bench/perf.go: the summaries of a run count each sample once.
use yet_another_memory_bank.Common.{
  ℕ, suc, ◌+◌, ◌≡◌, refl, ap, ◌∙◌, inl, inr, String, Bool, true, false, List, [], ◌∷◌, map, arith,
  Bool-cases, str_eq, eq_iff, eq_refl, ltb, sym, length, rows_where, rows_where-eq, blank, not,
  ◌&&◌, All, All-imp, if◌then◌else◌,
}
use mathlib.Core.Path.{subst}
use yet_another_memory_bank.Common.Sort.{insert, slice_stable}
use yet_another_memory_bank.Common.Texts.{str_eq_comm}
use yet_another_memory_bank.Bench.Metrics.{is_in}
use yet_another_memory_bank.Bench.Samples.{PerfOps, PerfSample, PerfEndpointStats}
use yet_another_memory_bank.Bench.Summary.{
  distinct_keys, is_failed, summarize_perf_group, key_of, summarize_keys, summarize_perf,
}
use yet_another_memory_bank.Store.Sessions.{text_lt}

-- how often the key is in the list
abbrev times : String → List String → ℕ
times k [] = 0
times k (x ∷ xs) = if str_eq k x then suc (times k xs) else times k xs

times-insert :
    (less : String → String → Bool) (k x : String) (ys : List String)
    → times k (insert less x ys) ≡ times k (x ∷ ys)
unfolding insert
times-insert less k x [] = refl
times-insert less k x (y ∷ ys) = elim (Bool-cases (less y x)) [
  | inl m ↦ let h = times-insert less k x ys in rw (m, h) (ground arith)
  | inr m ↦ rw m refl
]

times-slice_stable :
    (less : String → String → Bool) (k : String) (xs : List String)
    → times k (slice_stable less xs) ≡ times k xs
unfolding slice_stable
times-slice_stable less k [] = refl
times-slice_stable less k (x ∷ xs) =
    times-insert less k x (slice_stable less xs) ∙ rw (times-slice_stable less k xs) refl

is_in-times : (k : String) (xs : List String) → is_in k xs ≡ ltb 0 (times k xs)
is_in-times k [] = refl
is_in-times k (x ∷ xs) = elim (Bool-cases (str_eq k x)) [
  | inl m ↦ rw (str_eq_comm x k, m) (ground arith)
  | inr m ↦ rw (str_eq_comm x k, m) (is_in-times k xs)
]

module _ (k : String) (xs : List String)
    (h : times k (distinct_keys xs) ≡ (if is_in k xs then 1 else 0)) where
  times-distinct_keys-same : times k (distinct_keys (k ∷ xs)) ≡ 1
  times-distinct_keys-same = elim (Bool-cases (is_in k (distinct_keys xs))) [
    | inl m ↦ let i = is_in-times k (distinct_keys xs) in rw m (ground arith)
    | inr m ↦ let i = is_in-times k (distinct_keys xs) in rw (m, eq_refl k) (ground arith)
  ]

  times-distinct_keys-other :
      (x : String)
      → str_eq k x ≡ false
      → times k (distinct_keys (x ∷ xs)) ≡ times k (distinct_keys xs)
  times-distinct_keys-other x m = elim (Bool-cases (is_in x (distinct_keys xs))) [
    | inl n ↦ rw n refl
    | inr n ↦ rw (n, m) refl
  ]

times-distinct_keys :
    (k : String) (xs : List String) → times k (distinct_keys xs) ≡ (if is_in k xs then 1 else 0)
times-distinct_keys k [] = refl
times-distinct_keys k (x ∷ xs) =
    let h = times-distinct_keys k xs in
    elim (Bool-cases (str_eq k x)) [
      | inl m ↦
          let same = times-distinct_keys-same k xs h in
          let here : times k (distinct_keys (k ∷ xs)) ≡ (if is_in k (k ∷ xs) then 1 else 0) =
            rw (eq_refl k) same in
          subst
            (λ (y : String). times k (distinct_keys (y ∷ xs)) ≡ (if is_in k (y ∷ xs) then 1 else 0))
            ((eq_iff k x).0 m) here
      | inr m ↦
          let other = times-distinct_keys-other k xs h x m in rw (str_eq_comm x k, m) (other ∙ h)
    ]

-- how many of the samples with one of the keys meet the condition
abbrev part_counts : (PerfSample → String) → (PerfSample → Bool) → List PerfSample → List String → ℕ
part_counts key p samples [] = 0
part_counts key p samples (k ∷ ks) =
    length (rows_where p (rows_where (λ s. str_eq (key s) k) samples))
    + part_counts key p samples ks

module _ (key : PerfSample → String) (p : PerfSample → Bool) where
  part_counts-none : (ks : List String) → part_counts key p [] ks ≡ 0
  part_counts-none [] = refl
  part_counts-none (k ∷ ks) = rw (part_counts-none ks) refl

  part_counts-one :
      (s : PerfSample) (ss : List PerfSample) (ks : List String)
      → part_counts key p (s ∷ ss) ks
        ≡ (if p s then times (key s) ks else 0) + part_counts key p ss ks
  part_counts-one s ss [] = ground arith
  part_counts-one s ss (k ∷ ks) =
      let h = part_counts-one s ss ks in
      elim (Bool-cases (str_eq (key s) k)) [
        | inl m ↦ elim (Bool-cases (p s)) [
          | inl n ↦ rw (m, h, n) (omega arith)
          | inr n ↦ rw (m, h, n) (omega arith)
        ]
        | inr m ↦ rw (m, h) (omega arith)
      ]

  part_counts-all :
      (ks : List String) (ss : List PerfSample)
      → All (λ s. times (key s) ks ≡ 1) ss
      → part_counts key p ss ks ≡ length (rows_where p ss)
  part_counts-all ks [] h = part_counts-none ks
  part_counts-all ks (s ∷ ss) h =
      rw (part_counts-one s ss ks, h.0, part_counts-all ks ss h.1)
        (elim (Bool-cases (p s)) [ inl m ↦ rw m (omega arith) | inr m ↦ rw m (omega arith) ])

module _ (key : PerfSample → String) where
  are_listed : (ss : List PerfSample) → All (λ s. is_in (key s) (map key ss) ≡ true) ss
  are_listed [] = tt
  are_listed (s ∷ ss) = (
    rw (eq_refl (key s)) refl,
    All-imp (λ t. is_in (key t) (map key ss) ≡ true) (λ t. is_in (key t) (map key (s ∷ ss)) ≡ true)
        (λ t h. rw h (ground arith)) ss (are_listed ss),
  )

  once :
      (less : String → String → Bool) (ss : List PerfSample)
      → All (λ s. times (key s) (slice_stable less (distinct_keys (map key ss))) ≡ 1) ss
  once less ss =
      All-imp (λ s. is_in (key s) (map key ss) ≡ true)
        (λ s. times (key s) (slice_stable less (distinct_keys (map key ss))) ≡ 1)
        (λ s h.
          times-slice_stable less (key s) (distinct_keys (map key ss))
          ∙ (times-distinct_keys (key s) (map key ss) ∙ rw h refl))
        ss (are_listed ss)

-- the sum of a number of the summaries
abbrev pub total : (PerfEndpointStats → ℕ) → List PerfEndpointStats → ℕ
total f [] = 0
total f (s ∷ ss) = f s + total f ss

module _ (e : PerfOps) (f : PerfEndpointStats → ℕ) (p : PerfSample → Bool)
    (h : (first : PerfSample) (others : List PerfSample)
      → f (summarize_perf_group e first others) ≡ length (rows_where p (first ∷ others))) where
  total-group :
      (rows : List PerfSample) (rest : List PerfEndpointStats)
      → total f
          (elim rows [ [] ↦ rest | first ∷ others ↦ summarize_perf_group e first others ∷ rest ])
        ≡ length (rows_where p rows) + total f rest
  total-group [] rest = ground arith
  total-group (first ∷ others) rest = ap (λ n. n + total f rest) (h first others)

  total-summarize_keys :
      (samples : List PerfSample) (keys : List String)
      → total f (summarize_keys e samples keys) ≡ part_counts (key_of e) p samples keys
  unfolding summarize_keys
  total-summarize_keys samples [] = refl
  total-summarize_keys samples (k ∷ ks) =
      total-group (rows_where (λ s. str_eq (key_of e s) k) samples) (summarize_keys e samples ks)
      ∙ rw (total-summarize_keys samples ks) refl

  total-summarize_perf :
      (samples : List PerfSample)
      → total f (summarize_perf e samples) ≡ length (rows_where p samples)
  unfolding summarize_perf
  total-summarize_perf samples =
      total-summarize_keys samples (slice_stable text_lt (distinct_keys (map (key_of e) samples)))
      ∙ part_counts-all (key_of e) p (slice_stable text_lt (distinct_keys (map (key_of e) samples)))
          samples (once (key_of e) text_lt samples)

all-rows : {A : Type 0} (xs : List A) → rows_where (λ _. true) xs ≡ xs
all-rows [] = refl
all-rows (x ∷ xs) = ap (λ ys. x ∷ ys) (all-rows xs)

-- The sample is of a request that was answered, with a status below 500.
abbrev pub is_answered : PerfSample → Bool
is_answered s = blank s.error && (ltb 0 s.status && ltb s.status 500)

not_answered : (s : PerfSample) → is_failed s ≡ not (is_answered s)
not_answered s = ground arith

-- The summaries of a run's samples count each sample in one of them, and each without an answer as an error in one.
pub summarize_perf-total :
    (e : PerfOps) (samples : List PerfSample)
    → (total (λ s. s.requests) (summarize_perf e samples) ≡ length samples)
      × (total (λ s. s.errors) (summarize_perf e samples)
          ≡ length (rows_where (λ s. not (is_answered s)) samples))
unfolding summarize_perf_group
summarize_perf-total e samples = (
  total-summarize_perf e (λ s. s.requests) (λ _. true)
        (λ first others. ap length (sym (all-rows (first ∷ others)))) samples
      ∙ ap length (all-rows samples),
  total-summarize_perf e (λ s. s.errors) is_failed (λ first others. refl) samples
      ∙ ap length (rows_where-eq is_failed (λ s. not (is_answered s)) not_answered samples),
)
