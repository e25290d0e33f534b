-- ===== src/Admin/Measuring.antt =====
-- The options of bench and of perf-seed: internal/admin/bench.go and internal/admin/perf_seed.go.
pub mod Numbers
use Prim.Native.Char.{code}
use Prim.Native.String.{◌++◌ as append_text}
use yet_another_memory_bank.Common.{
  ℕ, String, Bool, true, false, Option, none, some, List, [], ◌∷◌, ◌++◌, if◌then◌else◌, ◌==◌,
  str_eq, blank, ◌>>=◌, Outcome, ok, err, bad_argument,
}
use yet_another_memory_bank.Common.Int.{ℤ, pos, le_ℤ, lt_ℤ}
use yet_another_memory_bank.Common.Texts.{trim_space}
use yet_another_memory_bank.Admin.Flags.{Setter, parse}
use yet_another_memory_bank.Admin.Doctor.{keep_argument}
use yet_another_memory_bank.Admin.Options.{positive}
use yet_another_memory_bank.Config.{Surroundings, load}

pub record BenchOptions : Type 0 where
  pub out_dir : String
  pub dataset : String
  pub url : String
  pub project : String
  pub run_id : String
  pub limit : ℤ
  pub requests : ℤ
  pub concurrency : List ℤ
  pub groups : List String
  pub fail_on_budget : Bool

pub record SeedOptions : Type 0 where
  pub db_path : String
  pub project : String
  pub run_id : String
  pub out_dir : String
  pub sessions : ℤ
  pub memories : ℤ
  pub observations : ℤ

-- strings.Split(value, ","): the first part, and the others
unfoldable pub split_commas : String → String × List String
split_commas String.[] = ("", [])
split_commas (String.◌∷◌ c s) =
    let r = split_commas s in if code c == 44 then ("", r.0 ∷ r.1) else (String.◌∷◌ c r.0, r.1)

abbrev pub parts : String → List String
parts value = (split_commas value).0 ∷ (split_commas value).1

-- the loop of parseStringList
abbrev pub kept_parts : List String → List String
kept_parts [] = []
kept_parts (part ∷ rest) =
    let t = trim_space part in if blank t then kept_parts rest else t ∷ kept_parts rest

unfoldable pub parse_string_list : String → List String
unfolding split_commas trim_space
parse_string_list value = kept_parts (parts value)

-- a number that strconv.Atoi gives, if it is not negative
unfoldable pub non_negative : Option ℤ → Outcome ℤ
non_negative none = err bad_argument
non_negative (some n) = if lt_ℤ n (pos 0) then err bad_argument else ok n

-- opts and rest
abbrev pub Benched : Type 0
Benched = BenchOptions × List String

module _ (e : Surroundings) where
  -- the loop of parsePositiveIntList
  unfoldable pub positive_parts : List String → Outcome (List ℤ)
  positive_parts [] = ok []
  positive_parts (part ∷ rest) =
      positive (e.atoi (trim_space part)) >>= λ n. positive_parts rest >>= λ ns. ok (n ∷ ns)

  unfoldable pub parse_positive_int_list : String → Outcome (List ℤ)
  unfolding positive_parts split_commas
  parse_positive_int_list value = positive_parts (parts value)

  abbrev pub bench_flags : List (String × Setter Benched)
  bench_flags =
      ("--out", λ value s. ok (record s.0 { out_dir = value }, s.1))
      ∷ ("--dataset", λ value s. ok (record s.0 { dataset = value }, s.1))
      ∷ ("--url", λ value s. ok (record s.0 { url = value }, s.1))
      ∷ ("--project", λ value s. ok (record s.0 { project = value }, s.1))
      ∷ ("--run-id", λ value s. ok (record s.0 { run_id = value }, s.1))
      ∷ (
        "--requests",
        λ value s. positive (e.atoi value) >>= λ n. ok (record s.0 { requests = n }, s.1),
      )
      ∷ (
        "--concurrency",
        λ value s.
            parse_positive_int_list value >>= λ ns. ok (record s.0 { concurrency = ns }, s.1),
      )
      ∷ ("--groups", λ value s. ok (record s.0 { groups = parse_string_list value }, s.1))
      ∷ (
        "--limit",
        λ value s. non_negative (e.atoi value) >>= λ n. ok (record s.0 { limit = n }, s.1),
      )
      ∷ []

  -- `--fail-on-budget`, which has no value, and the default of the switch
  unfoldable pub other_bench : Setter Benched
  other_bench arg s =
      if str_eq arg "--fail-on-budget"
      then ok (record s.0 { fail_on_budget = true }, s.1)
      else keep_argument arg s

  unfoldable pub parse_bench_options : List String → Outcome Benched
  unfolding other_bench parse_positive_int_list parse_string_list non_negative
  parse_bench_options args = parse bench_flags other_bench args (
    record {
      out_dir = "";
      dataset = "";
      url = "";
      project = "";
      run_id = "";
      limit = pos 0;
      requests = pos 0;
      concurrency = [];
      groups = [];
      fail_on_budget = false;
    },
    [],
  )

  abbrev pub seed_flags : List (String × Setter SeedOptions)
  seed_flags =
      ("--db", λ value s. ok (record s { db_path = value }))
      ∷ ("--project", λ value s. ok (record s { project = value }))
      ∷ ("--run-id", λ value s. ok (record s { run_id = value }))
      ∷ ("--out", λ value s. ok (record s { out_dir = value }))
      ∷ (
        "--sessions",
        λ value s. non_negative (e.atoi value) >>= λ n. ok (record s { sessions = n }),
      )
      ∷ (
        "--memories",
        λ value s. non_negative (e.atoi value) >>= λ n. ok (record s { memories = n }),
      )
      ∷ (
        "--observations",
        λ value s. non_negative (e.atoi value) >>= λ n. ok (record s { observations = n }),
      )
      ∷ []

  -- the tests after the loop
  unfoldable pub checked_seed : SeedOptions → Outcome SeedOptions
  checked_seed s =
      if blank s.project
      then err bad_argument
      else if le_ℤ s.sessions (pos 0)
      then err bad_argument
      else ok s

  unfoldable pub parse_perf_seed_options : List String → Outcome SeedOptions
  unfolding non_negative checked_seed load
  parse_perf_seed_options args = do
    cfg ← load e ""
    opts ←
        parse seed_flags (λ arg s. err bad_argument) args
          (record {
            db_path = cfg.storage.db_path;
            project = "";
            run_id = "perf";
            out_dir = "";
            sessions = pos 100;
            memories = pos 1000;
            observations = pos 10000;
          })
    checked_seed opts
