-- ===== src/Admin/Options.antt =====
-- The options of the admin commands: parseOptions, parseCompactOptions and parseDecayOptions of
-- internal/admin/run.go.
pub mod Spelling
use yet_another_memory_bank.Common.{
  ℕ, String, Bool, true, false, ◌||◌, Option, none, some, List, [], ◌∷◌, ◌++◌, if◌then◌else◌, blank,
  ◌>>=◌, Outcome, ok, err, bad_argument, bad_request,
}
use yet_another_memory_bank.Common.Int.{ℤ, pos, le_ℤ}
use yet_another_memory_bank.Common.Texts.{has_prefix}
use yet_another_memory_bank.Admin.Flags.{Setter, parse}
use yet_another_memory_bank.Config.{Config, Surroundings, load}
use yet_another_memory_bank.Floats.{Float64}

-- What a command has from outside: the environment, and io.Getwd.
pub record Surface : Type 0 where
  pub surroundings : Surroundings
  pub getwd : Option String

pub record Options : Type 0 where
  pub db_path : String
  pub project : String
  pub limit : ℤ

-- opts and rest
pub record Parsed : Type 0 where
  pub opts : Options
  pub rest : List String

abbrev pub set_db : Setter Parsed
set_db value p = ok (record p { opts = record p.opts { db_path = value } })

abbrev pub set_project : Setter Parsed
set_project value p = ok (record p { opts = record p.opts { project = value } })

-- a number that strconv.Atoi gives, if it is positive
abbrev pub positive : Option ℤ → Outcome ℤ
positive none = err bad_argument
positive (some n) = if le_ℤ n (pos 0) then err bad_argument else ok n

-- the default of the switch
unfoldable pub keep_word : Setter Parsed
keep_word arg p =
    if has_prefix arg "--" then err bad_argument else ok (record p { rest = p.rest ++ arg ∷ [] })

-- io.Getwd() stands for a project that is empty.
unfoldable pub with_project : Option String → Parsed → Outcome Parsed
with_project getwd p =
    if blank p.opts.project
    then (elim getwd [
      | none ↦ err bad_request
      | some cwd ↦ ok (record p { opts = record p.opts { project = cwd } })
    ])
    else ok p

module _ (e : Surface) where
  abbrev pub set_limit : Setter Parsed
  set_limit value p = positive (e.surroundings.atoi value) >>= λ n.
      ok (record p { opts = record p.opts { limit = n } })

  abbrev pub option_flags : List (String × Setter Parsed)
  option_flags = ("--db", set_db) ∷ ("--project", set_project) ∷ ("--limit", set_limit) ∷ []

  abbrev pub start : Config → Parsed
  start cfg = record {
    opts = record { db_path = cfg.storage.db_path; project = ""; limit = pos 10 };
    rest = [];
  }

  unfoldable pub parse_options : List String → Outcome Parsed
  unfolding load keep_word
  parse_options args = do
    cfg ← load e.surroundings ""
    p ← parse option_flags keep_word args (start cfg)
    with_project e.getwd p

  -- filtered, sessionID and agent
  abbrev pub CompactArgs : Type 0
  CompactArgs = List String × String × String

  unfoldable pub compact_args : List String → Outcome CompactArgs
  compact_args args =
      parse
        (("--session", λ value s. ok (s.0, value, s.2))
          ∷ ("--agent", λ value s. ok (s.0, s.1, value))
          ∷ [])
        (λ arg s. ok (s.0 ++ arg ∷ [], s.1, s.2)) args ([], "", "claude-code")

  unfoldable pub parse_compact_options : List String → Outcome (Parsed × String × String)
  unfolding parse_options compact_args
  parse_compact_options args = do
    filtered ← compact_args args
    p ← parse_options filtered.0
    ok (p, filtered.1, filtered.2)

  -- filtered, tauDays and minImportance
  abbrev pub DecayArgs : Type 0
  DecayArgs = List String × ℤ × Float64

  abbrev pub set_tau : Setter DecayArgs
  set_tau value s = positive (e.surroundings.atoi value) >>= λ n. ok (s.0, n, s.2)

  -- a number that strconv.ParseFloat gives, if it is not negative
  abbrev pub set_importance_flag : Setter DecayArgs
  set_importance_flag value s = elim (e.surroundings.parse_float value) [
    | none ↦ err bad_argument
    | some x ↦ if e.surroundings.floats.lt x 0 then err bad_argument else ok (s.0, s.1, x)
  ]

  unfoldable pub decay_args : List String → Config → Outcome DecayArgs
  decay_args args cfg =
      parse (("--tau-days", set_tau) ∷ ("--min-importance", set_importance_flag) ∷ [])
        (λ arg s. ok (s.0 ++ arg ∷ [], s.1, s.2)) args
        ([], cfg.memory.decay_tau_days, cfg.memory.min_importance)

  unfoldable pub parse_decay_options : List String → Outcome (Parsed × ℤ × Float64)
  unfolding parse_options decay_args load
  parse_decay_options args = do
    cfg ← load e.surroundings ""
    filtered ← decay_args args cfg
    p ← parse_options filtered.0
    ok (p, filtered.1, filtered.2)
