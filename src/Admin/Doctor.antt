-- ===== src/Admin/Doctor.antt =====
-- internal/admin/doctor.go, and the options of internal/admin/backup.go. What the checks of files, of the database and of
-- the embedding server find is an input.
use Prim.Native.Char.{code}
use Prim.Native.String.{◌++◌ as append_text}
use yet_another_memory_bank.Common.{
  ℕ, String, Bool, true, false, ◌&&◌, Option, none, some, List, [], ◌∷◌, ◌++◌, if◌then◌else◌, ◌==◌,
  leb, str_eq, blank, ◌>>=◌, Outcome, ok, err, bad_argument,
}
use yet_another_memory_bank.Common.Texts.{has_prefix}
use yet_another_memory_bank.Admin.Flags.{Setter, parse}
use yet_another_memory_bank.Config.{Config, Surroundings, default_config, load}

pub record DoctorOptions : Type 0 where
  pub config_path : String
  pub db_path : String
  pub ollama_url : String

-- opts and rest
abbrev pub Doctored : Type 0
Doctored = DoctorOptions × List String

-- What the probes find: if there is a file, if a store can be opened and answers, if its directory can be written, and
-- the status that a GET of an address has, if it has one.
pub record Probes : Type 0 where
  pub exists : String → Bool
  pub openable : String → Bool
  pub answers : String → Bool
  pub writable : String → Bool
  pub status_of : String → Option ℕ

abbrev pub reach_ollama : Config → DoctorOptions → DoctorOptions
reach_ollama cfg opts =
    if str_eq cfg.embedding.provider "ollama"
    then record opts { ollama_url = cfg.embedding.ollama_url }
    else opts

-- strings.TrimRight(url, "/")
unfoldable pub trim_slashes : String → String
trim_slashes String.[] = ""
trim_slashes (String.◌∷◌ c s) =
    let rest = trim_slashes s in if blank rest && code c == 47 then "" else String.◌∷◌ c rest

-- the default of the switch
abbrev pub keep_argument : {S : Type 0} → Setter (S × List String)
keep_argument arg s = if has_prefix arg "--" then err bad_argument else ok (s.0, s.1 ++ arg ∷ [])

module _ (e : Surroundings) where
  -- for the configuration, which may be missing where no path is given
  unfoldable pub first_config : String → Outcome Config → Outcome Config
  first_config path (ok cfg) = ok cfg
  first_config path (err x) = if blank path then ok default_config else err x

  unfoldable pub set_config : Setter Doctored
  unfolding load
  set_config value s = load e value >>= λ cfg.
      ok (reach_ollama cfg (record s.0 { config_path = value; db_path = cfg.storage.db_path }), s.1)

  unfoldable pub parse_doctor_options : List String → Outcome Doctored
  unfolding first_config set_config load
  parse_doctor_options args =
      let path = e.getenv "MCB_CONFIG" in
      first_config path (load e path) >>= λ cfg.
      parse
        (("--config", set_config)
          ∷ ("--db", λ value s. ok (record s.0 { db_path = value }, s.1))
          ∷ ("--ollama-url", λ value s. ok (record s.0 { ollama_url = value }, s.1))
          ∷ [])
        keep_argument args
        (
          reach_ollama cfg
              (record { config_path = path; db_path = cfg.storage.db_path; ollama_url = "" }),
          [],
        )

  -- `checkOllama`, for the status
  unfoldable pub is_healthy : Option ℕ → Bool
  is_healthy none = false
  is_healthy (some status) = if leb 400 status then false else true

  -- the exit code, and the lines that are printed
  abbrev pub Report : Type 0
  Report = ℕ × List String

  abbrev pub with_line : String → Report → Report
  with_line line r = (r.0, line ∷ r.1)

  unfoldable pub report_ollama : Probes → String → Report
  unfolding is_healthy trim_slashes
  report_ollama p url =
      if blank url
      then (0, "ok" ∷ [])
      else if is_healthy (p.status_of (append_text (trim_slashes url) "/api/tags"))
      then (0, "ollama: ok" ∷ "ok" ∷ [])
      else (1, [])

  unfoldable pub report_store : Probes → DoctorOptions → Report
  unfolding report_ollama
  report_store p opts =
      if p.exists opts.db_path
        && p.openable opts.db_path
        && p.answers opts.db_path
        && p.writable opts.db_path
      then report_ollama p opts.ollama_url
      else (1, [])

  unfoldable pub report_config : Probes → DoctorOptions → Outcome Config → Report
  unfolding report_store
  report_config p opts (ok cfg) = with_line "config: ok" (report_store p opts)
  report_config p opts (err x) = (1, [])

  unfoldable pub examine : Probes → Outcome Doctored → Report
  unfolding report_config report_store load
  examine p (err x) = (2, [])
  examine p (ok (opts, w ∷ rest)) = (2, [])
  examine p (ok (opts, [])) =
      if blank opts.config_path
      then report_store p opts
      else report_config p opts (load e opts.config_path)

  unfoldable pub run_doctor : Probes → List String → Report
  unfolding examine parse_doctor_options
  run_doctor p args = examine p (parse_doctor_options args)

  -- parseBackupOptions: dbPath, out and rest
  unfoldable pub parse_backup_options : List String → Outcome ((String × String) × List String)
  unfolding load
  parse_backup_options args = load e "" >>= λ cfg.
      parse
        (("--db", λ value s. ok ((value, s.0.1), s.1))
          ∷ ("--out", λ value s. ok ((s.0.0, value), s.1))
          ∷ [])
        keep_argument args ((cfg.storage.db_path, ""), [])
