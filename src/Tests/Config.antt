-- ===== src/Tests/Config.antt =====
-- The configuration at a concrete environment.
use yet_another_memory_bank.Common.{◌≡◌, refl, none, some, str_eq, if◌then◌else◌, Ensures, ok}
use yet_another_memory_bank.Common.Int.{pos}
use yet_another_memory_bank.Config.{Surroundings, base, load, default_config}
use yet_another_memory_bank.Config.Valid.{IsValid, load-IsValid}
use yet_another_memory_bank.Tests.Search.{millionths}

-- one variable is set
abbrev pub surroundings : Surroundings
surroundings = record {
  getenv = λ name. if str_eq name "MCB_SEARCH_RRF_K" then "9" else "";
  read_file = λ path. none;
  unmarshal = λ bytes cfg. none;
  atoi = λ s. if str_eq s "9" then some (pos 9) else none;
  parse_int = λ s. none;
  parse_float = λ s. none;
  floats = millionths;
}

-- The variable is taken over.
loaded :
    load surroundings ""
    ≡ ok (record default_config { search = record default_config.search { rrf_k = pos 9 } })
unfolding load default_config
loaded = refl

load-IsValid_example : Ensures (IsValid surroundings.floats) (load surroundings "")
unfolding base default_config
load-IsValid_example = load-IsValid surroundings "" refl
