-- ===== src/Tests/Command.antt =====
-- The command at concrete arguments.
use yet_another_memory_bank.Common.{
  refl, String, true, none, List, [], ◌∷◌, blank, if_elim, ok, err, bad_argument, Ensures,
}
use yet_another_memory_bank.Common.Int.{pos}
use yet_another_memory_bank.Command.{
  Happening, request, tick, options_of, config_args, parse_serve_options, serve_while,
}
use yet_another_memory_bank.Command.Serving.{
  KeepsNumbers, serve_while-new_db-StoreOk, parse_serve_options-KeepsNumbers,
}
use yet_another_memory_bank.Config.{base, default_config, load}
use yet_another_memory_bank.Config.Valid.{IsValid}
use yet_another_memory_bank.Store.Runs.Invariant.{StoreOk}
use yet_another_memory_bank.Tests.Config.{surroundings}
use yet_another_memory_bank.Tests.Decay.{percents}
use yet_another_memory_bank.Tests.Hybrid.{searcher}
use yet_another_memory_bank.Tests.Observations.{padding}
use yet_another_memory_bank.Tests.Requests.{http_env, post}
use yet_another_memory_bank.Tests.Requests.Served.{fresh_world}

abbrev happenings : List Happening
happenings =
    request http_env (post "" "/hooks/post-tool")
    ∷ tick (pos 5000)
    ∷ request http_env (post "" "/hooks/stop")
    ∷ []

serve_while-new_db-StoreOk_example :
    StoreOk
      (serve_while percents (options_of surroundings default_config) happenings fresh_world).db
serve_while-new_db-StoreOk_example =
    serve_while-new_db-StoreOk padding percents (options_of surroundings default_config) happenings
      true none

no_file-IsValid : (path : String) → Ensures (IsValid surroundings.floats) (base surroundings path)
unfolding base default_config
no_file-IsValid path =
    if_elim (Ensures (IsValid surroundings.floats)) (blank path) (ok default_config)
      (err bad_argument) refl tt

abbrev serve_args : List String
serve_args = "--db=a.db" ∷ "--http" ∷ ":80" ∷ []

parse_serve_options-KeepsNumbers_example :
    Ensures
      (λ filtered.
        Ensures
          (λ cfg. Ensures (KeepsNumbers searcher cfg) (parse_serve_options surroundings serve_args))
          (load surroundings filtered.1))
      (config_args surroundings serve_args)
parse_serve_options-KeepsNumbers_example =
    parse_serve_options-KeepsNumbers surroundings searcher serve_args no_file-IsValid
