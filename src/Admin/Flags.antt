-- ===== src/Admin/Flags.antt =====
-- The loop over arguments that the parsers of internal/admin/run.go and of cmd/mcb/main.go have: a flag takes the
-- next argument, or what follows its `=`. The flags are tried in their order.
pub mod Keeps
use Prim.Native.String.{◌++◌ as append_text}
use yet_another_memory_bank.Common.{
  String, List, [], ◌∷◌, if◌then◌else◌, str_eq, ◌>>=◌, Outcome, ok, err, bad_argument,
}
use yet_another_memory_bank.Common.Texts.{has_prefix, drop_prefix}

-- What a value does to what was parsed.
abbrev pub Setter : Type 0 → Type 0
Setter S = String → S → Outcome S

-- The case of the switch that an argument meets.
pub data Case (S : Type 0) : Type 0 where
  takes_next : (set : Setter S) → Case S
  has_value : (set : Setter S) (value : String) → Case S
  no_flag : Case S

module _ {S : Type 0} where
  unfoldable pub case_of : List (String × Setter S) → String → Case S
  case_of [] arg = no_flag
  case_of ((name, set) ∷ flags) arg =
      if str_eq arg name
      then takes_next set
      else if has_prefix arg (append_text name "=")
      then has_value set (drop_prefix arg (append_text name "="))
      else case_of flags arg

  -- `other` is the default of the switch.
  unfoldable pub parse : List (String × Setter S) → Setter S → List String → S → Outcome S
  unfolding case_of
  parse flags other [] s = ok s
  parse flags other (arg ∷ []) s = elim (case_of flags arg) [
    | takes_next set ↦ err bad_argument
    | has_value set value ↦ set value s
    | no_flag ↦ other arg s
  ]
  parse flags other (arg ∷ next ∷ rest) s = elim (case_of flags arg) [
    | takes_next set ↦ set next s >>= parse flags other rest
    | has_value set value ↦ set value s >>= parse flags other (next ∷ rest)
    | no_flag ↦ other arg s >>= parse flags other (next ∷ rest)
  ]
