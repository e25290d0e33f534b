-- ===== src/Admin/Flags/Keeps.antt =====
-- What the loop over arguments keeps.
use Prim.Native.String.{◌++◌ as append_text}
use yet_another_memory_bank.Common.{
  String, List, [], ◌∷◌, All, str_eq, if_elim, err, ◌>>=◌, bad_argument, Ensures, Ensures-bind,
}
use yet_another_memory_bank.Common.Texts.{has_prefix, drop_prefix}
use yet_another_memory_bank.Admin.Flags.{
  Setter, Case, takes_next, has_value, no_flag, case_of, parse,
}

module _ {ℓ} {S : Type 0} (P : S → Type ℓ) where
  -- A value that is taken over keeps it.
  abbrev pub IsKeeping : Setter S → Type ℓ
  IsKeeping set = (value : String) (s : S) → P s → Ensures P (set value s)

  abbrev KeepingCase : Case S → Type ℓ
  KeepingCase (takes_next set) = IsKeeping set
  KeepingCase (has_value set value) = IsKeeping set
  KeepingCase no_flag = Unit

  case_of-KeepingCase :
      (flags : List (String × Setter S)) (arg : String)
      → All (λ f. IsKeeping f.1) flags
      → KeepingCase (case_of flags arg)
  unfolding case_of
  case_of-KeepingCase [] arg h = tt
  case_of-KeepingCase ((name, set) ∷ flags) arg h =
      if_elim KeepingCase (str_eq arg name) (takes_next set) _ h.0 (
        if_elim KeepingCase (has_prefix arg (append_text name "="))
          (has_value set (drop_prefix arg (append_text name "="))) (case_of flags arg) h.0
          (case_of-KeepingCase flags arg h.1))

  module _ (flags : List (String × Setter S)) (other : Setter S)
      (h : All (λ f. IsKeeping f.1) flags) (k : IsKeeping other) where
    pub parse-Ensures : (args : List String) (s : S) → P s → Ensures P (parse flags other args s)
    unfolding parse
    parse-Ensures [] s v = v
    parse-Ensures (arg ∷ []) s v = last (case_of flags arg) (case_of-KeepingCase flags arg h)
      where
        last :
            (c : Case S)
            → KeepingCase c
            → Ensures P (elim c [
              | takes_next set ↦ err bad_argument
              | has_value set value ↦ set value s
              | no_flag ↦ other arg s
            ])
        last (takes_next set) q = tt
        last (has_value set value) q = q value s v
        last no_flag q = k arg s v
    parse-Ensures (arg ∷ next ∷ rest) s v =
        more (case_of flags arg) (case_of-KeepingCase flags arg h) (parse-Ensures rest)
          (parse-Ensures (next ∷ rest))
      where
        more :
            (c : Case S)
            → KeepingCase c
            → ((t : S) → P t → Ensures P (parse flags other rest t))
            → ((t : S) → P t → Ensures P (parse flags other (next ∷ rest) t))
            → Ensures P (elim c [
              | takes_next set ↦ set next s >>= parse flags other rest
              | has_value set value ↦ set value s >>= parse flags other (next ∷ rest)
              | no_flag ↦ other arg s >>= parse flags other (next ∷ rest)
            ])
        more (takes_next set) q a b =
            Ensures-bind P P (set next s) (parse flags other rest) (q next s v) a
        more (has_value set value) q a b =
            Ensures-bind P P (set value s) (parse flags other (next ∷ rest)) (q value s v) b
        more no_flag q a b =
            Ensures-bind P P (other arg s) (parse flags other (next ∷ rest)) (k arg s v) b
