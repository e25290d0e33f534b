-- ===== src/Store/Reports/Files/Named.antt =====
-- Which texts name one of the files that `FileHistory` of internal/store/phase2_helpers.go is asked for.
use Prim.Native.Char.{Char}
use yet_another_memory_bank.Common.{
  ◌≡◌, refl, ap, ◌∙◌, inl, inr, String, Bool, true, false, ◌&&◌, ◌||◌, not, List, [], ◌∷◌, ◌++◌,
  arith, Bool-cases, str_eq, eq_iff, blank, exists_where, exists_where-append,
}
use yet_another_memory_bank.Common.Texts.{trim_space, to_lower, contains}
use yet_another_memory_bank.Store.Reports.Files.{
  normalized_from, normalized_files, contains_any_file,
}

-- One of the files is named in the text: trimmed and in lower case it is not empty, and the text in lower case has it.
abbrev pub names_file : (Char → Char) → List String → String → Bool
names_file lower [] text = false
names_file lower (f ∷ files) text =
    let file = to_lower lower (trim_space f) in
    (not (blank file) && contains (to_lower lower text) file) || names_file lower files text

-- What one of the texts has that is equal to a file.
exists_where-listed :
    (p : String → Bool) (file : String) (out : List String)
    → exists_where (λ s. str_eq s file) out ≡ true
    → p file ≡ true
    → exists_where p out ≡ true
exists_where-listed p file [] l h = absurd (ground (arith, l))
exists_where-listed p file (x ∷ out) l h = elim (Bool-cases (str_eq x file)) [
  | inl m ↦ rw (ap p ((eq_iff x file).0 m), h) refl
  | inr m ↦ let rest = exists_where-listed p file out (rw m at l) h in ground (arith, rest)
]

module _ (lower : Char → Char) (text : String) where
  contains_any_file-from :
      (files out : List String)
      → contains_any_file lower text (normalized_from lower out files)
        ≡ (contains_any_file lower text out || names_file lower files text)
  unfolding contains_any_file normalized_from
  contains_any_file-from [] out = ground arith
  contains_any_file-from (f ∷ files) out =
      let file = to_lower lower (trim_space f) in
      let has = λ (s : String). contains (to_lower lower text) s in
      elim (Bool-cases (blank file)) [
        | inl b ↦ rw b (contains_any_file-from files out)
        | inr b ↦ elim (Bool-cases (exists_where (λ s. str_eq s file) out)) [
          | inl l ↦
              let seen = exists_where-listed has file out l in
              rw (b, l) (contains_any_file-from files out ∙ ground (arith, seen))
          | inr l ↦
              rw (b, l)
                (contains_any_file-from files (out ++ file ∷ [])
                  ∙ ground (arith, exists_where-append has out (file ∷ [])))
        ]
      ]

  -- The normalised files are in a text exactly if it names one of the files.
  pub contains_any_file-normalized :
      (files : List String)
      → contains_any_file lower text (normalized_files lower files) ≡ names_file lower files text
  unfolding contains_any_file
  contains_any_file-normalized files = contains_any_file-from files []
