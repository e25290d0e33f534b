-- ===== src/Common/Texts.antt =====
-- The functions of Go's package strings that the program calls. A text is a list of characters;
-- `unicode.ToLower` is a parameter.
use Prim.Native.Char.{Char, code}
use Prim.Native.Nat.{ℕ, zero, suc}
use Prim.Native.String.{String, ◌++◌ as append_text}
use text.Mathlib.Text.{◌==◌ as str_eq}
use mathlib.Core.Bool.{Bool, true, false, ◌&&◌, ◌||◌}
use mathlib.Core.List.{List, [], ◌∷◌}
use mathlib.Core.Option.{Option, none, some}
use mathlib.Core.Logic.{inl, inr}
use mathlib.Core.Path.{◌≡◌, sym, ap, ◌∙◌}
use text.Mathlib.TextEquality.{eq_iff}
use text.Mathlib.TextPositions.{eq_refl}
use yet_another_memory_bank.Common.Tests.{if◌then◌else◌, ◌==◌, leb, blank, Bool-cases}

-- unicode.IsSpace
abbrev pub is_space : Char → Bool
is_space c =
    let n = code c in
    (leb 9 n && leb n 13)
    || n == 32
    || n == 133
    || n == 160
    || n == 5760
    || (leb 8192 n && leb n 8202)
    || n == 8232
    || n == 8233
    || n == 8239
    || n == 8287
    || n == 12288

unfoldable pub trim_left : String → String
trim_left String.[] = ""
trim_left (String.◌∷◌ c s) = if is_space c then trim_left s else String.◌∷◌ c s

unfoldable pub trim_right : String → String
trim_right String.[] = ""
trim_right (String.◌∷◌ c s) =
    let r = trim_right s in if blank r && is_space c then "" else String.◌∷◌ c r

-- strings.TrimSpace
unfoldable pub trim_space : String → String
unfolding trim_left trim_right
trim_space s = trim_right (trim_left s)

-- strings.HasPrefix(s, prefix)
unfoldable pub has_prefix : String → String → Bool
has_prefix s String.[] = true
has_prefix String.[] (String.◌∷◌ d t) = false
has_prefix (String.◌∷◌ c s) (String.◌∷◌ d t) = (code c == code d) && has_prefix s t

-- strings.TrimPrefix(s, prefix), where s has the prefix
unfoldable pub drop_prefix : String → String → String
drop_prefix s String.[] = s
drop_prefix String.[] (String.◌∷◌ d t) = ""
drop_prefix (String.◌∷◌ c s) (String.◌∷◌ d t) = drop_prefix s t

unfoldable pub trim_prefix : String → String → String
unfolding has_prefix drop_prefix
trim_prefix s prefix = if has_prefix s prefix then drop_prefix s prefix else s

-- strings.HasSuffix(s, suffix)
unfoldable pub has_suffix : String → String → Bool
has_suffix String.[] suffix = blank suffix
has_suffix (String.◌∷◌ c s) suffix = str_eq (String.◌∷◌ c s) suffix || has_suffix s suffix

-- strings.TrimSuffix(s, suffix), for a suffix that is not empty
unfoldable pub trim_suffix : String → String → String
trim_suffix String.[] suffix = ""
trim_suffix (String.◌∷◌ c s) suffix =
    if str_eq (String.◌∷◌ c s) suffix then "" else String.◌∷◌ c (trim_suffix s suffix)

-- strings.Contains(s, part)
unfoldable pub contains : String → String → Bool
unfolding has_prefix
contains String.[] part = blank part
contains (String.◌∷◌ c s) part = has_prefix (String.◌∷◌ c s) part || contains s part

-- strings.ToLower, for `lower` unicode.ToLower
unfoldable pub to_lower : (Char → Char) → String → String
to_lower lower String.[] = ""
to_lower lower (String.◌∷◌ c s) = String.◌∷◌ (lower c) (to_lower lower s)

-- strings.ReplaceAll(s, "\n", " ")
unfoldable pub one_line : String → String
one_line String.[] = ""
one_line (String.◌∷◌ c s) = append_text (if code c == 10 then " " else String.◌∷◌ c "") (one_line s)

-- string([]rune(s)[:n]), or s where it is shorter
unfoldable pub take_runes : ℕ → String → String
take_runes zero s = ""
take_runes (suc n) String.[] = ""
take_runes (suc n) (String.◌∷◌ c s) = String.◌∷◌ c (take_runes n s)

-- strings.SplitN(s, ":", 2), if it has two parts
unfoldable pub split_colon : String → Option (String × String)
split_colon String.[] = none
split_colon (String.◌∷◌ c s) =
    let rest = split_colon s in
    if code c == 58
    then some ("", s)
    else (elim rest [ none ↦ none | some p ↦ some (String.◌∷◌ c p.0, p.1) ])

-- texts written one after the other
unfoldable pub concat : List String → String
concat [] = ""
concat (t ∷ ts) = append_text t (concat ts)

-- strings.Join(texts, separator)
abbrev pub joined_by : String → List String → String
joined_by separator [] = ""
joined_by separator (t ∷ []) = t
joined_by separator (t ∷ u ∷ ts) = concat (t ∷ separator ∷ joined_by separator (u ∷ ts) ∷ [])

pub str_eq_comm : (s t : String) → str_eq s t ≡ str_eq t s
str_eq_comm s t = elim (Bool-cases (str_eq s t)) [
  | inl e ↦ e ∙ sym (ap (λ (k : String). str_eq k s) (sym ((eq_iff s t).0 e)) ∙ eq_refl s)
  | inr e ↦ elim (Bool-cases (str_eq t s)) [
    | inl k ↦
        let same : str_eq s t ≡ true =
          ap (λ (j : String). str_eq s j) ((eq_iff t s).0 k) ∙ eq_refl s in
        cc
    | inr k ↦ e ∙ sym k
  ]
]
