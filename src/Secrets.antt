-- ===== src/Secrets.antt =====
-- internal/secrets/filter.go: the patterns of secrets, and their replacement in a text, which is a
-- list of bytes here.
pub mod Local
pub mod Clean
pub mod Calls
use yet_another_memory_bank.Common.{
  ℕ, zero, suc, ◌-◌, Bool, true, false, ◌&&◌, ◌||◌, Option, none, some, List, [], ◌∷◌, ◌++◌,
  if◌then◌else◌, ◌==◌, leb,
}

-- A part of a regular expression: a class of bytes with how often it occurs. No class of the
-- patterns below has a byte with which the next part can begin, so the longest run of a class is the one
-- that the leftmost match takes.
pub data Part : Type 0 where
  exactly : ℕ → (ℕ → Bool) → Part
  at_least : ℕ → (ℕ → Bool) → Part

abbrev pub Pattern : Type 0
Pattern = List Part

abbrev pub longer : Option ℕ → Option ℕ
longer none = none
longer (some n) = some (suc n)

-- the length of the match at the start of the text
unfoldable pub matched : Pattern → List ℕ → Option ℕ
matched [] xs = some 0
matched (exactly zero p ∷ ps) xs = matched ps xs
matched (exactly (suc n) p ∷ ps) [] = none
matched (exactly (suc n) p ∷ ps) (x ∷ xs) =
    if p x then longer (matched (exactly n p ∷ ps) xs) else none
matched (at_least zero p ∷ ps) [] = matched ps []
matched (at_least zero p ∷ ps) (x ∷ xs) = elim (p x) [
  | true ↦ longer (matched (at_least zero p ∷ ps) xs)
  | false ↦ matched ps (x ∷ xs)
]
matched (at_least (suc n) p ∷ ps) [] = none
matched (at_least (suc n) p ∷ ps) (x ∷ xs) =
    if p x then longer (matched (at_least n p ∷ ps) xs) else none

-- [0-9], [A-Z] and [a-z]
abbrev pub is_digit : ℕ → Bool
is_digit c = leb 48 c && leb c 57

abbrev pub is_upper : ℕ → Bool
is_upper c = leb 65 c && leb c 90

abbrev pub is_lower : ℕ → Bool
is_lower c = leb 97 c && leb c 122

abbrev pub is_alphanumeric : ℕ → Bool
is_alphanumeric c = is_upper c || is_lower c || is_digit c

-- [A-Za-z0-9_-]
abbrev pub is_base64 : ℕ → Bool
is_base64 c = is_alphanumeric c || c == 95 || c == 45

abbrev pub literal : ℕ → Part
literal c = exactly 1 (λ x. x == c)

-- AKIA[0-9A-Z]{16}
abbrev pub aws_key : Pattern
aws_key =
    literal b'A'
    ∷ literal b'K'
    ∷ literal b'I'
    ∷ literal b'A'
    ∷ exactly 16 (λ c. is_digit c || is_upper c)
    ∷ []

-- gh[pousr]_[A-Za-z0-9]{36,}
abbrev pub github_token : Pattern
github_token =
    literal b'g'
    ∷ literal b'h'
    ∷ exactly 1 (λ c. c == b'p' || c == b'o' || c == b'u' || c == b's' || c == b'r')
    ∷ literal b'_'
    ∷ at_least 36 is_alphanumeric
    ∷ []

-- eyJ[A-Za-z0-9_-]{9,}\.[A-Za-z0-9_-]{10,}\.[A-Za-z0-9_-]{10,}
abbrev pub json_web_token : Pattern
json_web_token =
    literal b'e'
    ∷ literal b'y'
    ∷ literal b'J'
    ∷ at_least 9 is_base64
    ∷ literal b'.'
    ∷ at_least 10 is_base64
    ∷ literal b'.'
    ∷ at_least 10 is_base64
    ∷ []

-- "[REDACTED]"
abbrev pub mark : List ℕ
mark = 91 ∷ b'R' ∷ b'E' ∷ b'D' ∷ b'A' ∷ b'C' ∷ b'T' ∷ b'E' ∷ b'D' ∷ 93 ∷ []

-- `ReplaceAllString`, with the number of bytes still to be left out
unfoldable pub replace_all : Pattern → ℕ → List ℕ → List ℕ
unfolding matched
replace_all ps k [] = []
replace_all ps (suc k) (x ∷ xs) = replace_all ps k xs
replace_all ps zero (x ∷ xs) = elim (matched ps (x ∷ xs)) [
  | none ↦ x ∷ replace_all ps zero xs
  | some n ↦ mark ++ replace_all ps (n - 1) xs
]

unfoldable pub redact : List ℕ → List ℕ
unfolding replace_all
redact s =
    replace_all json_web_token zero (replace_all github_token zero (replace_all aws_key zero s))
