-- ===== src/Admin/Options/Spelling.antt =====
-- internal/admin/run.go: the two ways to write a flag, `--limit 5` and `--limit=5`, and what the options are.
use yet_another_memory_bank.Common.{
  String, false, List, [], ◌∷◌, ◌++◌, All, arith, inl, inr, ◌≡◌, ◌≢◌, refl, sym, ap, ◌∙◌,
  Bool-cases, str_eq, eq_iff, ◌>>=◌, Outcome, ok, err,
}
use mathlib.Core.Bool.{true≢false, false≢true}
use yet_another_memory_bank.Common.Texts.{has_prefix, drop_prefix}
use yet_another_memory_bank.Admin.Flags.{Setter, takes_next, has_value, no_flag, case_of, parse}
use yet_another_memory_bank.Admin.Options.{
  Surface, Parsed, set_db, set_project, set_limit, keep_word, with_project, option_flags, start,
  parse_options,
}
use yet_another_memory_bank.Config.{load}

-- The options with a value.
pub data OptionName : Type 0 where
  db project limit : OptionName

abbrev flag_of : OptionName → String
flag_of db = "--db"
flag_of project = "--project"
flag_of limit = "--limit"

abbrev setter_of : Surface → OptionName → Setter Parsed
setter_of e db = set_db
setter_of e project = set_project
setter_of e limit = set_limit e

-- What a user writes: an option and its value as two arguments, or as one, or a word.
pub data Item : Type 0 where
  spaced joined : (name : OptionName) (value : String) → Item
  word : (text : String) → Item

-- one text after the other
abbrev pub with_text : String → String → String
with_text String.[] t = t
with_text (String.◌∷◌ c s) t = String.◌∷◌ c (with_text s t)

unfoldable pub spell : List Item → List String
spell [] = []
spell (spaced name value ∷ items) = flag_of name ∷ value ∷ spell items
spell (joined name value ∷ items) = with_text (flag_of name) (with_text "=" value) ∷ spell items
spell (word text ∷ items) = text ∷ spell items

-- What it means: the options one after the other, and the words in their order.
unfoldable pub read : Surface → List Item → Parsed → Outcome Parsed
read e [] p = ok p
read e (spaced name value ∷ items) p = setter_of e name value p >>= read e items
read e (joined name value ∷ items) p = setter_of e name value p >>= read e items
read e (word text ∷ items) p = read e items (record p { rest = p.rest ++ text ∷ [] })

abbrev pub IsWord : Item → Type 0
IsWord (word text) = has_prefix text "--" ≡ false
IsWord _ = Unit

differs : (a b p : String) → has_prefix a p ≢ has_prefix b p → str_eq a b ≡ false
differs a b p h = elim (Bool-cases (str_eq a b)) [
  | inl e ↦ absurd (h (ap (λ s. has_prefix s p) ((eq_iff a b).0 e)))
  | inr e ↦ e
]

spaced-case :
    (e : Surface) (name : OptionName)
    → case_of (option_flags e) (flag_of name) ≡ takes_next (setter_of e name)
unfolding case_of has_prefix
spaced-case e db = refl
spaced-case e project = refl
spaced-case e limit = refl

joined-case :
    (e : Surface) (name : OptionName) (value : String)
    → case_of (option_flags e) (with_text (flag_of name) (with_text "=" value))
      ≡ has_value (setter_of e name) value
unfolding case_of has_prefix drop_prefix
joined-case e db value = rw (differs (with_text "--db=" value) "--db" "--db=" true≢false) refl
joined-case e project value =
    let arg = with_text "--project=" value in
    rw (differs arg "--db" "--p" true≢false, differs arg "--project" "--project=" true≢false) refl
joined-case e limit value =
    let arg = with_text "--limit=" value in
    rw
      (
        differs arg "--db" "--l" true≢false,
        differs arg "--project" "--l" true≢false,
        differs arg "--limit" "--limit=" true≢false,
      )
      refl

longer-prefix : (w t : String) → has_prefix w "--" ≡ false → has_prefix w (with_text "--" t) ≡ false
unfolding has_prefix
longer-prefix String.[] t h = h
longer-prefix (String.◌∷◌ c String.[]) t h = h
longer-prefix (String.◌∷◌ c (String.◌∷◌ d w)) t h = ground (arith, h)

word-case :
    (e : Surface) (text : String)
    → has_prefix text "--" ≡ false
    → case_of (option_flags e) text ≡ no_flag
unfolding case_of has_prefix
word-case e text h =
    rw
      (
        differs text "--db" "--" (λ p. false≢true (sym h ∙ p)),
        differs text "--project" "--" (λ p. false≢true (sym h ∙ p)),
        differs text "--limit" "--" (λ p. false≢true (sym h ∙ p)),
        longer-prefix text "db=" h,
        longer-prefix text "project=" h,
        longer-prefix text "limit=" h,
      )
      refl

bind-ok : {A : Type 0} (m : Outcome A) → (m >>= ok) ≡ m
bind-ok (ok a) = refl
bind-ok (err e) = refl

bind_ext :
    {A B : Type 0} (m : Outcome A) (f g : A → Outcome B)
    → ((a : A) → f a ≡ g a)
    → (m >>= f) ≡ (m >>= g)
bind_ext (ok a) f g h = h a
bind_ext (err e) f g h = refl

module _ {S : Type 0} (flags : List (String × Setter S)) (other : Setter S) where
  parse-next :
      (arg value : String) (rest : List String) (set : Setter S) (s : S)
      → case_of flags arg ≡ takes_next set
      → parse flags other (arg ∷ value ∷ rest) s ≡ (set value s >>= parse flags other rest)
  unfolding parse
  parse-next arg value rest set s h = rw (h, parse) refl

  parse-value :
      (arg value : String) (rest : List String) (set : Setter S) (s : S)
      → case_of flags arg ≡ has_value set value
      → parse flags other (arg ∷ rest) s ≡ (set value s >>= parse flags other rest)
  unfolding parse
  parse-value arg value [] set s h = rw (h, parse) (sym (bind-ok (set value s)))
  parse-value arg value (next ∷ rest) set s h = rw (h, parse) refl

  parse-word :
      (arg : String) (rest : List String) (s : S)
      → case_of flags arg ≡ no_flag
      → parse flags other (arg ∷ rest) s ≡ (other arg s >>= parse flags other rest)
  unfolding parse
  parse-word arg [] s h = rw (h, parse) (sym (bind-ok (other arg s)))
  parse-word arg (next ∷ rest) s h = rw (h, parse) refl

parse-spell :
    (e : Surface) (items : List Item) (p : Parsed)
    → All IsWord items
    → parse (option_flags e) keep_word (spell items) p ≡ read e items p
unfolding parse spell read keep_word
parse-spell e [] p h = refl
parse-spell e (spaced name value ∷ items) p h =
    parse-next (option_flags e) keep_word _ value (spell items) (setter_of e name) p
      (spaced-case e name)
    ∙ bind_ext (setter_of e name value p) _ _ (λ q. parse-spell e items q h.1)
parse-spell e (joined name value ∷ items) p h =
    parse-value (option_flags e) keep_word _ value (spell items) (setter_of e name) p
      (joined-case e name value)
    ∙ bind_ext (setter_of e name value p) _ _ (λ q. parse-spell e items q h.1)
parse-spell e (word text ∷ items) p h =
    parse-word (option_flags e) keep_word text (spell items) p (word-case e text h.0)
    ∙ rw h.0 (parse-spell e items _ h.1)

-- The options and words of a command line are read in their order, each option in either spelling: `--limit 5`
-- is `--limit=5`. The words are arguments that do not begin with `--`.
pub parse_options-spell :
    (e : Surface) (items : List Item)
    → All IsWord items
    → parse_options e (spell items) ≡ (
        load e.surroundings "" >>= λ cfg.
        read e items (start e cfg) >>= λ p. with_project e.getwd p)
unfolding parse_options
parse_options-spell e items h =
    bind_ext (load e.surroundings "") _ _
      λ cfg. ap (λ m. m >>= with_project e.getwd) (parse-spell e items (start e cfg) h)
