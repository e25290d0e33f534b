-- ===== src/Mcp/Listing/Names.antt =====
-- The names that tools/list gives against those that tools/call knows.
use mathlib.Core.Path.{subst}
use yet_another_memory_bank.Common.{
  String, Bool, true, ◌&&◌, List, [], ◌∷◌, map, ◌≡◌, refl, sym, ◌∙◌, inl, inr, Bool-cases,
  exists_where, str_eq, eq_iff,
}
use yet_another_memory_bank.Store.Memories.{is_given}
use yet_another_memory_bank.Mcp.Listing.{Tool, tools}
use yet_another_memory_bank.Mcp.Rpc.{ToolName, named, tool_names, tool_of}

abbrev is_in : String → List String → Bool
is_in name names = exists_where (λ n. str_eq name n) names

abbrev includes : List String → List String → Bool
includes [] ys = true
includes (x ∷ xs) ys = is_in x ys && includes xs ys

is_in-includes :
    (name : String) (xs ys : List String)
    → includes xs ys ≡ true
    → is_in name xs ≡ true
    → is_in name ys ≡ true
is_in-includes name [] ys h k = absurd (cc (k))
is_in-includes name (x ∷ xs) ys h k = elim (Bool-cases (is_in x ys)) [
  | inr e ↦ absurd (cc (h, e))
  | inl e ↦ elim (Bool-cases (str_eq name x)) [
    | inl n ↦ subst (λ m. is_in m ys ≡ true) (sym ((eq_iff name x).0 n)) e
    | inr n ↦ is_in-includes name xs ys (rw e at h) (rw n at k)
  ]
]

same_names :
    (name : String) (xs ys : List String)
    → includes xs ys ≡ true
    → includes ys xs ≡ true
    → is_in name xs ≡ is_in name ys
same_names name xs ys h k = elim (Bool-cases (is_in name xs)) [
  | inl e ↦ e ∙ sym (is_in-includes name xs ys h e)
  | inr e ↦ elim (Bool-cases (is_in name ys)) [
    | inl f ↦ absurd (cc (e, is_in-includes name ys xs k f))
    | inr f ↦ e ∙ sym f
  ]
]

named-is_in :
    {A : Type 0} (name : String) (ts : List (String × A))
    → is_in name (map (λ t. t.0) ts) ≡ is_given (named name ts)
named-is_in name [] = refl
named-is_in name (t ∷ ts) = elim (Bool-cases (str_eq name t.0)) [
  | inl e ↦ rw e refl
  | inr e ↦ rw e (named-is_in name ts)
]

-- A name is among those of the tools that tools/list lists exactly if tools/call knows it.
pub tools-tool_of :
    (name : String)
    → exists_where (λ n. str_eq name n) (map (λ t. t.name) tools) ≡ is_given (tool_of name)
unfolding tools tool_of
tools-tool_of name =
    same_names name (map (λ (t : Tool). t.name) tools)
      (map (λ (t : String × ToolName). t.0) tool_names) refl refl
    ∙ named-is_in name tool_names
