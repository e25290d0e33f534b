-- ===== src/Embed/Client.antt =====
-- `Client` of internal/embed/ollama.go: its `Embed`, whose request to the server is an input here,
-- and the check of dimensions.
pub mod Dimension
use yet_another_memory_bank.Common.{
  ℕ, zero, suc, String, Bool, true, false, not, List, [], ◌∷◌, if◌then◌else◌, ◌==◌, leb, blank,
  length, Option, none, some, Outcome, ok, err, no_url, embed_failed, wrong_dim,
}
use yet_another_memory_bank.Common.Int.{ℤ, pos, negsuc}

-- The fields that the model uses.
pub record Client : Type 0 where
  pub url : String
  pub dim : ℤ
  pub detected_dim : ℕ

-- What the request yields: no answer, or a status and a body, which may fail to decode.
pub data Reply : Type 0 where
  unreachable : Reply
  replied : (status : ℕ) (embedding : Option (List ℕ)) → Reply

-- `d` if it is positive, or `k`
abbrev pub positive_or : ℤ → ℕ → ℕ
positive_or (pos (suc n)) k = suc n
positive_or (pos zero) k = k
positive_or (negsuc n) k = k

unfoldable pub current_dim : Client → ℕ
current_dim c = positive_or c.dim c.detected_dim

-- d > 0
abbrev pub is_positive : ℤ → Bool
is_positive (pos (suc n)) = true
is_positive (pos zero) = false
is_positive (negsuc n) = false

-- The error, or the client with what it learned.
unfoldable pub validate_dim : Client → ℕ → Outcome Client
validate_dim c dim =
    if is_positive c.dim
    then (if not (dim == positive_or c.dim 0) then err wrong_dim else ok c)
    else if c.detected_dim == 0
    then ok (record c { detected_dim = dim })
    else if not (dim == c.detected_dim)
    then err wrong_dim
    else ok c

-- from the test of `len(out.Embedding)` on
unfoldable pub accept : Client → List ℕ → Outcome (List ℕ) × Client
accept c vec =
    if length vec == 0
    then (err embed_failed, c)
    else (elim (validate_dim c (length vec)) [ ok c' ↦ (ok vec, c') | err e ↦ (err e, c) ])

unfoldable pub embed : Client → Reply → Outcome (List ℕ) × Client
embed c unreachable = (err (if blank c.url then no_url else embed_failed), c)
embed c (replied status none) = (err (if blank c.url then no_url else embed_failed), c)
embed c (replied status (some vec)) =
    if blank c.url
    then (err no_url, c)
    else if leb 400 status
    then (err embed_failed, c)
    else accept c vec

-- The client after a run of calls.
unfoldable pub after_calls : Client → List Reply → Client
after_calls c [] = c
after_calls c (r ∷ rs) = after_calls (embed c r).1 rs
