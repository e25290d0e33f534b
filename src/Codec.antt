-- ===== src/Codec.antt =====
-- What the handlers use of Go's libraries, as parameters, and internal/dedup/hash.go, which is made of
-- three of them.
use Prim.Native.Char.{Char}
use yet_another_memory_bank.Common.{ℕ, String, Option, none, some, List, Outcome, ok, err, bad_json}
use yet_another_memory_bank.Common.Json.{Value}
use yet_another_memory_bank.Store.Observations.{Zstd}

-- `parse` is json.Unmarshal into `any`, `marshal` json.Marshal, `text` the conversion of bytes to a
-- string, `lower` unicode.ToLower, `decimal` the verb %d, `sha256_hex` the sum in hexadecimal digits.
pub record Codec : Type 0 where
  pub zstd : Zstd
  pub parse : List ℕ → Option Value
  pub marshal : Value → Option (List ℕ)
  pub text : List ℕ → String
  pub lower : Char → Char
  pub decimal : ℕ → String
  pub sha256_hex : List ℕ → String

-- `err != nil` of a library's call
abbrev pub decoded {ℓ} : {A : Type ℓ} → Option A → Outcome A
decoded none = err bad_json
decoded (some a) = ok a

unfoldable pub hash_canonical_json : Codec → List ℕ → Outcome String
hash_canonical_json c raw = elim (c.parse raw) [
  | none ↦ err bad_json
  | some v ↦ elim (c.marshal v) [
    | none ↦ err bad_json
    | some canonical ↦ ok (c.sha256_hex canonical)
  ]
]
