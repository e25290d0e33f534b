-- ===== src/Store/Embeddings/Blobs.antt =====
-- The blob of an embedding against the vector that it stands for.
use yet_another_memory_bank.Common.{
  ℕ, ◌+◌, ◌*◌, ◌<◌, ◌%◌, ◌/◌, ◌≡◌, refl, ap, List, [], ◌∷◌, arith, length, All, ok, ==_refl,
}
use yet_another_memory_bank.Store.Embeddings.{encode_float32_le, decode_values, decode_float32_le}

length-encode : (vs : List ℕ) → length (encode_float32_le vs) ≡ length vs * 4
unfolding encode_float32_le
length-encode [] = refl
length-encode (v ∷ vs) = omega (arith, length-encode vs)

-- the digits of a 32-bit number to the base 256
word_of_bytes :
    (v : ℕ)
    → v < 4294967296
    → v % 256 + 256 * (v / 256 % 256) + 65536 * (v / 65536 % 256) + 16777216 * (v / 16777216 % 256)
      ≡ v
word_of_bytes v h = omega arith

decode-encode_values :
    (vs : List ℕ)
    → All (λ v. v < 4294967296) vs
    → decode_values (length vs) (encode_float32_le vs) ≡ vs
unfolding encode_float32_le decode_values
decode-encode_values [] h = refl
decode-encode_values (v ∷ vs) h = cc (word_of_bytes v h.0, decode-encode_values vs h.1)

-- A vector of 32-bit patterns is decoded from its blob as it was, given its length as dimension.
pub decode-encode :
    (vs : List ℕ)
    → All (λ v. v < 4294967296) vs
    → decode_float32_le (encode_float32_le vs) (length vs) ≡ ok vs
unfolding decode_float32_le
decode-encode vs h =
    rw (length-encode vs, ==_refl (length vs * 4)) (ap ok (decode-encode_values vs h))
