-- ===== src/Store/Observations/Payloads.antt =====
-- The stored form of a payload against the payload.
use yet_another_memory_bank.Common.{ℕ, ◌≡◌, refl, inl, inr, some, List, ltb, length, Bool-cases, ok}
use yet_another_memory_bank.Store.Observations.{Zstd, encode_payload, decode_payload}

-- A payload is decoded from its stored form as it was, long or short, if `DecodeAll` takes back
-- what `EncodeAll` made.
pub decode_payload-encode_payload :
    (z : Zstd) (raw : List ℕ)
    → z.decode_all (z.encode_all raw) ≡ some raw
    → decode_payload z (encode_payload z raw).0 (encode_payload z raw).1 ≡ ok raw
unfolding encode_payload decode_payload
decode_payload-encode_payload z raw h = elim (Bool-cases (ltb (length raw) 512)) [
  | inl e ↦ rw e refl
  | inr e ↦ rw (e, h) refl
]
