-- ===== src/Util/Base16.antt =====
-- util/Base16.cc. A buffer that is read is the list of its bytes; of one that is written, the bytes
-- stored. A read past the end of the input is `none`.
pub mod RoundTrip
mod Tests
use oasys.Base.{
  ℕ, zero, suc, ◌+◌, ◌-◌, ◌*◌, ◌/◌, ◌%◌, ◌^◌, List, [], ◌∷◌, Option, none, some, length, take, ltb,
  leb, if◌then◌else◌,
}
use Prim.Native.Nat.{bit_and, bit_or}

-- "0123456789ABCDEF"[i].
unfoldable pub digit : ℕ → ℕ
digit i = if ltb i 10 then 48 + i else 55 + i

unfoldable pub encode_bytes : List ℕ → List ℕ
encode_bytes [] = []
encode_bytes (c ∷ cs) = digit (bit_and c 0xf) ∷ digit (bit_and (c / 16) 0xf) ∷ encode_bytes cs

-- How many bytes there is space for.
unfoldable pub encoded : ℕ → ℕ → ℕ
encoded in_len out16_len = if ltb out16_len ((in_len * 2) % 2 ^ 64) then out16_len / 2 else in_len

-- Base16::encode, with its return value.
unfoldable pub encode : List ℕ → ℕ → ℕ × List ℕ
encode bytes out16_len =
    let in_len = encoded (length bytes) out16_len in (in_len, encode_bytes (take in_len bytes))

-- `lower` and `upper`.
unfoldable pub digit_value : ℕ → ℕ
digit_value c = if leb c 57 then (c + 256 - 48) % 256 else (c + 256 - 65 + 10) % 256

abbrev pub add_byte : ℕ → Option (List ℕ) → Option (List ℕ)
add_byte c none = none
add_byte c (some cs) = some (c ∷ cs)

unfoldable pub decode_bytes : List ℕ → Option (List ℕ)
decode_bytes [] = some []
decode_bytes (c ∷ []) = none
decode_bytes (c ∷ d ∷ cs) =
    add_byte (bit_or (digit_value d * 16) (digit_value c) % 256) (decode_bytes cs)

-- Base16::decode.
unfoldable pub decode : List ℕ → ℕ → Option (List ℕ)
decode in16 out_len =
    decode_bytes
      (take (if ltb out_len (length in16 / 2) then (out_len * 2) % 2 ^ 64 else length in16) in16)
