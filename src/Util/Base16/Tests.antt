-- ===== src/Util/Base16/Tests.antt =====
-- Concrete runs of util/Base16.cc, and the theorem at a concrete input.
use oasys.Base.{◌≡◌, refl, [], ◌∷◌, some, none, take, arith}
use oasys.Util.Base16.{digit, encode_bytes, encoded, encode, digit_value, decode_bytes, decode}
use oasys.Util.Base16.RoundTrip.{decode-encode}

program : Unit {0}
unfolding digit encode_bytes encoded encode digit_value decode_bytes decode take
program = tt

-- The low half of a byte comes first.
encode_example : encode (0x1b ∷ 0xf0 ∷ []) 5 ≡ (2, 66 ∷ 49 ∷ 48 ∷ 70 ∷ [])
unfolding program
encode_example = refl

truncated : decode (66 ∷ 49 ∷ 48 ∷ 70 ∷ []) 1 ≡ some (0x1b ∷ [])
unfolding program
truncated = refl

-- An odd number of digits is read past its end.
odd : decode (66 ∷ 49 ∷ 48 ∷ []) 4 ≡ none
unfolding program
odd = refl

decode-encode_example :
    decode (encode (0x1b ∷ 0xf0 ∷ []) 3).1 4
    ≡ some (take 4 (take (encode (0x1b ∷ 0xf0 ∷ []) 3).0 (0x1b ∷ 0xf0 ∷ [])))
decode-encode_example =
    decode-encode (0x1b ∷ 0xf0 ∷ []) 3 4 (omega arith, (omega arith, tt)) (omega arith)
