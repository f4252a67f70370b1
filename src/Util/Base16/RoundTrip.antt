-- ===== src/Util/Base16/RoundTrip.antt =====
-- util/Base16.cc: decode behind encode.
use oasys.Base.{
  ℕ, zero, suc, ◌*◌, ◌/◌, ◌%◌, ◌^◌, ◌<◌, ◌≤◌, ◌≡◌, refl, ap, sym, ◌∙◌, false, List, [], ◌∷◌, some,
  length, take, ltb, arith, Bool-cases, inl, inr, length-take, take_self, take_all, ltb→lt,
}
use Prim.Native.Nat.{bit_and, bit_or}
use oasys.Base.Bits.{bit_or-shifted, bit_and-nibble}
use oasys.Util.Base16.{
  digit, encode_bytes, encoded, encode, digit_value, add_byte, decode_bytes, decode,
}

abbrev pub AreBytes : List ℕ → Type 0
AreBytes [] = Unit {0}
AreBytes (c ∷ cs) = (c < 256) × AreBytes cs

digit_value-digit : (i : ℕ) → i < 16 → digit_value (digit i) ≡ i
unfolding digit_value digit
digit_value-digit i h = ground arith

-- The two digits of a byte give it back.
byte_back :
    (c : ℕ)
    → c < 256
    → bit_or (digit_value (digit (bit_and (c / 16) 0xf)) * 16) (digit_value (digit (bit_and c 0xf)))
        % 256
      ≡ c
byte_back c h =
    rw
      (
        bit_and-nibble c,
        bit_and-nibble (c / 16),
        digit_value-digit (c % 16) (omega arith),
        digit_value-digit (c / 16 % 16) (omega arith),
        bit_or-shifted 4 (c / 16 % 16) (c % 16) (omega arith),
      )
      (omega arith)

twice : (n : ℕ) → suc n * 2 ≡ suc (suc (n * 2))
twice n = omega arith

-- As many pairs of digits as bytes are wanted.
decode_bytes-encode_bytes :
    (n : ℕ) (cs : List ℕ)
    → AreBytes cs
    → decode_bytes (take (n * 2) (encode_bytes cs)) ≡ some (take n cs)
unfolding decode_bytes encode_bytes take
decode_bytes-encode_bytes zero cs b = refl
decode_bytes-encode_bytes (suc n) [] b = ap (λ k. decode_bytes (take k [])) (twice n)
decode_bytes-encode_bytes (suc n) (c ∷ cs) (b, bs) =
    ap (λ k. decode_bytes (take k (encode_bytes (c ∷ cs)))) (twice n)
    ∙ (ap
          (add_byte (
            bit_or (digit_value (digit (bit_and (c / 16) 0xf)) * 16)
              (digit_value (digit (bit_and c 0xf)))
            % 256))
          (decode_bytes-encode_bytes n cs bs)
        ∙ ap (λ d. some (d ∷ take n cs)) (byte_back c b))

length-encode_bytes : (cs : List ℕ) → length (encode_bytes cs) ≡ length cs * 2
unfolding encode_bytes
length-encode_bytes [] = refl
length-encode_bytes (c ∷ cs) = omega (arith, length-encode_bytes cs)

AreBytes-take : (n : ℕ) (cs : List ℕ) → AreBytes cs → AreBytes (take n cs)
unfolding take
AreBytes-take zero cs b = tt
AreBytes-take (suc n) [] b = tt
AreBytes-take (suc n) (c ∷ cs) (b, bs) = (b, AreBytes-take n cs bs)

not_below : (a b : ℕ) → ltb a b ≡ false → b ≤ a
not_below a b h = ground arith

-- Bytes that encode has written, for whatever space it had, decode gives back, as far as its own space
-- goes, and it reads nothing outside of them; the lengths do not wrap around.
pub decode-encode :
    (bytes : List ℕ) (out16_len out_len : ℕ)
    → AreBytes bytes
    → length bytes * 2 < 2 ^ 64
    → decode (encode bytes out16_len).1 out_len
      ≡ some (take out_len (take (encode bytes out16_len).0 bytes))
unfolding decode encode
decode-encode bytes out16_len out_len b small =
    let cs = take (encoded (length bytes) out16_len) bytes in
    let bs = AreBytes-take (encoded (length bytes) out16_len) bytes b in
    let l = length-encode_bytes cs in
    let m : length cs ≤ length bytes =
      rw (length-take (encoded (length bytes) out16_len) bytes) (omega arith) in
    elim (Bool-cases (ltb out_len (length (encode_bytes cs) / 2))) [
      | inl e ↦
          let w : (out_len * 2) % 2 ^ 64 ≡ out_len * 2 =
            omega (arith, l, m, ltb→lt out_len (length (encode_bytes cs) / 2) e) in
          rw (e, w) (decode_bytes-encode_bytes out_len cs bs)
      | inr e ↦
          rw (e, l)
            (decode_bytes-encode_bytes (length cs) cs bs
              ∙ ap some (
                  take_self cs
                  ∙ sym (
                      take_all out_len cs
                        (omega (arith, l, not_below out_len (length (encode_bytes cs) / 2) e)))))
    ]
