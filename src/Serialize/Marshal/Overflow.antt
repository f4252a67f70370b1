-- ===== src/Serialize/Marshal/Overflow.antt =====
-- Marshal on a fixed buffer that is too small, and after an error.
use oasys.Base.{
  ℕ, ◌+◌, ◌%◌, ◌^◌, ◌<◌, ◌≤◌, ◌≡◌, refl, ◌∙◌, true, false, inr, List, [], ◌∷◌, length, arith,
  length-append, length-take,
}
use native.Mathlib.Decide.{dec_le}
use oasys.Serialize.Buffer.{BufferedSerializeAction, next_slice}
use oasys.Serialize.Field.{
  Field, big_endian, scan, memory, encode, encode_all, IsField, AreFields, length-big_endian,
}
use oasys.Serialize.Marshal.{
  u32_mod, put, marshal_bytes, marshal_u32, u32_bytes, marshal, marshal_all,
}
use oasys.Serialize.Marshal.Correct.{marshal-Appends, put_number-Appends, u32_bytes-big_endian}

-- After an error nothing is written any more.
put_after_error :
    (n : ℕ) (bytes : List ℕ) (a : BufferedSerializeAction) → a.error ≡ true → put n bytes a ≡ a
unfolding put next_slice
put_after_error n bytes a e = rw (e, next_slice)

marshal_after_error : (f : Field) (a : BufferedSerializeAction) → a.error ≡ true → marshal f a ≡ a
unfolding marshal marshal_bytes marshal_u32
marshal_after_error (Field.u64 i) a e = put_after_error _ _ a e
marshal_after_error (Field.u32 i) a e = put_after_error _ _ a e
marshal_after_error (Field.u16 i) a e = put_after_error _ _ a e
marshal_after_error (Field.u8 i) a e = put_after_error _ _ a e
marshal_after_error (Field.bool b) a e = put_after_error _ _ a e
marshal_after_error (Field.bytes bp) a e = put_after_error _ _ a e
marshal_after_error (Field.carrier bp) a e =
    rw (put_after_error 4 (u32_bytes (length bp % u32_mod)) a e) (put_after_error _ _ a e)
marshal_after_error (Field.terminated bp terminator rest) a e = put_after_error _ _ a e
marshal_after_error (Field.string s) a e =
    rw (put_after_error 4 (u32_bytes (length s % u32_mod)) a e) (put_after_error _ _ a e)

marshal_all_after_error :
    (fs : List Field) (a : BufferedSerializeAction) → a.error ≡ true → marshal_all fs a ≡ a
unfolding marshal_all
marshal_all_after_error [] a e = refl
marshal_all_after_error (f ∷ fs) a e =
    rw (marshal_after_error f a e) (marshal_all_after_error fs a e)

-- What an overflow leaves: the flag, and a buffer of the same size.
pub record Overflows (a b : BufferedSerializeAction) : Type 0 where
  pub flagged : b.error ≡ true
  pub size : length b.buf ≡ length a.buf

put-Overflows :
    (n : ℕ) (bytes : List ℕ) (a : BufferedSerializeAction)
    → a.expandable ≡ false
    → a.offset + n < 2 ^ 64
    → length a.buf < a.offset + n
    → Overflows a (put n bytes a)
unfolding put next_slice
put-Overflows n bytes a e k h = ground arith

-- The length of a text or a carrier may still fit where its bytes do not.
counted-Overflows :
    (bp bytes : List ℕ) (a : BufferedSerializeAction)
    → length bp < 2 ^ 32
    → length bytes ≡ length bp
    → a.error ≡ false
    → a.expandable ≡ false
    → length a.buf < 2 ^ 63
    → a.offset ≤ length a.buf
    → length a.buf < a.offset + (4 + length bp)
    → Overflows a (put (length bp) bytes (put 4 (u32_bytes (length bp)) a))
counted-Overflows bp bytes a h e ok k small within over =
    elim (dec_le (a.offset + 4) (length a.buf)) [
      | yes room ↦
          let p =
            put_number-Appends a ok 4 (length bp) (u32_bytes (length bp))
              (u32_bytes-big_endian (length bp) h)
              (rw length-big_endian
                (record { within = within; no_wrap = omega arith; room = inr room })) in
          let wide = length-big_endian 4 (length bp) in
          let same : length (put 4 (u32_bytes (length bp)) a).buf ≡ length a.buf = ground arith in
          let q =
            put-Overflows (length bp) bytes _ (p.mode ∙ k) (omega (arith, p.offset))
              (omega (arith, p.offset)) in
          record { flagged = q.flagged; size = q.size ∙ same }
      | no none ↦
          let q = put-Overflows 4 (u32_bytes (length bp)) a k (omega arith) (omega arith) in
          rw (put_after_error (length bp) bytes (put 4 (u32_bytes (length bp)) a) q.flagged) q
    ]

marshal-Overflows :
    (f : Field) (a : BufferedSerializeAction)
    → IsField f
    → a.error ≡ false
    → a.expandable ≡ false
    → length a.buf < 2 ^ 63
    → a.offset ≤ length a.buf
    → length a.buf < a.offset + length (encode f)
    → Overflows a (marshal f a)
unfolding marshal encode marshal_bytes marshal_u32
marshal-Overflows (Field.u64 i) a h ok k small within over =
    put-Overflows 8 _ a k (omega arith) (omega (arith, length-big_endian 8 i))
marshal-Overflows (Field.u32 i) a h ok k small within over =
    put-Overflows 4 _ a k (omega arith) (omega (arith, length-big_endian 4 i))
marshal-Overflows (Field.u16 i) a h ok k small within over =
    put-Overflows 2 _ a k (omega arith) (omega (arith, length-big_endian 2 i))
marshal-Overflows (Field.u8 i) a h ok k small within over =
    put-Overflows 1 _ a k (omega arith) (omega arith)
marshal-Overflows (Field.bool b) a h ok k small within over =
    put-Overflows 1 _ a k (omega arith) (omega arith)
marshal-Overflows (Field.bytes bp) a h ok k small within over =
    put-Overflows _ _ a k (omega arith) (omega arith)
marshal-Overflows (Field.carrier bp) a h ok k small within over =
    let e : length bp % u32_mod ≡ length bp = omega arith in
    rw e (
      counted-Overflows bp _ a h (omega (arith, length-take (length bp) bp)) ok k small within (
        omega
          (arith, length-append (big_endian 4 (length bp)) bp, length-big_endian 4 (length bp))))
marshal-Overflows (Field.terminated bp terminator rest) a h ok k small within over =
    put-Overflows _ _ a k (omega arith)
      (omega (arith, length-append (scan terminator (memory bp terminator rest)) (terminator ∷ [])))
marshal-Overflows (Field.string s) a h ok k small within over =
    let e : length s % u32_mod ≡ length s = omega arith in
    rw e (
      counted-Overflows s _ a (omega arith) (omega (arith, length-take (length s) s)) ok k small
        within
        (omega (arith, length-append (big_endian 4 (length s)) s, length-big_endian 4 (length s))))

-- An object that does not fit a fixed buffer sets the error flag, and no store falls outside the
-- buffer, whose size stays what it was.
pub marshal_all-Overflows :
    (fs : List Field) (a : BufferedSerializeAction)
    → AreFields fs
    → a.error ≡ false
    → a.expandable ≡ false
    → length a.buf < 2 ^ 63
    → a.offset ≤ length a.buf
    → length a.buf < a.offset + length (encode_all fs)
    → Overflows a (marshal_all fs a)
unfolding marshal_all encode_all
marshal_all-Overflows [] a h ok k small within over = absurd (omega arith)
marshal_all-Overflows (f ∷ fs) a h ok k small within over =
    elim (dec_le (a.offset + length (encode f)) (length a.buf)) [
      | yes room ↦
          let p =
            marshal-Appends f a h.0 ok
              (record { within = within; no_wrap = omega arith; room = inr room }) in
          let q =
            marshal_all-Overflows fs (marshal f a) h.1 p.no_error (p.mode ∙ k) (ground arith)
              p.within (ground (arith, length-append (encode f) (encode_all fs))) in
          record { flagged = q.flagged; size = q.size ∙ ground arith }
      | no none ↦
          let q = marshal-Overflows f a h.0 ok k small within (omega arith) in
          rw (marshal_all_after_error fs (marshal f a) q.flagged) q
    ]
