-- ===== src/Serialize/RoundTrip.antt =====
-- What Unmarshal makes of the bytes that Marshal writes.
use oasys.Base.{
  ℕ, ◌+◌, ◌^◌, ◌<◌, ◌≡◌, sym, ap, ◌∙◌, Bool, true, false, not, List, [], ◌∷◌, ◌++◌, map, length,
  some, none, ◌==◌, arith, length-append, if◌then◌else◌,
}
use mathlib.Core.List.{append_assoc, append-nil}
use oasys.Serialize.Field.{
  Field, big_endian, encode, encode_all, shape, scan, memory, IsField, AreFields, length-big_endian,
}
use oasys.Serialize.Unmarshal.{
  Outcome, number, flag, copied, carried, u64_value, u32_value, u16_value, first_byte, length_or,
  load, unmarshal_u32, unmarshal_carrier, unmarshal_string, unmarshal_until, unmarshal,
  unmarshal_all,
}
use oasys.Serialize.Unmarshal.Until.{until_found, scan-Lacks}
use oasys.Serialize.Unmarshal.Reading.{
  reader, next_slice-reader, load-reader, u16_value-big_endian, u32_value-big_endian,
  u64_value-big_endian,
}

-- The outcome of each `process`, for a field whose bytes start at `start`.
unfoldable pub rebuilt : ℕ → Field → Outcome
rebuilt start (Field.u64 i) = number i
rebuilt start (Field.u32 i) = number i
rebuilt start (Field.u16 i) = number i
rebuilt start (Field.u8 i) = number i
rebuilt start (Field.bool b) = flag b
rebuilt start (Field.bytes bp) = copied bp
rebuilt start (Field.carrier bp) =
    if length bp == 0 then carried none 0 else carried (some (start + 4)) (length bp)
rebuilt start (Field.terminated bp terminator rest) =
    carried (some start) (length (scan terminator (memory bp terminator rest)) + 2)
rebuilt start (Field.string s) = copied s

unfoldable pub rebuilt_all : ℕ → List Field → List Outcome
rebuilt_all start [] = []
rebuilt_all start (f ∷ fs) = rebuilt start f ∷ rebuilt_all (start + length (encode f)) fs

zero-add-two : (n : ℕ) → 0 + n + 2 ≡ n + 2
zero-add-two n = omega arith

module _ (junk : ℕ) where
  unmarshal_number :
      (n i : ℕ) (value : List ℕ → ℕ) (pre rest : List ℕ)
      → value (big_endian n i) ≡ i
      → length pre + length (big_endian n i) + length rest < 2 ^ 64
      → load n (λ buf. number (value buf)) (reader pre (big_endian n i ++ rest))
        ≡ (number i, reader (pre ++ big_endian n i) rest)
  unmarshal_number n i value pre rest e h =
      let p = load-reader (λ buf. number (value buf)) pre (big_endian n i) rest h in
      rw (length-big_endian n i, e) at p

  read_u32 :
      (i : ℕ) (pre rest : List ℕ)
      → i < 2 ^ 32
      → length pre + 4 + length rest < 2 ^ 64
      → unmarshal_u32 (reader pre (big_endian 4 i ++ rest))
        ≡ (number i, reader (pre ++ big_endian 4 i) rest)
  unfolding unmarshal_u32
  read_u32 i pre rest h k =
      unmarshal_number 4 i u32_value pre rest (u32_value-big_endian i h)
        (omega (arith, length-big_endian 4 i))

  unmarshal-string :
      (s pre rest : List ℕ)
      → length s < 2 ^ 32
      → length pre + (4 + length s) + length rest < 2 ^ 64
      → unmarshal_string junk (reader pre (big_endian 4 (length s) ++ (s ++ rest)))
        ≡ (copied s, reader ((pre ++ big_endian 4 (length s)) ++ s) rest)
  unfolding unmarshal_string length_or
  unmarshal-string s pre rest h k =
      let wide = length-big_endian 4 (length s) in
      let front = pre ++ big_endian 4 (length s) in
      let e : length front ≡ length pre + 4 =
        omega (arith, length-append pre (big_endian 4 (length s))) in
      rw (read_u32 (length s) pre (s ++ rest) h (omega (arith, length-append s rest)))
        (load-reader copied front s rest (omega arith))

  unmarshal-carrier :
      (bp pre rest : List ℕ)
      → length bp < 2 ^ 32
      → length pre + (4 + length bp) + length rest < 2 ^ 64
      → unmarshal_carrier junk (reader pre (big_endian 4 (length bp) ++ (bp ++ rest))) ≡ (
        rebuilt (length pre) (Field.carrier bp),
        reader ((pre ++ big_endian 4 (length bp)) ++ bp) rest,
      )
  unfolding unmarshal_carrier length_or rebuilt
  unmarshal-carrier [] pre rest h k = rw (read_u32 0 pre rest h (omega arith), append-nil)
  unmarshal-carrier (c ∷ cs) pre rest h k =
      let bp = c ∷ cs in
      let wide = length-big_endian 4 (length bp) in
      let front = pre ++ big_endian 4 (length bp) in
      let e : length front ≡ length pre + 4 =
        omega (arith, length-append pre (big_endian 4 (length bp))) in
      rw
        (
          read_u32 (length bp) pre (bp ++ rest) h (omega (arith, length-append bp rest)),
          next_slice-reader front bp rest (omega arith),
          e,
        )
        (ground arith)

  first_byte_single : (i : ℕ) → first_byte (i ∷ []) ≡ i
  unfolding first_byte
  first_byte_single i = omega arith

  byte_flag :
      (b : Bool) (pre rest : List ℕ)
      → length pre + 1 + length rest < 2 ^ 64
      → load 1 (λ buf. flag (not (first_byte buf == 0))) (reader pre ((if b then 1 else 0) ∷ rest))
        ≡ (flag b, reader (pre ++ (if b then 1 else 0) ∷ []) rest)
  unfolding first_byte
  byte_flag true pre rest k =
      load-reader (λ buf. flag (not (first_byte buf == 0))) pre (1 ∷ []) rest k
  byte_flag false pre rest k =
      load-reader (λ buf. flag (not (first_byte buf == 0))) pre (0 ∷ []) rest k

  unmarshal-encode :
      (f : Field) (pre rest : List ℕ)
      → IsField f
      → length pre + length (encode f) + length rest < 2 ^ 64
      → unmarshal junk (shape f) (reader pre (encode f ++ rest))
        ≡ (rebuilt (length pre) f, reader (pre ++ encode f) rest)
  unfolding unmarshal shape encode rebuilt
  unmarshal-encode (Field.u64 i) pre rest h k =
      unmarshal_number 8 i u64_value pre rest (u64_value-big_endian i h) k
  unmarshal-encode (Field.u32 i) pre rest h k =
      read_u32 i pre rest h (omega (arith, length-big_endian 4 i))
  unmarshal-encode (Field.u16 i) pre rest h k =
      unmarshal_number 2 i u16_value pre rest (u16_value-big_endian i h) k
  unmarshal-encode (Field.u8 i) pre rest h k =
      load-reader (λ buf. number (first_byte buf)) pre (i ∷ []) rest k
      ∙ ap (λ n. (number n, reader (pre ++ i ∷ []) rest)) (first_byte_single i)
  unmarshal-encode (Field.bool true) pre rest h k = byte_flag true pre rest k
  unmarshal-encode (Field.bool false) pre rest h k = byte_flag false pre rest k
  unmarshal-encode (Field.bytes bp) pre rest h k = load-reader copied pre bp rest k
  unmarshal-encode (Field.carrier bp) pre rest h k =
      let wide = big_endian 4 (length bp) in
      ap (λ xs. unmarshal_carrier junk (reader pre xs)) (append_assoc wide bp rest)
      ∙ unmarshal-carrier bp pre rest h
          (omega (arith, length-append wide bp, length-big_endian 4 (length bp)))
      ∙ ap (λ xs. (rebuilt (length pre) (Field.carrier bp), reader xs rest))
          (append_assoc pre wide bp)
  unmarshal-encode (Field.terminated bp terminator behind) pre rest h k =
      let found = scan terminator (memory bp terminator behind) in
      let text = found ++ terminator ∷ [] in
      let fuel = length (pre ++ (text ++ rest)) + 1 in
      let total = length-append found (terminator ∷ []) in
      ap (λ xs. unmarshal_until fuel terminator none 0 (reader pre xs))
        (append_assoc found (terminator ∷ []) rest)
      ∙ until_found found terminator pre rest fuel none 0
          (scan-Lacks terminator (memory bp terminator behind))
          (omega (arith, length-append pre (text ++ rest), length-append text rest, total))
          (omega (arith, total))
      ∙ ap (λ n. (carried (some (length pre)) n, reader (pre ++ text) rest))
          (zero-add-two (length found))
  unmarshal-encode (Field.string s) pre rest h k =
      let wide = big_endian 4 (length s) in
      ap (λ xs. unmarshal_string junk (reader pre xs)) (append_assoc wide s rest)
      ∙ unmarshal-string s pre rest (omega arith)
          (omega (arith, length-append wide s, length-big_endian 4 (length s)))
      ∙ ap (λ xs. (copied s, reader xs rest)) (append_assoc pre wide s)

  -- From the bytes that Marshal writes for an object, whatever follows them, Unmarshal rebuilds
  -- every field with no error, and stops behind them. A carrier is given the place of its bytes in
  -- the buffer; the carrier of a terminated field is given one byte more than was written.
  pub unmarshal_all-encode_all :
      (fs : List Field) (pre rest : List ℕ)
      → AreFields fs
      → length pre + length (encode_all fs) + length rest < 2 ^ 64
      → unmarshal_all junk (map shape fs) (reader pre (encode_all fs ++ rest))
        ≡ (rebuilt_all (length pre) fs, reader (pre ++ encode_all fs) rest)
  unfolding unmarshal_all encode_all rebuilt_all
  unmarshal_all-encode_all [] pre rest h k = ap (λ xs. ([], reader xs rest)) (sym (append-nil pre))
  unmarshal_all-encode_all (f ∷ fs) pre rest h k =
      let total = length-append (encode f) (encode_all fs) in
      let front = length-append pre (encode f) in
      let first =
        unmarshal-encode f pre (encode_all fs ++ rest) h.0
          (omega (arith, total, length-append (encode_all fs) rest)) in
      let next =
        unmarshal_all-encode_all fs (pre ++ encode f) rest h.1 (omega (arith, total, front)) in
      rw (
        append_assoc (encode f) (encode_all fs) rest,
        first,
        next,
        front,
        append_assoc pre (encode f) (encode_all fs),
      )
