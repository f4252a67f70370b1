-- ===== src/Serialize/Unmarshal/Reading.antt =====
-- Unmarshal on a fixed buffer that holds the wire format at the offset.
use oasys.Base.{
  ℕ, ◌+◌, ◌*◌, ◌/◌, ◌%◌, ◌^◌, ◌<◌, ◌≡◌, ap, false, List, ◌++◌, length, some, arith, length-append,
  take-append, drop-append,
}
use mathlib.Core.List.{append_assoc}
use oasys.Base.Bits.{bit_or-byte_below}
use oasys.Serialize.Buffer.{BufferedSerializeAction, next_slice, read}
use oasys.Serialize.Field.{big_endian}
use oasys.Serialize.Unmarshal.{Outcome, u64_value, u32_value, u16_value, load}

-- `pre` has been read and `rest` has not.
abbrev pub reader : List ℕ → List ℕ → BufferedSerializeAction
reader pre rest = record {
  error = false;
  expandable = false;
  buf = pre ++ rest;
  offset = length pre;
}

pub read-append :
    (pre bytes rest : List ℕ) → read (length pre) (length bytes) (pre ++ (bytes ++ rest)) ≡ bytes
unfolding read
read-append pre bytes rest = rw (drop-append pre (bytes ++ rest)) (take-append bytes rest)

pub next_slice-reader :
    (pre bytes rest : List ℕ)
    → length pre + length bytes + length rest < 2 ^ 64
    → next_slice (length bytes) (reader pre (bytes ++ rest))
      ≡ (some (length pre), reader (pre ++ bytes) rest)
unfolding next_slice
next_slice-reader pre bytes rest h = ground (
  arith,
  length-append pre (bytes ++ rest),
  length-append bytes rest,
  length-append pre bytes,
  append_assoc pre bytes rest,
)

pub load-reader :
    (value : List ℕ → Outcome) (pre bytes rest : List ℕ)
    → length pre + length bytes + length rest < 2 ^ 64
    → load (length bytes) value (reader pre (bytes ++ rest))
      ≡ (value bytes, reader (pre ++ bytes) rest)
unfolding load
load-reader value pre bytes rest h =
    let e : read (length pre) (length bytes) ((pre ++ bytes) ++ rest) ≡ bytes =
      rw append_assoc (read-append pre bytes rest) in
    rw (next_slice-reader pre bytes rest h) (ap (λ bs. (value bs, reader (pre ++ bytes) rest)) e)

-- The bytes of the wire format, put together by `|`, are the number.
pub u16_value-big_endian : (i : ℕ) → i < 2 ^ 16 → u16_value (big_endian 2 i) ≡ i
unfolding u16_value big_endian
u16_value-big_endian i h =
    rw (bit_or-byte_below 0 (i / 256 % 256) (i % 256) (omega arith)) (omega arith)

pub u32_value-big_endian : (i : ℕ) → i < 2 ^ 32 → u32_value (big_endian 4 i) ≡ i
unfolding u32_value big_endian
u32_value-big_endian i h =
    let b3 = i / 256 / 256 / 256 % 256 in
    let b2 = i / 256 / 256 % 256 in
    let b1 = i / 256 % 256 in
    let q2 = b3 * 256 + b2 in
    rw
      (
        bit_or-byte_below 16 b3 b2 (omega arith),
        bit_or-byte_below 8 q2 b1 (omega arith),
        bit_or-byte_below 0 (q2 * 256 + b1) (i % 256) (omega arith),
      )
      (omega arith)

pub u64_value-big_endian : (i : ℕ) → i < 2 ^ 64 → u64_value (big_endian 8 i) ≡ i
unfolding u64_value big_endian
u64_value-big_endian i h =
    let b6 = i / 256 / 256 / 256 / 256 / 256 / 256 % 256 in
    let b5 = i / 256 / 256 / 256 / 256 / 256 % 256 in
    let b4 = i / 256 / 256 / 256 / 256 % 256 in
    let b3 = i / 256 / 256 / 256 % 256 in
    let q6 = i / 256 / 256 / 256 / 256 / 256 / 256 / 256 % 256 * 256 + b6 in
    let q5 = q6 * 256 + b5 in
    let q4 = q5 * 256 + b4 in
    let q3 = q4 * 256 + b3 in
    let q2 = q3 * 256 + i / 256 / 256 % 256 in
    rw
      (
        bit_or-byte_below 48 (i / 256 / 256 / 256 / 256 / 256 / 256 / 256 % 256) b6 (omega arith),
        bit_or-byte_below 40 q6 b5 (omega arith),
        bit_or-byte_below 32 q5 b4 (omega arith),
        bit_or-byte_below 24 q4 b3 (omega arith),
        bit_or-byte_below 16 q3 (i / 256 / 256 % 256) (omega arith),
        bit_or-byte_below 8 q2 (i / 256 % 256) (omega arith),
        bit_or-byte_below 0 (q2 * 256 + i / 256 % 256) (i % 256) (omega arith),
      )
      (omega arith)
