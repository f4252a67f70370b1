-- ===== src/Serialize/KeySerialize.antt =====
-- serialize/KeySerialize.cc: KeyMarshal, and the buffer of util/ExpandableBuffer.h that it writes
-- to. An assertion that fails and a write past the memory are `none`. The error flag is left out:
-- nothing sets it.
pub mod Strtoul
pub mod KeyUnmarshal
pub mod Append
pub mod Text
pub mod Reading
pub mod RoundTrip
mod Tests
use oasys.Base.{
  ℕ, zero, suc, ◌+◌, ◌-◌, ◌/◌, ◌%◌, ◌^◌, Bool, true, false, not, ◌&&◌, ◌||◌, List, [], ◌∷◌, ◌++◌,
  Option, none, some, length, replicate, ltb, leb, ◌==◌, if◌then◌else◌,
}
use oasys.Serialize.Buffer.{size_mod, reserve, write}
use oasys.Serialize.Field.{Field, scan, memory}

-- `buf_len_` is the length of the memory.
pub record ExpandableBuffer : Type 0 where
  pub memory : List ℕ
  pub len : ℕ

-- The assertion of `end`, and then `memcpy`, `set_len` and its assertion.
unfoldable pub write_end : List ℕ → ExpandableBuffer → Option ExpandableBuffer
write_end bytes b =
    if ltb b.len (length b.memory) && leb (b.len + length bytes) (length b.memory)
    then some record b { memory = write b.len bytes b.memory; len = b.len + length bytes }
    else none

-- `reserve` is called with `size` more than the length.
unfoldable pub append_bytes : ℕ → List ℕ → ExpandableBuffer → Option ExpandableBuffer
append_bytes size bytes b =
    write_end bytes (record b { memory = reserve ((b.len + size) % size_mod) b.memory })

-- `%x` prints a digit; `n` of them with leading zeros.
unfoldable pub hex_digit : ℕ → ℕ
hex_digit d = if ltb d 10 then 48 + d else 87 + d

unfoldable pub hex : ℕ → ℕ → List ℕ
hex zero i = []
hex (suc n) i = hex n (i / 16) ++ hex_digit (i % 16) ∷ []

-- The leading zeros, but not the last digit, as spaces.
unfoldable pub blank_zeros : List ℕ → List ℕ
blank_zeros [] = []
blank_zeros (c ∷ []) = c ∷ []
blank_zeros (c ∷ d ∷ cs) =
    let rest = blank_zeros (d ∷ cs) in if c == 48 then 32 ∷ rest else c ∷ d ∷ cs

-- `%16x` reads an unsigned int of 32 bits, where a u_int64_t was passed: on the usual machines its
-- low half.
unfoldable pub hex16 : ℕ → List ℕ
hex16 i = replicate 8 32 ++ blank_zeros (hex 8 (i % 2 ^ 32))

-- KeyMarshal::process_int and process_int64: snprintf writes a NUL too, of which the length does not
-- count; its assertion on the number of characters.
unfoldable pub process_int : ℕ → List ℕ → ExpandableBuffer → Option ExpandableBuffer
process_int size text b =
    let b' : ExpandableBuffer = record b {
      memory = reserve ((b.len + size + 1) % size_mod) b.memory;
    } in
    if (length text == size)
      && ltb b.len (length b'.memory)
      && leb (b.len + size + 1) (length b'.memory)
    then some record b' { memory = write b.len (text ++ 0 ∷ []) b'.memory; len = b.len + size }
    else none

-- `border_` NULL is the empty border.
unfoldable pub add_border : List ℕ → ExpandableBuffer → Option ExpandableBuffer
add_border [] b = some b
add_border (c ∷ cs) b =
    write_end (c ∷ cs) (record b { memory = reserve (length (c ∷ cs)) b.memory })

infix 20 ◌then◌
abbrev pub ◌then◌ :
    Option ExpandableBuffer → (ExpandableBuffer → Option ExpandableBuffer) → Option ExpandableBuffer
none then f = none
(some b) then f = f b

-- The length in eight digits and the bytes.
unfoldable pub counted : List ℕ → ExpandableBuffer → Option ExpandableBuffer
counted s b = process_int 8 (hex 8 (length s % 2 ^ 32)) b then append_bytes (length s) s

unfoldable pub put_field : Field → ExpandableBuffer → Option ExpandableBuffer
put_field (Field.u64 i) b = process_int 16 (hex16 i) b
put_field (Field.u32 i) b = process_int 8 (hex 8 i) b
put_field (Field.u16 i) b = process_int 4 (hex 4 i) b
put_field (Field.u8 i) b = process_int 2 (hex 2 i) b
put_field (Field.bool v) b = process_int 1 ((if v then 49 else 48) ∷ []) b
put_field (Field.bytes bp) b = append_bytes (length bp) bp b
put_field (Field.carrier bp) b = counted bp b
put_field (Field.terminated bp terminator rest) b =
    counted (scan terminator (memory bp terminator rest)) b
put_field (Field.string s) b = counted s b

-- KeyMarshal::process.
unfoldable pub key_marshal : List ℕ → Field → ExpandableBuffer → Option ExpandableBuffer
key_marshal border f b = put_field f b then add_border border

unfoldable pub key_marshal_all : List ℕ → List Field → ExpandableBuffer → Option ExpandableBuffer
key_marshal_all border [] b = some b
key_marshal_all border (f ∷ fs) b = key_marshal border f b then key_marshal_all border fs

-- KeyMarshal::end_action: a NUL behind the key.
unfoldable pub end_action : ExpandableBuffer → Option ExpandableBuffer
end_action b =
    let memory = reserve 1 b.memory in
    if ltb b.len (length memory)
    then some record b { memory = write b.len (0 ∷ []) memory }
    else none
