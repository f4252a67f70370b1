-- ===== src/Serialize/Marshal.antt =====
-- serialize/MarshalSerialize.cc: Marshal and MarshalSize, a clause for each `process`.
-- The options are 0: the checksum that USE_CRC appends is not modelled. Logging is left out.
pub mod Room
pub mod Correct
pub mod Overflow
use Prim.Native.Nat.{bit_and}
use oasys.Base.{
  ℕ, ◌+◌, ◌/◌, ◌%◌, ◌^◌, Bool, true, false, List, [], ◌∷◌, Option, none, some, length, take,
  if◌then◌else◌,
}
use oasys.Serialize.Buffer.{BufferedSerializeAction, next_slice, write}
use oasys.Serialize.Field.{Field, scan, memory}

abbrev pub u32_mod : ℕ
u32_mod = 2 ^ 32

-- `(i >> k) & 0xff`.
abbrev byte_of : ℕ → ℕ → ℕ
byte_of i k = bit_and (i / 2 ^ k) 0xff

unfoldable pub u64_bytes : ℕ → List ℕ
u64_bytes i =
    byte_of i 56
    ∷ byte_of i 48
    ∷ byte_of i 40
    ∷ byte_of i 32
    ∷ byte_of i 24
    ∷ byte_of i 16
    ∷ byte_of i 8
    ∷ bit_and i 0xff
    ∷ []

unfoldable pub u32_bytes : ℕ → List ℕ
u32_bytes i = byte_of i 24 ∷ byte_of i 16 ∷ byte_of i 8 ∷ bit_and i 0xff ∷ []

unfoldable pub u16_bytes : ℕ → List ℕ
u16_bytes i = byte_of i 8 ∷ bit_and i 0xff ∷ []

-- `if (buf == NULL) return;`, and otherwise the stores into the slice.
unfoldable pub fill : Option ℕ → List ℕ → BufferedSerializeAction → BufferedSerializeAction
fill none bytes a = a
fill (some start) bytes a = record a { buf = write start bytes a.buf }

-- next_slice(len) with the stores that follow it.
unfoldable pub put : ℕ → List ℕ → BufferedSerializeAction → BufferedSerializeAction
unfolding fill
put len bytes a = let (slot, a') = next_slice len a in fill slot bytes a'

-- process(name, bp, len): `len` bytes from the memory at `bp`.
unfoldable pub marshal_bytes : List ℕ → ℕ → BufferedSerializeAction → BufferedSerializeAction
marshal_bytes bp len = put (len % u32_mod) (take (len % u32_mod) bp)

unfoldable pub marshal_u32 : ℕ → BufferedSerializeAction → BufferedSerializeAction
marshal_u32 i = put 4 (u32_bytes i)

-- Marshal::process.
unfoldable pub marshal : Field → BufferedSerializeAction → BufferedSerializeAction
marshal (Field.u64 i) a = put 8 (u64_bytes i) a
marshal (Field.u32 i) a = marshal_u32 i a
marshal (Field.u16 i) a = put 2 (u16_bytes i) a
marshal (Field.u8 i) a = put 1 (i ∷ []) a
marshal (Field.bool b) a = put 1 ((if b then 1 else 0) ∷ []) a
marshal (Field.bytes bp) a = marshal_bytes bp (length bp) a
marshal (Field.carrier bp) a = marshal_bytes bp (length bp) (marshal_u32 (length bp % u32_mod) a)
marshal (Field.terminated bp terminator rest) a =
    let len = length (scan terminator (memory bp terminator rest)) in
    marshal_bytes (memory bp terminator rest) (len + 1) a
marshal (Field.string s) a =
    let len = length s % u32_mod in put len (take len s) (marshal_u32 len a)

-- The `process` calls of an object's `serialize()`, in order.
unfoldable pub marshal_all : List Field → BufferedSerializeAction → BufferedSerializeAction
marshal_all [] a = a
marshal_all (f ∷ fs) a = marshal_all fs (marshal f a)

-- MarshalSize::process, with the `get_size` of each type.
unfoldable pub get_size : Field → ℕ
get_size (Field.u64 i) = 8
get_size (Field.u32 i) = 4
get_size (Field.u16 i) = 2
get_size (Field.u8 i) = 1
get_size (Field.bool b) = 1
get_size (Field.bytes bp) = length bp % u32_mod
get_size (Field.carrier bp) = 4 + length bp
get_size (Field.terminated bp terminator rest) =
    length (scan terminator (memory bp terminator rest)) + 1
get_size (Field.string s) = (length s + 4) % u32_mod

unfoldable pub marshal_size : List Field → ℕ → ℕ
marshal_size [] size = size
marshal_size (f ∷ fs) size = marshal_size fs ((size + get_size f) % 2 ^ 64)
