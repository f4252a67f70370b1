-- ===== src/Serialize/Tests.antt =====
-- Concrete runs of serialize/MarshalSerialize.cc, and the theorems at concrete inputs.
use oasys.Base.{
  ℕ, ◌+◌, ◌≡◌, refl, true, false, inr, List, [], ◌∷◌, ◌++◌, length, take, drop, replicate, some,
  none, map, arith,
}
use oasys.Serialize.Buffer.{
  BufferedSerializeAction, reserve, tail_buf, next_slice, write, read, begin_processing,
}
use oasys.Serialize.Field.{Field, Shape, shape, big_endian, scan, memory, encode, encode_all}
use oasys.Serialize.Marshal.{
  u64_bytes, u32_bytes, u16_bytes, fill, put, marshal_bytes, marshal_u32, marshal, marshal_all,
  get_size, marshal_size,
}
use oasys.Serialize.Marshal.Room.{Appends}
use oasys.Serialize.Marshal.Correct.{marshal_all-Appends, marshal_size-marshal_all}
use oasys.Serialize.Marshal.Overflow.{Overflows, marshal_all-Overflows}
use oasys.Serialize.Unmarshal.{
  number, flag, copied, carried, u64_value, u32_value, u16_value, first_byte, stored, load,
  length_or, unmarshal_u32, unmarshal_carrier, unmarshal_string, until_round, unmarshal_until,
  unmarshal, unmarshal_all,
}
use oasys.Serialize.Unmarshal.Reading.{reader}
use oasys.Serialize.RoundTrip.{rebuilt, rebuilt_all, unmarshal_all-encode_all}
use oasys.Serialize.Copy.{copy, copy-rebuilt_all, value, resolve}

program : Unit {0}
unfolding reserve tail_buf next_slice write read begin_processing shape big_endian scan memory
    encode encode_all u64_bytes u32_bytes u16_bytes fill put marshal_bytes marshal_u32 marshal
    marshal_all get_size marshal_size u64_value u32_value u16_value first_byte stored load length_or
    unmarshal_u32 unmarshal_carrier unmarshal_string until_round unmarshal_until unmarshal
    unmarshal_all rebuilt rebuilt_all copy value resolve take drop replicate
program = tt

abbrev object : List Field
object =
    Field.u32 0x1020304
    ∷ Field.string (104 ∷ 105 ∷ [])
    ∷ Field.bool true
    ∷ Field.carrier (7 ∷ 8 ∷ [])
    ∷ Field.terminated (65 ∷ []) 0 (66 ∷ [])
    ∷ []

abbrev wire : List ℕ
wire = 1 ∷ 2 ∷ 3 ∷ 4 ∷ 0 ∷ 0 ∷ 0 ∷ 2 ∷ 104 ∷ 105 ∷ 1 ∷ 0 ∷ 0 ∷ 0 ∷ 2 ∷ 7 ∷ 8 ∷ 65 ∷ 0 ∷ []

abbrev fixed : ℕ → BufferedSerializeAction
fixed n = record { error = false; expandable = false; buf = replicate n 0; offset = 0 }

marshal_example : (marshal_all object (fixed 20)).buf ≡ wire ++ 0 ∷ []
unfolding program
marshal_example = refl

size_example : marshal_size object 0 ≡ 19
unfolding program
size_example = refl

-- The last carrier is given three bytes of an encoding that has two.
unmarshal_example :
    (unmarshal_all 99 (map shape object) (reader [] wire)).0
    ≡ number 0x1020304
      ∷ copied (104 ∷ 105 ∷ [])
      ∷ flag true
      ∷ carried (some 15) 2
      ∷ carried (some 17) 3
      ∷ []
unfolding program
unmarshal_example = refl

-- A failed read of the length leaves the carrier with NULL and whatever the length held.
unmarshal_short :
    unmarshal 99 Shape.carrier (reader [] (1 ∷ []))
    ≡ (carried none 99, record (reader [] (1 ∷ [])) { error = true })
unfolding program
unmarshal_short = refl

unmarshal_all-encode_all_example :
    unmarshal_all 99 (map shape object) (reader (9 ∷ []) (encode_all object ++ 5 ∷ []))
    ≡ (rebuilt_all 1 object, reader (9 ∷ encode_all object) (5 ∷ []))
unfolding program
unmarshal_all-encode_all_example =
    unmarshal_all-encode_all 99 object (9 ∷ []) (5 ∷ []) (omega arith) (omega arith)

marshal_all-Appends_example : Appends (fixed 20) (encode_all object) (marshal_all object (fixed 20))
unfolding program
marshal_all-Appends_example =
    marshal_all-Appends object (fixed 20) (omega arith) refl
      (record { within = omega arith; no_wrap = omega arith; room = inr (omega arith) })

marshal_size-marshal_all_example :
    (marshal_all object (fixed 20)).offset ≡ 0 + marshal_size object 0
unfolding program
marshal_size-marshal_all_example =
    marshal_size-marshal_all object (fixed 20) (omega arith) refl
      (record { within = omega arith; no_wrap = omega arith; room = inr (omega arith) })

marshal_all-Overflows_example : Overflows (fixed 9) (marshal_all object (fixed 9))
unfolding program
marshal_all-Overflows_example =
    marshal_all-Overflows object (fixed 9) (omega arith) refl refl (omega arith) (omega arith)
      (omega arith)

copy-rebuilt_all_example :
    copy 99 object [] ≡ some (rebuilt_all 0 object, length (encode_all object))
unfolding program
copy-rebuilt_all_example = copy-rebuilt_all 99 object [] (omega arith) (omega arith) (omega arith)
