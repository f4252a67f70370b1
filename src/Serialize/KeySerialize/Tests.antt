-- ===== src/Serialize/KeySerialize/Tests.antt =====
-- Concrete runs of serialize/KeySerialize.cc, and the theorems at concrete inputs.
use oasys.Base.{
  ℕ, ◌+◌, ◌^◌, ◌<◌, ◌≡◌, refl, true, false, List, [], ◌∷◌, ◌++◌, length, take, drop, replicate,
  some, none, arith,
}
use oasys.Serialize.Buffer.{reserve, write}
use oasys.Serialize.Field.{Field, Shape, shape, scan, memory}
use oasys.Serialize.Unmarshal.{number}
use oasys.Serialize.KeySerialize.{
  ExpandableBuffer, write_end, append_bytes, hex_digit, hex, blank_zeros, hex16, process_int,
  add_border, counted, put_field, key_marshal, key_marshal_all, end_action,
}
use oasys.Serialize.KeySerialize.Strtoul.{
  is_space, is_hex, hex_value, digits, skip_space, after_prefix, signed, strtoul,
}
use oasys.Serialize.KeySerialize.Text.{field_text, key_text, same_key}
use oasys.Serialize.KeySerialize.KeyUnmarshal.{
  parse_int, get_int, copy_bytes, copy_checked, get_bool, get_carrier, get_string, key_unmarshal,
  key_unmarshal_all,
}
use oasys.Serialize.KeySerialize.RoundTrip.{key_outcome, Reads, key_unmarshal_all-key_marshal_all}

program : Unit {0}
unfolding reserve write shape scan memory take drop replicate write_end append_bytes hex_digit hex
    blank_zeros hex16 process_int add_border counted put_field key_marshal key_marshal_all
    end_action is_space is_hex hex_value digits skip_space after_prefix signed strtoul field_text
    key_text parse_int get_int copy_bytes copy_checked get_bool get_carrier get_string key_unmarshal
    key_unmarshal_all key_outcome
program = tt

abbrev border : List ℕ
border = 46 ∷ []

abbrev fields : List Field
fields = Field.u16 0x1a2 ∷ Field.bool true ∷ Field.string (104 ∷ 105 ∷ []) ∷ []

abbrev text : List ℕ
text =
    48 ∷ 49 ∷ 97 ∷ 50 ∷ 46 ∷ 49 ∷ 46 ∷ 48 ∷ 48 ∷ 48 ∷ 48 ∷ 48 ∷ 48 ∷ 48 ∷ 50 ∷ 104 ∷ 105 ∷ 46 ∷ []

text_example : key_text border fields ≡ text
unfolding program
text_example = refl

abbrev empty : ExpandableBuffer
empty = record { memory = replicate 40 0; len = 0 }

marshal_example :
    key_marshal_all border fields empty
    ≡ some (record { memory = text ++ 0 ∷ replicate 21 0; len = 18 })
unfolding program
marshal_example = refl

unmarshal_example :
    key_unmarshal_all
      (Shape.u16 ∷ [])
      (record { error = false; buf = text; border_len = 1; cur = 0 })
    ≡ some (number 0x1a2 ∷ [], record { error = false; buf = text; border_len = 1; cur = 5 })
unfolding program
unmarshal_example = refl

-- Text that is no number is read as 0, with no error.
garbage :
    key_unmarshal Shape.u8 (record { error = false; buf = 122 ∷ 122 ∷ []; border_len = 0; cur = 0 })
    ≡ some (number 0, record { error = false; buf = 122 ∷ 122 ∷ []; border_len = 0; cur = 2 })
unfolding program
garbage = refl

-- A text whose length is larger than what is left of the buffer is read past its end.
past_end :
    key_unmarshal Shape.string (record {
      error = false;
      buf = 48 ∷ 48 ∷ 48 ∷ 48 ∷ 48 ∷ 48 ∷ 48 ∷ 57 ∷ 97 ∷ [];
      border_len = 0;
      cur = 0;
    })
    ≡ none
unfolding program
past_end = refl

fits : length (key_text border fields) < length empty.memory
unfolding program
fits = omega arith

few : length empty.memory < 2 ^ 32
unfolding program
few = omega arith

key_unmarshal_all-key_marshal_all_example :
    (b' : ExpandableBuffer) × (key_marshal_all border fields empty ≡ some b')
    × Reads border fields (take b'.len b'.memory) b'.len
key_unmarshal_all-key_marshal_all_example =
    key_unmarshal_all-key_marshal_all border fields empty (omega arith, (tt, (omega arith, tt)))
      refl fits few

same_key_example :
    key_text border (Field.u64 (2 ^ 32 + 5) ∷ []) ≡ key_text border (Field.u64 5 ∷ [])
same_key_example = same_key border (2 ^ 32 + 5) 5 (omega arith)
