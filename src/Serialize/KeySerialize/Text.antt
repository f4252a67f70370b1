-- ===== src/Serialize/KeySerialize/Text.antt =====
-- serialize/KeySerialize.cc: the text of a key.
use oasys.Base.{
  ℕ, ◌+◌, ◌-◌, ◌%◌, ◌^◌, ◌<◌, ◌≡◌, List, [], ◌∷◌, ◌++◌, none, some, length, take, if◌then◌else◌,
  arith, refl, ◌∙◌, ap, sym, length-append, length-replicate, replicate,
}
use mathlib.Core.List.{append-nil}
use oasys.Serialize.Buffer.{size_mod, reserve, write}
use oasys.Serialize.Marshal.Room.{length-write}
use oasys.Serialize.Field.{Field, scan, memory}
use oasys.Serialize.KeySerialize.{
  ExpandableBuffer, write_end, append_bytes, hex, hex16, blank_zeros, process_int, add_border,
  counted, put_field, ◌then◌, key_marshal, key_marshal_all, end_action,
}
use oasys.Serialize.KeySerialize.Strtoul.{length-hex, length-blank_zeros}
use oasys.Serialize.KeySerialize.Append.{
  Appends, HasRoom, Appends-append_bytes, Appends-process_int, Appends-add_border, Appends-then,
}

abbrev pub counted_text : List ℕ → List ℕ
counted_text s = hex 8 (length s % 2 ^ 32) ++ s

unfoldable pub field_text : Field → List ℕ
field_text (Field.u64 i) = hex16 i
field_text (Field.u32 i) = hex 8 i
field_text (Field.u16 i) = hex 4 i
field_text (Field.u8 i) = hex 2 i
field_text (Field.bool v) = (if v then 49 else 48) ∷ []
field_text (Field.bytes bp) = bp
field_text (Field.carrier bp) = counted_text bp
field_text (Field.terminated bp terminator rest) =
    counted_text (scan terminator (memory bp terminator rest))
field_text (Field.string s) = counted_text s

unfoldable pub key_text : List ℕ → List Field → List ℕ
key_text border [] = []
key_text border (f ∷ fs) = (field_text f ++ border) ++ key_text border fs

pub length-hex16 : (i : ℕ) → length (hex16 i) ≡ 16
unfolding hex16
length-hex16 i =
    let s = hex 8 (i % 2 ^ 32) in
    omega (
      arith,
      length-append (replicate 8 32) (blank_zeros s),
      length-replicate {A = ℕ} 8 32,
      length-blank_zeros s,
      length-hex 8 (i % 2 ^ 32),
    )

counted-Appends :
    (s : List ℕ) (b : ExpandableBuffer)
    → HasRoom (length (counted_text s)) b
    → Appends b (counted_text s) (counted s b)
unfolding counted
counted-Appends s b (h, top) =
    let n = length s % 2 ^ 32 in
    let e = length-hex 8 n in
    let l = length-append (hex 8 n) s in
    Appends-then (hex 8 n) s b (process_int 8 (hex 8 n) b) (append_bytes (length s) s)
      (omega (arith, l), top) (Appends-process_int 8 (hex 8 n) b e (omega (arith, l, e), top))
      (λ b' r. Appends-append_bytes s b' r)

put_field-Appends :
    (f : Field) (b : ExpandableBuffer)
    → HasRoom (length (field_text f)) b
    → Appends b (field_text f) (put_field f b)
unfolding field_text put_field
put_field-Appends (Field.u64 i) b (h, top) =
    Appends-process_int 16 (hex16 i) b (length-hex16 i) (omega (arith, length-hex16 i), top)
put_field-Appends (Field.u32 i) b (h, top) =
    Appends-process_int 8 (hex 8 i) b (length-hex 8 i) (omega (arith, length-hex 8 i), top)
put_field-Appends (Field.u16 i) b (h, top) =
    Appends-process_int 4 (hex 4 i) b (length-hex 4 i) (omega (arith, length-hex 4 i), top)
put_field-Appends (Field.u8 i) b (h, top) =
    Appends-process_int 2 (hex 2 i) b (length-hex 2 i) (omega (arith, length-hex 2 i), top)
put_field-Appends (Field.bool v) b (h, top) =
    Appends-process_int 1 ((if v then 49 else 48) ∷ []) b refl (h, top)
put_field-Appends (Field.bytes bp) b r = Appends-append_bytes bp b r
put_field-Appends (Field.carrier bp) b r = counted-Appends bp b r
put_field-Appends (Field.terminated bp terminator rest) b r =
    counted-Appends (scan terminator (memory bp terminator rest)) b r
put_field-Appends (Field.string s) b r = counted-Appends s b r

-- With room for the text and a NUL in the buffer's memory, KeyMarshal passes its assertions, writes
-- nothing outside of the memory, and appends the text of the key.
pub key_marshal_all-Appends :
    (border : List ℕ) (fs : List Field) (b : ExpandableBuffer)
    → HasRoom (length (key_text border fs)) b
    → Appends b (key_text border fs) (key_marshal_all border fs b)
unfolding key_text key_marshal_all key_marshal
key_marshal_all-Appends border [] b r = (
  b,
  refl,
  record {
    longer = omega arith;
    same_memory = refl;
    content = sym (append-nil (take b.len b.memory));
  },
)
key_marshal_all-Appends border (f ∷ fs) b (h, top) =
    let l = length-append (field_text f) border in
    let l' = length-append (field_text f ++ border) (key_text border fs) in
    Appends-then (field_text f ++ border) (key_text border fs) b
      (put_field f b then add_border border) (key_marshal_all border fs) (omega (arith, l'), top)
      (Appends-then (field_text f) border b (put_field f b) (add_border border)
        (omega (arith, l, l'), top) (put_field-Appends f b (omega (arith, l, l'), top))
        (λ b' r. Appends-add_border border b' r))
      (λ b' r. key_marshal_all-Appends border fs b' r)

-- A buffer without memory.
abbrev pub no_memory : ExpandableBuffer
no_memory = record { memory = []; len = 0 }

first_number :
    (text : List ℕ)
    → length text ≡ 8
    → (b : ExpandableBuffer) × (process_int 8 text no_memory ≡ some b)
      × (b.len ≡ 8)
      × (length b.memory ≡ 9)
unfolding process_int reserve
first_number text e =
    let one : length (text ++ 0 ∷ []) ≡ 9 = omega (arith, length-append text (0 ∷ []), e) in
    (
      record { memory = write 0 (text ++ 0 ∷ []) (replicate 9 0); len = 8 },
      rw (e, length-replicate {A = ℕ} 9 0) refl,
      refl,
      length-write 0 (text ++ 0 ∷ []) (replicate 9 0)
            (omega (arith, one, length-replicate {A = ℕ} 9 0))
          ∙ length-replicate 9 0,
    )

fills :
    (s : List ℕ) (b : ExpandableBuffer)
    → 0 < length s
    → length s < 2 ^ 32
    → b.len ≡ 8
    → length b.memory ≡ 9
    → (b' : ExpandableBuffer) × (append_bytes (length s) s b ≡ some b')
      × (b'.len ≡ length b'.memory)
      × (0 < b'.len)
unfolding append_bytes write_end
fills s b h k l m =
    let memory = reserve ((b.len + length s) % size_mod) b.memory in
    let r : length memory ≡ 8 + length s =
      unfold reserve in
      ground (
        arith,
        l,
        m,
        length-append b.memory (replicate (8 + length s - 9) 0),
        length-replicate {A = ℕ} (8 + length s - 9) 0,
      ) in
    (
      record { memory = write b.len s memory; len = b.len + length s },
      rw r (ground (arith, l)),
      sym (length-write b.len s memory (omega (arith, r, l)) ∙ (r ∙ omega (arith, l))),
      omega arith,
    )

end_action_at_end :
    (b : ExpandableBuffer) → b.len ≡ length b.memory → 0 < b.len → end_action b ≡ none
unfolding end_action reserve
end_action_at_end b e h = ground arith

-- Into a buffer with no memory yet, the key of a single text that is not empty fails an assertion:
-- `end_action` reserves one byte of a buffer that is full.
pub end_action_full :
    (s : List ℕ)
    → 0 < length s
    → length s < 2 ^ 32
    → (key_marshal_all [] (Field.string s ∷ []) no_memory then end_action) ≡ none
unfolding key_marshal_all key_marshal put_field counted add_border
end_action_full s h k =
    let n = length s % 2 ^ 32 in
    let (b, e, l, m) = first_number (hex 8 n) (length-hex 8 n) in
    let (b', e', full, some_bytes) = fills s b h k l m in
    rw (e, e') (end_action_at_end b' full some_bytes)

-- Two u_int64_t values with the same low 32 bits have the same key.
pub same_key :
    (border : List ℕ) (i j : ℕ)
    → i % 2 ^ 32 ≡ j % 2 ^ 32
    → key_text border (Field.u64 i ∷ []) ≡ key_text border (Field.u64 j ∷ [])
unfolding key_text field_text hex16
same_key border i j e = ap (λ n. ((replicate 8 32 ++ blank_zeros (hex 8 n)) ++ border) ++ []) e
