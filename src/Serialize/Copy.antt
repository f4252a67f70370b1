-- ===== src/Serialize/Copy.antt =====
-- serialize/MarshalSerialize.cc: MarshalCopy, and the values that a rebuilt object has.
use oasys.Base.{
  ℕ, ◌+◌, ◌%◌, ◌^◌, ◌<◌, ◌≡◌, refl, ap, true, false, List, [], ◌∷◌, ◌++◌, map, length, take,
  take-append_more, Option, some, none, inl, arith, length-append, drop-append, if◌then◌else◌, ◌==◌,
}
use mathlib.Core.List.{append_assoc, append-nil}
use oasys.Serialize.Buffer.{BufferedSerializeAction, read, begin_processing}
use oasys.Serialize.Field.{
  Field, big_endian, encode, encode_all, shape, scan, memory, AreFields, length-big_endian,
}
use oasys.Serialize.Marshal.{marshal_all}
use oasys.Serialize.Marshal.Correct.{marshal_all-Appends}
use oasys.Serialize.Unmarshal.{Outcome, untouched, number, flag, copied, carried, unmarshal_all}
use oasys.Serialize.Unmarshal.Reading.{reader, read-append}
use oasys.Serialize.RoundTrip.{rebuilt, rebuilt_all, unmarshal_all-encode_all}

-- The action that the constructor on an ExpandableBuffer with this memory makes; it empties the
-- buffer.
abbrev writer : List ℕ → BufferedSerializeAction
writer buf = record { error = false; expandable = true; buf = buf; offset = 0 }

-- MarshalCopy::copy: the fields of `dst` and the size; `none` is a PANIC, or the failed assertion of
-- ExpandableBuffer::raw_buf where the buffer has no memory.
unfoldable pub copy : ℕ → List Field → List ℕ → Option (List Outcome × ℕ)
copy junk src buf =
    let m = marshal_all src (begin_processing (writer buf)) in
    let um = begin_processing (reader [] (take m.offset m.buf)) in
    let (dst, um') = unmarshal_all junk (map shape src) um in
    if m.error
    then none
    else if length m.buf == 0
    then none
    else if um'.error
    then none
    else some (dst, m.offset % 2 ^ 32)

-- Copying an object whose wire format is shorter than 2^32 bytes, by way of a buffer that has memory
-- unless the wire format has a byte, fails no assertion and does not panic. It gives `dst` every
-- field of `src`, and returns the length of the wire format; but the carrier of a terminated field
-- is given one byte more than was written.
pub copy-rebuilt_all :
    (junk : ℕ) (src : List Field) (buf : List ℕ)
    → AreFields src
    → length (encode_all src) < 2 ^ 32
    → 0 < length (encode_all src) + length buf
    → copy junk src buf ≡ some (rebuilt_all 0 src, length (encode_all src))
unfolding copy begin_processing take
copy-rebuilt_all junk src buf h small memory_left =
    let p =
      marshal_all-Appends src (writer buf) h refl
        (record { within = omega arith; no_wrap = omega arith; room = inl refl }) in
    let q = unmarshal_all-encode_all junk src [] [] h (omega arith) in
    let whole : reader [] (encode_all src ++ []) ≡ reader [] (encode_all src) =
      ap (reader []) (append-nil (encode_all src)) in
    let allocated : (length (marshal_all src (writer buf)).buf == 0) ≡ false =
      ground (arith, p.within, p.offset, p.grown) in
    rw (p.no_error, allocated, p.content, ← whole, q)
      (ap (λ n. some (rebuilt_all 0 src, n)) (omega (arith, p.offset)))

-- The value of a field, as the variable that it is read into holds it.
unfoldable pub value : Field → Outcome
value (Field.u64 i) = number i
value (Field.u32 i) = number i
value (Field.u16 i) = number i
value (Field.u8 i) = number i
value (Field.bool b) = flag b
value (Field.bytes bp) = copied bp
value (Field.carrier bp) = copied bp
value (Field.terminated bp terminator rest) =
    copied (scan terminator (memory bp terminator rest) ++ terminator ∷ [])
value (Field.string s) = copied s

-- What a carrier shows of the buffer that it points into.
unfoldable pub resolve : List ℕ → Outcome → Outcome
resolve buf (carried none len) = copied []
resolve buf (carried (some start) len) = copied (read start len buf)
resolve buf untouched = untouched
resolve buf (number n) = number n
resolve buf (flag b) = flag b
resolve buf (copied bs) = copied bs

-- The field is not read up to a terminator.
abbrev pub IsCounted : Field → Type 0
IsCounted (Field.terminated bp terminator rest) = ⊥
IsCounted f = Unit {0}

module _ (pre rest : List ℕ) where
  carrier_bytes :
      (bp : List ℕ)
      → read (length pre + 4) (length bp) (pre ++ ((big_endian 4 (length bp) ++ bp) ++ rest)) ≡ bp
  carrier_bytes bp =
      let wide = big_endian 4 (length bp) in
      let start : length pre + 4 ≡ length (pre ++ wide) =
        omega (arith, length-append pre wide, length-big_endian 4 (length bp)) in
      rw (start, append_assoc wide bp rest, ← append_assoc pre wide (bp ++ rest))
        (read-append (pre ++ wide) bp rest)

  -- What a rebuilt field shows, where no field is read up to a terminator, is its value.
  pub resolve-rebuilt :
      (f : Field)
      → IsCounted f
      → resolve (pre ++ (encode f ++ rest)) (rebuilt (length pre) f) ≡ value f
  unfolding resolve rebuilt value encode
  resolve-rebuilt (Field.u64 i) h = refl
  resolve-rebuilt (Field.u32 i) h = refl
  resolve-rebuilt (Field.u16 i) h = refl
  resolve-rebuilt (Field.u8 i) h = refl
  resolve-rebuilt (Field.bool b) h = refl
  resolve-rebuilt (Field.bytes bp) h = refl
  resolve-rebuilt (Field.carrier []) h = refl
  resolve-rebuilt (Field.carrier (c ∷ cs)) h = ground (arith, ap copied (carrier_bytes (c ∷ cs)))
  resolve-rebuilt (Field.terminated bp terminator behind) h = absurd h
  resolve-rebuilt (Field.string s) h = refl

  -- The carrier of a terminated field shows the byte behind the terminator too, if there is one.
  pub resolve-rebuilt_terminated :
      (bp : List ℕ) (terminator : ℕ) (behind : List ℕ)
      → let f = Field.terminated bp terminator behind in
        resolve (pre ++ (encode f ++ rest)) (rebuilt (length pre) f)
        ≡ copied (encode f ++ take 1 rest)
  unfolding resolve rebuilt encode read
  resolve-rebuilt_terminated bp terminator behind =
      let found = scan terminator (memory bp terminator behind) in
      let text = found ++ terminator ∷ [] in
      let more : length found + 2 ≡ length text + 1 =
        omega (arith, length-append found (terminator ∷ [])) in
      rw (more, drop-append pre (text ++ rest)) (ap copied (take-append_more text rest 1))
