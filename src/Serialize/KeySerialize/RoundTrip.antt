-- ===== src/Serialize/KeySerialize/RoundTrip.antt =====
-- serialize/KeySerialize.cc: KeyUnmarshal on the text of a key.
use oasys.Base.{
  ℕ, ◌+◌, ◌%◌, ◌^◌, ◌<◌, ◌≡◌, Bool, true, false, List, [], ◌∷◌, ◌++◌, some, length, take, map, ◌==◌,
  if◌then◌else◌, arith, refl, ◌∙◌, ap, sym, length-append, subst,
}
use mathlib.Core.List.{append_assoc, append-nil}
use oasys.Serialize.Field.{Field, Shape, shape, scan, memory, IsField, AreFields}
use oasys.Serialize.Unmarshal.{Outcome, untouched, number, flag, copied}
use oasys.Serialize.KeySerialize.{ExpandableBuffer, key_marshal_all, hex, hex16}
use oasys.Serialize.KeySerialize.Strtoul.{strtoul, strtoul-hex, length-hex}
use oasys.Serialize.KeySerialize.Text.{
  counted_text, field_text, key_text, length-hex16, key_marshal_all-Appends,
}
use oasys.Serialize.KeySerialize.KeyUnmarshal.{
  u32_mod, KeyUnmarshal, parse_int, copy_bytes, copy_checked, get_bool, get_carrier, get_string,
  key_unmarshal, key_unmarshal_all, add_outcome,
}
use oasys.Serialize.KeySerialize.Reading.{
  strtoul-hex16, reader, parse_int-reader, at_border, get_int-reader, copy_bytes-reader,
  copy_checked-reader,
}

-- What KeyUnmarshal stores for a field: of a u_int64_t, the low half.
unfoldable pub key_outcome : Field → Outcome
key_outcome (Field.u64 i) = number (i % 2 ^ 32)
key_outcome (Field.u32 i) = number i
key_outcome (Field.u16 i) = number i
key_outcome (Field.u8 i) = number i
key_outcome (Field.bool v) = flag v
key_outcome (Field.bytes bp) = copied bp
key_outcome (Field.carrier bp) = copied bp
key_outcome (Field.terminated bp terminator rest) =
    copied (scan terminator (memory bp terminator rest) ++ terminator ∷ [])
key_outcome (Field.string s) = copied s

is_one : (v : Bool) → ((if v then 49 else 48) == 49) ≡ v
is_one true = refl
is_one false = refl

key_unmarshal_all-next :
    (s : Shape) (ss : List Shape) (u u' : KeyUnmarshal) (o : Outcome)
    → key_unmarshal s u ≡ some (o, u')
    → key_unmarshal_all (s ∷ ss) u ≡ add_outcome o (key_unmarshal_all ss u')
unfolding key_unmarshal_all
key_unmarshal_all-next s ss u u' o e = rw (key_unmarshal_all, e) refl

module _ (border : List ℕ) where
  -- The eight digits of a length, before the bytes that it counts.
  length-reader :
      (pre s rest : List ℕ)
      → length s < 2 ^ 32
      → length pre + length (counted_text s) + length (border ++ rest) < 2 ^ 32
      → parse_int 8 (reader (length border) pre (counted_text s ++ (border ++ rest))) ≡ (
        length s,
        reader (length border) (pre ++ hex 8 (length s % 2 ^ 32)) (s ++ (border ++ rest)),
      )
  length-reader pre s rest k h =
      let n = length s % 2 ^ 32 in
      let e : n ≡ length s = omega arith in
      let l = length-hex 8 n in
      let p =
        parse_int-reader (length border) pre (hex 8 n) (s ++ (border ++ rest))
          (omega (arith, h, l, length-append (hex 8 n) s, length-append s (border ++ rest))) in
      let v : strtoul (hex 8 n) ≡ length s = strtoul-hex 8 n (omega arith) (omega arith) ∙ e in
      ap (λ t. parse_int 8 (reader (length border) pre t))
        (append_assoc (hex 8 n) s (border ++ rest))
      ∙ (subst
            (λ m. parse_int m (reader (length border) pre (hex 8 n ++ (s ++ (border ++ rest)))) ≡ (
              strtoul (hex 8 n),
              reader (length border) (pre ++ hex 8 n) (s ++ (border ++ rest)),
            ))
            l p
          ∙ ap (λ m. (m, reader (length border) (pre ++ hex 8 n) (s ++ (border ++ rest)))) v)

  behind_length :
      (pre s : List ℕ) (rest : List ℕ)
      → at_border border ((pre ++ hex 8 (length s % 2 ^ 32)) ++ s) rest
        ≡ at_border border (pre ++ counted_text s) rest
  behind_length pre s rest =
      ap (λ t. at_border border t rest) (append_assoc pre (hex 8 (length s % 2 ^ 32)) s)

  get_carrier-reader :
      (store : List ℕ → Outcome) (pre s rest : List ℕ)
      → length s < 2 ^ 32
      → length pre + length (counted_text s) + length (border ++ rest) < 2 ^ 32
      → get_carrier store (reader (length border) pre (counted_text s ++ (border ++ rest)))
        ≡ some (store s, at_border border (pre ++ counted_text s) rest)
  unfolding get_carrier
  get_carrier-reader store pre s rest k h =
      let d = hex 8 (length s % 2 ^ 32) in
      let e : length s % u32_mod ≡ length s = omega arith in
      rw (length-reader pre s rest k h) (
        ap (λ m. copy_checked m store (reader (length border) (pre ++ d) (s ++ (border ++ rest)))) e
        ∙ copy_checked-reader border store (pre ++ d) s rest
            (omega (arith, h, length-append pre d, length-append d s))
        ∙ ap (λ u. some (store s, u)) (behind_length pre s rest))

  get_string-reader :
      (pre s rest : List ℕ)
      → length s < 2 ^ 32
      → length pre + length (counted_text s) + length (border ++ rest) < 2 ^ 32
      → get_string (reader (length border) pre (counted_text s ++ (border ++ rest)))
        ≡ some (copied s, at_border border (pre ++ counted_text s) rest)
  unfolding get_string
  get_string-reader pre s rest k h =
      let d = hex 8 (length s % 2 ^ 32) in
      let e : length s % u32_mod ≡ length s = omega arith in
      rw (length-reader pre s rest k h) (
        ap (λ m. copy_bytes m copied (reader (length border) (pre ++ d) (s ++ (border ++ rest)))) e
        ∙ copy_bytes-reader border copied (pre ++ d) s rest
            (omega (arith, h, length-append pre d, length-append d s))
        ∙ ap (λ u. some (copied s, u)) (behind_length pre s rest))

  get_bool-reader :
      (v : Bool) (pre rest : List ℕ)
      → length pre + 1 + length (border ++ rest) < 2 ^ 32
      → get_bool (reader (length border) pre (((if v then 49 else 48) ∷ []) ++ (border ++ rest)))
        ≡ some (flag v, at_border border (pre ++ (if v then 49 else 48) ∷ []) rest)
  unfolding get_bool copy_checked
  get_bool-reader v pre rest h =
      copy_checked-reader border (λ buf. elim buf [ [] ↦ untouched | c ∷ cs ↦ flag (c == 49) ]) pre
        ((if v then 49 else 48) ∷ []) rest h
      ∙ ap (λ x. some (flag x, at_border border (pre ++ (if v then 49 else 48) ∷ []) rest))
          (is_one v)

  key_unmarshal-reader :
      (f : Field) (pre rest : List ℕ)
      → IsField f
      → length pre + length (field_text f) + length (border ++ rest) < 2 ^ 32
      → key_unmarshal (shape f) (reader (length border) pre (field_text f ++ (border ++ rest)))
        ≡ some (key_outcome f, at_border border (pre ++ field_text f) rest)
  unfolding key_unmarshal shape field_text key_outcome
  key_unmarshal-reader (Field.u64 i) pre rest v h =
      get_int-reader border 16 (2 ^ 64) (i % 2 ^ 32) pre (hex16 i) rest (length-hex16 i)
        (rw (strtoul-hex16 i) (omega arith)) h
  key_unmarshal-reader (Field.u32 i) pre rest v h =
      get_int-reader border 8 (2 ^ 32) i pre (hex 8 i) rest (length-hex 8 i)
        (rw (strtoul-hex 8 i (omega arith) (omega arith)) (omega arith)) h
  key_unmarshal-reader (Field.u16 i) pre rest v h =
      get_int-reader border 4 (2 ^ 16) i pre (hex 4 i) rest (length-hex 4 i)
        (rw (strtoul-hex 4 i (omega arith) (omega arith)) (omega arith)) h
  key_unmarshal-reader (Field.u8 i) pre rest v h =
      get_int-reader border 2 (2 ^ 8) i pre (hex 2 i) rest (length-hex 2 i)
        (rw (strtoul-hex 2 i (omega arith) (omega arith)) (omega arith)) h
  key_unmarshal-reader (Field.bool x) pre rest v h = get_bool-reader x pre rest h
  key_unmarshal-reader (Field.bytes bp) pre rest v h =
      copy_checked-reader border copied pre bp rest h
  key_unmarshal-reader (Field.carrier bp) pre rest v h = get_carrier-reader copied pre bp rest v h
  key_unmarshal-reader (Field.terminated bp terminator behind) pre rest v h =
      get_carrier-reader (λ buf. copied (buf ++ terminator ∷ [])) pre
        (scan terminator (memory bp terminator behind)) rest (omega (arith, v)) h
  key_unmarshal-reader (Field.string s) pre rest v h =
      get_string-reader pre s rest (omega (arith, v)) h

  -- On the text that KeyMarshal writes for an object, KeyUnmarshal reads only inside of the buffer,
  -- signals no error, stops behind the text and stores the value of every field, but of a u_int64_t
  -- only its low 32 bits. The buffer is shorter than 2^32 bytes.
  pub key_unmarshal_all-key_text :
      (fs : List Field) (pre rest : List ℕ)
      → AreFields fs
      → length pre + length (key_text border fs) + length rest < 2 ^ 32
      → key_unmarshal_all (map shape fs) (reader (length border) pre (key_text border fs ++ rest))
        ≡ some (map key_outcome fs, reader (length border) (pre ++ key_text border fs) rest)
  unfolding key_unmarshal_all key_text at_border
  key_unmarshal_all-key_text [] pre rest v h = rw (append-nil pre) refl
  key_unmarshal_all-key_text (f ∷ fs) pre rest (v, vs) h =
      let n = length border in
      let t = field_text f in
      let ts = key_text border fs in
      let l = length-append (t ++ border) ts in
      let l' = length-append t border in
      let front : (t ++ border) ++ ts ++ rest ≡ t ++ (border ++ (ts ++ rest)) =
        append_assoc (t ++ border) ts rest ∙ append_assoc t border (ts ++ rest) in
      let all : (pre ++ t) ++ border ++ ts ≡ pre ++ ((t ++ border) ++ ts) =
        append_assoc (pre ++ t) border ts
        ∙ (append_assoc pre t (border ++ ts)
            ∙ ap (λ m. pre ++ m) (sym (append_assoc t border ts))) in
      let first =
        key_unmarshal-reader f pre (ts ++ rest) v
          (omega (arith, h, l, l', length-append border (ts ++ rest), length-append ts rest)) in
      let others =
        key_unmarshal_all-key_text fs ((pre ++ t) ++ border) rest vs
          (omega (arith, h, l, l', length-append (pre ++ t) border, length-append pre t)) in
      ap (λ m. key_unmarshal_all (map shape (f ∷ fs)) (reader n pre m)) front
      ∙ (key_unmarshal_all-next (shape f) (map shape fs) _ _ (key_outcome f) first
          ∙ (ap (add_outcome (key_outcome f)) others
              ∙ ap (λ m. some (map key_outcome (f ∷ fs), reader n m rest)) all))

-- KeyUnmarshal reads the fields from the buffer, from its beginning to `end`.
abbrev pub Reads : List ℕ → List Field → List ℕ → ℕ → Type 0
Reads border fs buf end =
    key_unmarshal_all (map shape fs)
      (record { error = false; buf = buf; border_len = length border; cur = 0 })
    ≡ some (
      map key_outcome fs,
      record { error = false; buf = buf; border_len = length border; cur = end },
    )

-- A key that KeyMarshal writes to an empty buffer of less than 2^32 bytes, with room for it and one
-- byte more, gives KeyUnmarshal with the same border, over the bytes that were written, the value of
-- every field, but of a u_int64_t only its low 32 bits; no assertion fails and no error is signalled.
pub key_unmarshal_all-key_marshal_all :
    (border : List ℕ) (fs : List Field) (b : ExpandableBuffer)
    → AreFields fs
    → b.len ≡ 0
    → length (key_text border fs) < length b.memory
    → length b.memory < 2 ^ 32
    → (b' : ExpandableBuffer) × (key_marshal_all border fs b ≡ some b')
      × Reads border fs (take b'.len b'.memory) b'.len
unfolding take
key_unmarshal_all-key_marshal_all border fs b v empty room small =
    let text = key_text border fs in
    let n = length border in
    let (b', e, x) = key_marshal_all-Appends border fs b (omega (arith, empty), omega arith) in
    let front : take b.len b.memory ≡ [] = ap (λ m. take m b.memory) empty in
    let written : take b'.len b'.memory ≡ text = x.content ∙ ap (λ m. m ++ text) front in
    let l : length text ≡ b'.len = omega (arith, x.longer, empty) in
    let r = key_unmarshal_all-key_text border fs [] [] v (omega arith) in
    (
      b',
      e,
      subst (λ m. Reads border fs m b'.len) (append-nil text ∙ sym written)
          (subst (Reads border fs (text ++ [])) l r),
    )
