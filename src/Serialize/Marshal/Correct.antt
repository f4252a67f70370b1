-- ===== src/Serialize/Marshal/Correct.antt =====
-- Marshal appends the wire format of the fields, and MarshalSize measures it.
use oasys.Base.{
  ℕ, ◌+◌, ◌%◌, ◌^◌, ◌<◌, ◌≤◌, length-take, take_self, ◌≡◌, refl, sym, inr, ap, ◌∙◌, false, List, [],
  ◌∷◌, ◌++◌, length, take, drop, take_all, length-drop, ◌-◌, arith, length-append,
}
use mathlib.Core.List.{append-nil}
use oasys.Base.Bits.{bit_and-byte}
use oasys.Serialize.Buffer.{BufferedSerializeAction}
use oasys.Serialize.Field.{
  Field, big_endian, scan, memory, encode, encode_all, IsField, AreFields, length-big_endian,
  take-scan,
}
use oasys.Serialize.Marshal.{
  u32_mod, u64_bytes, u32_bytes, u16_bytes, put, marshal_bytes, marshal_u32, marshal, marshal_all,
  get_size, marshal_size,
}
use oasys.Serialize.Marshal.Room.{
  Fits, Appends, Appends-put, Appends-trans, Fits-Appends, Fits-mono,
}

pub u32_bytes-big_endian : (i : ℕ) → i < 2 ^ 32 → u32_bytes i ≡ big_endian 4 i
unfolding u32_bytes big_endian
u32_bytes-big_endian i h = simp bit_and-byte (ground arith)

u16_bytes-big_endian : (i : ℕ) → i < 2 ^ 16 → u16_bytes i ≡ big_endian 2 i
unfolding u16_bytes big_endian
u16_bytes-big_endian i h = simp bit_and-byte (ground arith)

u64_bytes-big_endian : (i : ℕ) → i < 2 ^ 64 → u64_bytes i ≡ big_endian 8 i
unfolding u64_bytes big_endian
u64_bytes-big_endian i h = simp bit_and-byte (ground arith)

-- A length below 2 ^ 32 survives the conversion to u_int32_t.
take_u32 : (n : ℕ) (bp : List ℕ) → n < 2 ^ 32 → take (n % u32_mod) bp ≡ take n bp
take_u32 n bp h = ap (λ k. take k bp) (omega arith)

module _ (a : BufferedSerializeAction) (ok : a.error ≡ false) where
  -- The stores of a number are its wire format.
  pub put_number-Appends :
      (n i : ℕ) (bytes : List ℕ)
      → bytes ≡ big_endian n i
      → Fits a (length (big_endian n i))
      → Appends a (big_endian n i) (put n bytes a)
  put_number-Appends n i bytes e fits = rw e (
      Appends-put n (big_endian n i) a (length-big_endian n i) ok
        (rw (length-big_endian n i) at fits))

  -- `len` bytes from the front of the memory at `bp`.
  marshal_bytes-Appends :
      (bp : List ℕ) (len : ℕ)
      → len < 2 ^ 32
      → len ≤ length bp
      → Fits a len
      → Appends a (take len bp) (marshal_bytes bp len a)
  unfolding marshal_bytes
  marshal_bytes-Appends bp len h inside fits =
      let e : len % u32_mod ≡ len = omega arith in
      rw e (Appends-put len (take len bp) a (omega (arith, length-take len bp)) ok fits)

  -- A text or a carrier: the length, and as many bytes.
  counted-Appends :
      (bp : List ℕ)
      → length bp < 2 ^ 32
      → Fits a (length (big_endian 4 (length bp) ++ bp))
      → Appends a
          (big_endian 4 (length bp) ++ bp)
          (put (length bp) (take (length bp) bp) (put 4 (u32_bytes (length bp)) a))
  counted-Appends bp h fits =
      let fits' : Fits a (length (big_endian 4 (length bp)) + length bp) =
        rw length-append at fits in
      let p =
        put_number-Appends 4 (length bp) (u32_bytes (length bp))
          (u32_bytes-big_endian (length bp) h) (Fits-mono _ _ (omega arith) fits') in
      rw (take_self bp)
        (Appends-trans p (Appends-put (length bp) bp _ refl p.no_error (Fits-Appends _ p fits')))

terminated-Appends :
    (bp : List ℕ) (terminator : ℕ) (rest : List ℕ) (a : BufferedSerializeAction)
    → IsField (Field.terminated bp terminator rest)
    → a.error ≡ false
    → Fits a (length (scan terminator (memory bp terminator rest) ++ terminator ∷ []))
    → Appends a
        (scan terminator (memory bp terminator rest) ++ terminator ∷ [])
        (marshal (Field.terminated bp terminator rest) a)
unfolding marshal
terminated-Appends bp terminator rest a h ok fits =
    let m = memory bp terminator rest in
    let found = scan terminator m in
    let n = length found + 1 in
    let e = take-scan bp terminator rest in
    let inside : n ≤ length m =
      omega (arith, ap length e, length-take n m, length-append found (terminator ∷ [])) in
    let fits' : Fits a n =
      Fits-mono _ _ (omega (arith, length-append found (terminator ∷ []))) fits in
    rw (← e) (marshal_bytes-Appends a ok m n h inside fits')

pub marshal-Appends :
    (f : Field) (a : BufferedSerializeAction)
    → IsField f
    → a.error ≡ false
    → Fits a (length (encode f))
    → Appends a (encode f) (marshal f a)
unfolding marshal encode marshal_bytes marshal_u32
marshal-Appends (Field.u64 i) a h ok fits =
    put_number-Appends a ok 8 i (u64_bytes i) (u64_bytes-big_endian i h) fits
marshal-Appends (Field.u32 i) a h ok fits =
    put_number-Appends a ok 4 i (u32_bytes i) (u32_bytes-big_endian i h) fits
marshal-Appends (Field.u16 i) a h ok fits =
    put_number-Appends a ok 2 i (u16_bytes i) (u16_bytes-big_endian i h) fits
marshal-Appends (Field.u8 i) a h ok fits = Appends-put 1 (i ∷ []) a refl ok fits
marshal-Appends (Field.bool b) a h ok fits = Appends-put 1 _ a refl ok fits
marshal-Appends (Field.bytes bp) a h ok fits =
    rw take_self at (marshal_bytes-Appends a ok bp (length bp) h (omega arith) fits)
marshal-Appends (Field.carrier bp) a h ok fits =
    let e : length bp % u32_mod ≡ length bp = omega arith in rw e (counted-Appends a ok bp h fits)
marshal-Appends (Field.terminated bp terminator rest) a h ok fits =
    terminated-Appends bp terminator rest a h ok fits
marshal-Appends (Field.string s) a h ok fits =
    let e : length s % u32_mod ≡ length s = omega arith in
    rw e (counted-Appends a ok s (omega arith) fits)

-- An object that fits is written whole, in the wire format, behind what the buffer held; no error
-- is signalled, a fixed buffer keeps its size, and what the memory held behind is unchanged.
pub marshal_all-Appends :
    (fs : List Field) (a : BufferedSerializeAction)
    → AreFields fs
    → a.error ≡ false
    → Fits a (length (encode_all fs))
    → Appends a (encode_all fs) (marshal_all fs a)
unfolding marshal_all encode_all
marshal_all-Appends [] a h ok fits = record {
  no_error = ok;
  mode = refl;
  offset = omega arith;
  within = fits.within;
  size = inr refl;
  content = sym (append-nil (take a.offset a.buf));
  grown = omega arith;
  behind =
      take_all (length a.buf - a.offset) (drop a.offset a.buf)
        (omega (arith, length-drop a.offset a.buf));
}
marshal_all-Appends (f ∷ fs) a h ok fits =
    let fits' = rw (length-append (encode f) (encode_all fs)) at fits in
    let p = marshal-Appends f a h.0 ok (Fits-mono _ _ (omega arith) fits') in
    Appends-trans p (marshal_all-Appends fs (marshal f a) h.1 p.no_error (Fits-Appends _ p fits'))

get_size-encode : (f : Field) → IsField f → get_size f ≡ length (encode f)
unfolding get_size encode
get_size-encode (Field.u64 i) h = sym (length-big_endian 8 i)
get_size-encode (Field.u32 i) h = sym (length-big_endian 4 i)
get_size-encode (Field.u16 i) h = sym (length-big_endian 2 i)
get_size-encode (Field.u8 i) h = refl
get_size-encode (Field.bool b) h = refl
get_size-encode (Field.bytes bp) h = omega arith
get_size-encode (Field.carrier bp) h =
    omega (arith, length-append (big_endian 4 (length bp)) bp, length-big_endian 4 (length bp))
get_size-encode (Field.terminated bp terminator rest) h =
    omega (arith, length-append (scan terminator (memory bp terminator rest)) (terminator ∷ []))
get_size-encode (Field.string s) h =
    omega (arith, length-append (big_endian 4 (length s)) s, length-big_endian 4 (length s))

marshal_size-add :
    (fs : List Field) (size : ℕ)
    → AreFields fs
    → size + length (encode_all fs) < 2 ^ 64
    → marshal_size fs size ≡ size + length (encode_all fs)
unfolding marshal_size encode_all
marshal_size-add [] size h fits = omega arith
marshal_size-add (f ∷ fs) size h fits =
    let total = length-append (encode f) (encode_all fs) in
    let e : (size + get_size f) % 2 ^ 64 ≡ size + length (encode f) =
      omega (arith, total, get_size-encode f h.0) in
    rw e (
      marshal_size-add fs (size + length (encode f)) h.1 (omega (arith, total))
      ∙ omega (arith, total))

-- The size that MarshalSize finds is the number of bytes that Marshal writes into a buffer with
-- room for the object.
pub marshal_size-marshal_all :
    (fs : List Field) (a : BufferedSerializeAction)
    → AreFields fs
    → a.error ≡ false
    → Fits a (length (encode_all fs))
    → (marshal_all fs a).offset ≡ a.offset + marshal_size fs 0
marshal_size-marshal_all fs a h ok fits =
    omega
      (arith, (marshal_all-Appends fs a h ok fits).offset, marshal_size-add fs 0 h (omega arith))
