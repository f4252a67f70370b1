-- ===== src/Serialize/Field.antt =====
-- serialize/Serialize.h: what `serialize()` hands to an action, one call of `process` for each
-- field. An object is the list of its fields in that order; a contained object stands for its own
-- fields, since SerializeAction::process(name, object) only calls its `serialize()`.
use oasys.Base.{
  ℕ, zero, suc, ◌+◌, ◌/◌, ◌%◌, ◌^◌, ◌<◌, ◌≡◌, refl, inl, inr, Bool-cases, ap, take, length-append,
  arith, Bool, List, [], ◌∷◌, ◌++◌, length, ◌==◌, if◌then◌else◌,
}
use native.Mathlib.Numerals.{add-one}

-- A field with the value that it holds when an object is marshalled. Texts and buffers are bytes.
pub data Field : Type 0 where
  u64 u32 u16 u8 : ℕ → Field
  bool : Bool → Field
  -- A char buffer, whose length the reader knows.
  bytes : List ℕ → Field
  carrier : List ℕ → Field
  -- The carrier's memory: its bytes, the terminator, and what lies behind.
  terminated : List ℕ → ℕ → List ℕ → Field
  string : List ℕ → Field

-- The calls of `process` that the reader of such an object makes.
pub data Shape : Type 0 where
  u64 u32 u16 u8 bool carrier string : Shape
  bytes terminated : ℕ → Shape

unfoldable pub shape : Field → Shape
shape (Field.u64 i) = Shape.u64
shape (Field.u32 i) = Shape.u32
shape (Field.u16 i) = Shape.u16
shape (Field.u8 i) = Shape.u8
shape (Field.bool b) = Shape.bool
shape (Field.bytes bp) = Shape.bytes (length bp)
shape (Field.carrier bp) = Shape.carrier
shape (Field.terminated bp terminator rest) = Shape.terminated terminator
shape (Field.string s) = Shape.string

-- The wire format: `n` bytes of a number, the highest first.
unfoldable pub big_endian : ℕ → ℕ → List ℕ
big_endian zero i = []
big_endian (suc n) i = big_endian n (i / 256) ++ (i % 256) ∷ []

-- The loop over a carrier for its terminator: the bytes before the first one. A carrier that
-- holds none is read past its end, which a `terminated` field rules out.
unfoldable pub scan : ℕ → List ℕ → List ℕ
scan terminator [] = []
scan terminator (c ∷ cs) = if c == terminator then [] else c ∷ scan terminator cs

unfoldable pub memory : List ℕ → ℕ → List ℕ → List ℕ
memory bp terminator rest = bp ++ terminator ∷ rest

unfoldable pub encode : Field → List ℕ
encode (Field.u64 i) = big_endian 8 i
encode (Field.u32 i) = big_endian 4 i
encode (Field.u16 i) = big_endian 2 i
encode (Field.u8 i) = i ∷ []
encode (Field.bool b) = (if b then 1 else 0) ∷ []
encode (Field.bytes bp) = bp
encode (Field.carrier bp) = big_endian 4 (length bp) ++ bp
encode (Field.terminated bp terminator rest) =
    scan terminator (memory bp terminator rest) ++ terminator ∷ []
encode (Field.string s) = big_endian 4 (length s) ++ s

unfoldable pub encode_all : List Field → List ℕ
encode_all [] = []
encode_all (f ∷ fs) = encode f ++ encode_all fs

-- Every value is one of its C++ type, and every length fits the 32 bits that are written for it.
abbrev pub IsField : Field → Type 0
IsField (Field.u64 i) = i < 2 ^ 64
IsField (Field.u32 i) = i < 2 ^ 32
IsField (Field.u16 i) = i < 2 ^ 16
IsField (Field.u8 i) = i < 2 ^ 8
IsField (Field.bool b) = Unit
IsField (Field.bytes bp) = length bp < 2 ^ 32
IsField (Field.carrier bp) = length bp < 2 ^ 32
IsField (Field.terminated bp terminator rest) =
    length (scan terminator (memory bp terminator rest)) + 1 < 2 ^ 32
IsField (Field.string s) = length s + 4 < 2 ^ 32

abbrev pub AreFields : List Field → Type 0
AreFields [] = Unit
AreFields (f ∷ fs) = IsField f × AreFields fs

pub length-big_endian : (n i : ℕ) → length (big_endian n i) ≡ n
unfolding big_endian
length-big_endian zero i = refl
length-big_endian (suc n) i =
    omega (
      arith,
      length-append (big_endian n (i / 256)) ((i % 256) ∷ []),
      length-big_endian n (i / 256),
    )

scan_prefix :
    (bp : List ℕ) (terminator : ℕ) (rest : List ℕ)
    → take (suc (length (scan terminator (memory bp terminator rest)))) (memory bp terminator rest)
      ≡ scan terminator (memory bp terminator rest) ++ terminator ∷ []
unfolding scan memory take
scan_prefix [] terminator rest = ground arith
scan_prefix (c ∷ cs) terminator rest = elim (Bool-cases (c == terminator)) [
  | inl e ↦ rw e (ground arith)
  | inr e ↦ rw e (ap (◌∷◌ c) (scan_prefix cs terminator rest))
]

-- The loop stops at the first terminator: what it has passed, and the terminator, is the front of
-- the memory.
pub take-scan :
    (bp : List ℕ) (terminator : ℕ) (rest : List ℕ)
    → take (length (scan terminator (memory bp terminator rest)) + 1) (memory bp terminator rest)
      ≡ scan terminator (memory bp terminator rest) ++ terminator ∷ []
take-scan bp terminator rest = rw add-one (scan_prefix bp terminator rest)
