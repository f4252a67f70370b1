-- ===== src/Serialize/Unmarshal.antt =====
-- serialize/MarshalSerialize.cc: Unmarshal, a clause for each `process`. The options are 0: the
-- checksum of USE_CRC is not modelled. Logging is left out.
pub mod Reading
pub mod Until
use Prim.Native.Nat.{bit_or}
use oasys.Base.{
  ℕ, zero, suc, ◌+◌, ◌*◌, ◌^◌, Bool, true, false, not, List, [], ◌∷◌, Option, none, some, length,
  ◌==◌, if◌then◌else◌,
}
use oasys.Serialize.Buffer.{BufferedSerializeAction, next_slice, read}
use oasys.Serialize.Field.{Shape}

-- What the variable that `process` was handed holds afterwards.
pub data Outcome : Type 0 where
  -- It was returned from before a store.
  untouched : Outcome
  number : ℕ → Outcome
  flag : Bool → Outcome
  -- A text or a char buffer with a copy of these bytes.
  copied : List ℕ → Outcome
  -- A carrier that does not own its buffer: where it points to in the buffer that is read, NULL
  -- for `none`, and its length.
  carried : Option ℕ → ℕ → Outcome

-- The byte at `i` of the slice, shifted left by `k`.
abbrev shifted : List ℕ → ℕ → ℕ → ℕ
shifted [] i k = 0
shifted (c ∷ cs) zero k = c * 2 ^ k
shifted (c ∷ cs) (suc i) k = shifted cs i k

infixl 60 ◌∣◌
abbrev ◌∣◌ : ℕ → ℕ → ℕ
a ∣ b = bit_or a b

unfoldable pub u64_value : List ℕ → ℕ
u64_value buf =
    shifted buf 0 56
    ∣ shifted buf 1 48
    ∣ shifted buf 2 40
    ∣ shifted buf 3 32
    ∣ shifted buf 4 24
    ∣ shifted buf 5 16
    ∣ shifted buf 6 8
    ∣ shifted buf 7 0

unfoldable pub u32_value : List ℕ → ℕ
u32_value buf = shifted buf 0 24 ∣ shifted buf 1 16 ∣ shifted buf 2 8 ∣ shifted buf 3 0

unfoldable pub u16_value : List ℕ → ℕ
u16_value buf = shifted buf 0 8 ∣ shifted buf 1 0

unfoldable pub first_byte : List ℕ → ℕ
first_byte buf = shifted buf 0 0

-- `if (buf == NULL) return;`, and otherwise a store of what `value` makes of the slice.
unfoldable pub stored : ℕ → (List ℕ → Outcome) → Option ℕ → List ℕ → Outcome
stored len value none buf = untouched
stored len value (some start) buf = value (read start len buf)

unfoldable pub load :
    ℕ → (List ℕ → Outcome) → BufferedSerializeAction → Outcome × BufferedSerializeAction
unfolding stored
load len value a = let (slot, a') = next_slice len a in (stored len value slot a'.buf, a')

-- The `u_int32_t len` of a carrier or a text, which stays uninitialised where its read returns.
unfoldable pub length_or : ℕ → Outcome → ℕ
length_or junk (number n) = n
length_or junk _ = junk

unfoldable pub unmarshal_u32 : BufferedSerializeAction → Outcome × BufferedSerializeAction
unmarshal_u32 = load 4 (λ buf. number (u32_value buf))

-- process(name, carrier). `junk` is what the uninitialised `len` holds.
unfoldable pub unmarshal_carrier : ℕ → BufferedSerializeAction → Outcome × BufferedSerializeAction
unmarshal_carrier junk a =
    let (got, a') = unmarshal_u32 a in
    let len = length_or junk got in
    let (slot, a'') = next_slice len a' in
    if len == 0 then (carried none 0, a') else (carried slot len, a'')

-- process(name, s) for a text.
unfoldable pub unmarshal_string : ℕ → BufferedSerializeAction → Outcome × BufferedSerializeAction
unmarshal_string junk a = let (got, a') = unmarshal_u32 a in load (length_or junk got) copied a'

-- `if (cbuf == 0) cbuf = c;`.
abbrev pub started : Option ℕ → ℕ → Option ℕ
started none c = some c
started (some first) c = some first

-- A round of the loop of process(name, carrier, terminator), given the slice of one byte: a read
-- that fails signals the error again and leaves the carrier as it was. `len` counts the bytes read
-- before, and the carrier is given one more than are read with this one.
unfoldable pub until_round :
    ℕ
    → Option ℕ
    → ℕ
    → Option ℕ
    → BufferedSerializeAction
    → (Option ℕ → Outcome × BufferedSerializeAction)
    → Outcome × BufferedSerializeAction
until_round terminator cbuf len none a again = (untouched, record a { error = true })
until_round terminator cbuf len (some c) a again =
    let first = started cbuf c in
    let rest = again first in
    if first_byte (read c 1 a.buf) == terminator then (carried first (len + 1 + 1), a) else rest

-- The `do … while (*c != terminator)`: a byte a round, so fuel above the bytes that are left is
-- enough.
unfoldable pub unmarshal_until :
    ℕ → ℕ → Option ℕ → ℕ → BufferedSerializeAction → Outcome × BufferedSerializeAction
unfolding until_round
unmarshal_until zero terminator cbuf len a = (untouched, a)
unmarshal_until (suc fuel) terminator cbuf len a =
    let (slot, a') = next_slice 1 a in
    until_round terminator cbuf len slot a'
      (λ first. unmarshal_until fuel terminator first (len + 1) a')

-- Unmarshal::process; a buffer of `n` bytes cannot hold more rounds of the loop than that.
unfoldable pub unmarshal : ℕ → Shape → BufferedSerializeAction → Outcome × BufferedSerializeAction
unmarshal junk Shape.u64 a = load 8 (λ buf. number (u64_value buf)) a
unmarshal junk Shape.u32 a = unmarshal_u32 a
unmarshal junk Shape.u16 a = load 2 (λ buf. number (u16_value buf)) a
unmarshal junk Shape.u8 a = load 1 (λ buf. number (first_byte buf)) a
unmarshal junk Shape.bool a = load 1 (λ buf. flag (not (first_byte buf == 0))) a
unmarshal junk Shape.carrier a = unmarshal_carrier junk a
unmarshal junk Shape.string a = unmarshal_string junk a
unmarshal junk (Shape.bytes len) a = load len copied a
unmarshal junk (Shape.terminated terminator) a =
    unmarshal_until (length a.buf + 1) terminator none 0 a

unfoldable pub unmarshal_all :
    ℕ → List Shape → BufferedSerializeAction → List Outcome × BufferedSerializeAction
unmarshal_all junk [] a = ([], a)
unmarshal_all junk (s ∷ ss) a =
    let (outcome, a') = unmarshal junk s a in
    let (outcomes, a'') = unmarshal_all junk ss a' in (outcome ∷ outcomes, a'')
