-- ===== src/Serialize/KeySerialize/KeyUnmarshal.antt =====
-- serialize/KeySerialize.cc: KeyUnmarshal. The lengths and the position are unsigned ints of 32
-- bits. A read past the buffer is `none`. `endptr == &buf_[cur_]` compares with another buffer than
-- the one that was parsed, so it never holds and has no clause here.
use oasys.Base.{
  ℕ, ◌+◌, ◌%◌, ◌^◌, Bool, true, List, [], ◌∷◌, ◌++◌, Option, none, some, length, take, drop, ltb,
  leb, ◌==◌, if◌then◌else◌,
}
use oasys.Serialize.Field.{Shape}
use oasys.Serialize.Unmarshal.{Outcome, untouched, number, flag, copied}
use oasys.Serialize.KeySerialize.Strtoul.{strtoul}

abbrev pub u32_mod : ℕ
u32_mod = 2 ^ 32

pub record KeyUnmarshal : Type 0 where
  pub error : Bool
  pub buf : List ℕ
  pub border_len : ℕ
  pub cur : ℕ

abbrev pub skip_border : KeyUnmarshal → KeyUnmarshal
skip_border u = record u { cur = (u.cur + u.border_len) % u32_mod }

-- KeyUnmarshal::process_int and process_int64.
unfoldable pub parse_int : ℕ → KeyUnmarshal → ℕ × KeyUnmarshal
parse_int size u =
    if ltb (length u.buf) ((u.cur + size) % u32_mod)
    then (0, record u { error = true })
    else (strtoul (take size (drop u.cur u.buf)), record u { cur = (u.cur + size) % u32_mod })

abbrev pub Result : Type 0
Result = Option (Outcome × KeyUnmarshal)

-- `*i = val` for a type with values below `mod`.
unfoldable pub get_int : ℕ → ℕ → KeyUnmarshal → Result
get_int size modulus u =
    let (val, u') = parse_int size u in
    some (if u'.error then untouched else number (val % modulus), skip_border u')

-- `len` bytes are copied from the position on.
unfoldable pub copy_bytes : ℕ → (List ℕ → Outcome) → KeyUnmarshal → Result
copy_bytes len store u =
    if leb (u.cur + len) (length u.buf)
    then some (
      store (take len (drop u.cur u.buf)),
      skip_border (record u { cur = (u.cur + len) % u32_mod }),
    )
    else none

-- The check before the copy.
unfoldable pub copy_checked : ℕ → (List ℕ → Outcome) → KeyUnmarshal → Result
copy_checked len store u =
    if ltb (length u.buf) ((u.cur + len) % u32_mod)
    then some (untouched, record u { error = true })
    else copy_bytes len store u

unfoldable pub get_bool : KeyUnmarshal → Result
get_bool u =
    if ltb (length u.buf) ((u.cur + 1) % u32_mod)
    then some (untouched, record u { error = true })
    else copy_bytes 1 (λ buf. elim buf [ [] ↦ untouched | c ∷ cs ↦ flag (c == 49) ]) u

unfoldable pub get_carrier : (List ℕ → Outcome) → KeyUnmarshal → Result
get_carrier store u = let (len, u') = parse_int 8 u in copy_checked (len % u32_mod) store u'

unfoldable pub get_string : KeyUnmarshal → Result
get_string u =
    let (len, u') = parse_int 8 u in
    if u'.error then some (untouched, u') else copy_bytes (len % u32_mod) copied u'

-- The calls that look at the error flag first.
abbrev pub unless_error : KeyUnmarshal → Result → Result
unless_error u r = if u.error then some (untouched, u) else r

-- KeyUnmarshal::process. The carriers get memory of their own with a copy of the bytes, behind which
-- one of them also has its terminator.
unfoldable pub key_unmarshal : Shape → KeyUnmarshal → Result
key_unmarshal Shape.u64 u = get_int 16 (2 ^ 64) u
key_unmarshal Shape.u32 u = get_int 8 (2 ^ 32) u
key_unmarshal Shape.u16 u = get_int 4 (2 ^ 16) u
key_unmarshal Shape.u8 u = get_int 2 (2 ^ 8) u
key_unmarshal Shape.bool u = unless_error u (get_bool u)
key_unmarshal (Shape.bytes len) u = unless_error u (copy_checked len copied u)
key_unmarshal Shape.carrier u = unless_error u (get_carrier copied u)
key_unmarshal (Shape.terminated terminator) u =
    unless_error u (get_carrier (λ buf. copied (buf ++ terminator ∷ [])) u)
key_unmarshal Shape.string u = unless_error u (get_string u)

abbrev pub add_outcome :
    Outcome → Option (List Outcome × KeyUnmarshal) → Option (List Outcome × KeyUnmarshal)
add_outcome o none = none
add_outcome o (some (os, u)) = some (o ∷ os, u)

unfoldable pub key_unmarshal_all : List Shape → KeyUnmarshal → Option (List Outcome × KeyUnmarshal)
key_unmarshal_all [] u = some ([], u)
key_unmarshal_all (s ∷ ss) u = elim (key_unmarshal s u) [
  | none ↦ none
  | some (o, u') ↦ add_outcome o (key_unmarshal_all ss u')
]
