-- ===== src/Util/Uri/Percent.antt =====
-- util/URI.cc: the loops over a component's text that validate_userinfo, validate_host, validate_path,
-- validate_query and validate_fragment share, and those that decode_authority, decode_path,
-- decode_query and decode_fragment share. The characters that a component allows are a parameter.
use oasys.Base.{
  ℕ, ◌+◌, ◌-◌, ◌*◌, ◌%◌, Bool, true, false, not, ◌&&◌, ◌||◌, List, [], ◌∷◌, ◌++◌, Option, none,
  some, ◌==◌, if◌then◌else◌,
}
use oasys.Serialize.KeySerialize.Strtoul.{is_space}
use oasys.Util.Uri.Types.{ParseErr, parse_ok, bad_percent}
use oasys.Util.Uri.Chars.{is_digit, is_lower, is_hexdig, to_upper}

unfoldable pub every : (ℕ → Bool) → List ℕ → Bool
every p [] = true
every p (c ∷ cs) = let rest = every p cs in p c && rest

-- The state of the loops between two characters: behind a '%' two digits are due, then one. The
-- source looks at both when it meets the '%'; too few characters and a wrong one are one error.
pub data Pending : Type 0 where
  no_percent : Pending
  after_percent : Pending
  after_digit : ℕ → Pending

abbrev pub next : ℕ → Pending
next c = if c == b'%' then after_percent else no_percent

unfoldable pub check_text : (ℕ → Bool) → ParseErr → Pending → List ℕ → ParseErr
check_text ok bad no_percent [] = parse_ok
check_text ok bad after_percent [] = bad_percent
check_text ok bad (after_digit a) [] = bad_percent
check_text ok bad no_percent (c ∷ cs) =
    let rest = check_text ok bad (if ok c then no_percent else after_percent) cs in
    if ok c || c == b'%' then rest else bad
check_text ok bad after_percent (c ∷ cs) =
    let rest = check_text ok bad (after_digit c) cs in if is_hexdig c then rest else bad_percent
check_text ok bad (after_digit a) (c ∷ cs) =
    let rest = check_text ok bad no_percent cs in if is_hexdig c then rest else bad_percent

-- The value of a hexadecimal digit.
unfoldable pub hex_digit : ℕ → ℕ
unfolding is_digit is_lower
hex_digit c = if is_digit c then c - 48 else if is_lower c then c - 87 else c - 55

abbrev pub hex_value : ℕ → ℕ → ℕ
hex_value a b = hex_digit a * 16 + hex_digit b

-- The char of what `sscanf("%x")` stores for the two characters: it skips a white space, takes a sign, and
-- stops in front of a character that is no digit. `none` where it stores nothing, which leaves the
-- variable unset; so does a prefix "0x" without a digit, by the C standard.
unfoldable pub scan_hex : ℕ → ℕ → Option ℕ
scan_hex a b =
    if is_space a || a == b'+'
    then (if is_hexdig b then some (hex_digit b) else none)
    else if a == b'-'
    then (if is_hexdig b then some ((256 - hex_digit b) % 256) else none)
    else if not (is_hexdig a) || a == b'0' && (b == b'x' || b == b'X')
    then none
    else if is_hexdig b
    then some (hex_value a b)
    else some (hex_digit a)

-- What is appended for a percent-encoded character `v`.
unfoldable pub decode_char : (ℕ → Bool) → ℕ → ℕ → ℕ → List ℕ
decode_char ok v a b = if ok v then v ∷ [] else b'%' ∷ to_upper a ∷ to_upper b ∷ []

abbrev pub prepend : List ℕ → Option (List ℕ) → Option (List ℕ)
prepend s none = none
prepend s (some t) = some (s ++ t)

unfoldable pub has_percent : List ℕ → Bool
has_percent [] = false
has_percent (c ∷ cs) = let rest = has_percent cs in c == b'%' || rest

-- With what `sscanf` has stored, before what the later characters give.
unfoldable pub decode_scanned : (ℕ → Bool) → ℕ → ℕ → Option ℕ → Option (List ℕ) → Option (List ℕ)
decode_scanned ok a b none rest = none
decode_scanned ok a b (some v) rest = prepend (decode_char ok v a b) rest

-- `none` where an assertion fails, or where a variable is read that `sscanf` has not set.
unfoldable pub decode_text : (ℕ → Bool) → Pending → List ℕ → Option (List ℕ)
decode_text ok no_percent [] = some []
decode_text ok after_percent [] = none
decode_text ok (after_digit a) [] = none
decode_text ok no_percent (c ∷ cs) =
    let rest = decode_text ok (next c) cs in if c == b'%' then rest else prepend (c ∷ []) rest
decode_text ok after_percent (c ∷ cs) = decode_text ok (after_digit c) cs
decode_text ok (after_digit a) (c ∷ cs) =
    decode_scanned ok a c (scan_hex a c) (decode_text ok no_percent cs)
