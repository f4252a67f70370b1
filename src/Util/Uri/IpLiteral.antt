-- ===== src/Util/Uri/IpLiteral.antt =====
-- util/URI.cc: URI::validate_ip_literal, validate_eth_literal. A position is what is left of the text
-- from it on.
use oasys.Base.{
  ℕ, zero, suc, ◌+◌, ◌%◌, Bool, false, not, ◌&&◌, ◌||◌, List, [], ◌∷◌, length, take, drop, leb, ltb,
  ◌==◌, if◌then◌else◌,
}
use oasys.Util.Uri.Types.{ParseErr, parse_ok, bad_ip_literal, bad_ipv6, bad_host, prefix, char_at}
use oasys.Util.Uri.Chars.{is_digit, is_hexdig, userinfo_char}
use oasys.Util.Uri.Percent.{every}
use oasys.Util.Uri.Parse.{atoi}

abbrev pub not_hexdig : ℕ → Bool
not_hexdig c = not (is_hexdig c)

abbrev pub not_digit : ℕ → Bool
not_digit c = not (is_digit c)

-- The text behind the version character.
unfoldable pub validate_ip_future : List ℕ → ParseErr
validate_ip_future s =
    let t = drop (prefix not_hexdig s) s in
    let address = drop 1 t in
    if prefix not_hexdig s == 0
    then bad_ip_literal
    else if length t == 0 || not (char_at t 0 == b'.')
    then bad_ip_literal
    else if length address == 0
    then bad_ip_literal
    else if every userinfo_char address
    then parse_ok
    else bad_ip_literal

-- How the loop over the pieces of an IPv6 address ends: with the number of pieces, whether there was
-- a double colon and, at a period, what is left from the first digit of the piece on.
pub data Scan : Type 0 where
  scan_stuck scan_bad : Scan
  scan_end : ℕ → Bool → Scan
  scan_dot : ℕ → Bool → List ℕ → Scan

unfoldable pub scan_pieces : ℕ → ℕ → Bool → Bool → List ℕ → Scan
scan_pieces zero num_pieces double_colon prev_double_colon s = scan_stuck
scan_pieces (suc fuel) num_pieces double_colon prev_double_colon s =
    let num_hexdig = prefix not_hexdig (take 4 s) in
    let t = drop num_hexdig s in
    let is_empty = num_hexdig == 0 in
    let is_first = is_empty && num_pieces == 0 in
    let more =
      scan_pieces fuel (num_pieces + 1) (double_colon || is_empty) is_empty
        (drop (if is_first then 2 else 1) t) in
    if length t == 0
    then (if is_empty
        then (if prev_double_colon then scan_end num_pieces double_colon else scan_bad)
        else scan_end (num_pieces + 1) double_colon)
    else if char_at t 0 == b':'
    then (if is_first && not (leb 2 (length t) && char_at t 1 == b':')
        then scan_bad
        else if is_empty && double_colon
        then scan_bad
        else more)
    else if char_at t 0 == b'.'
    then (if is_empty then scan_bad else scan_dot num_pieces double_colon s)
    else scan_bad

-- The decimal octets that are still due.
unfoldable pub validate_octets : ℕ → List ℕ → Bool
validate_octets zero s = length s == 0
validate_octets (suc n) s =
    let num_digit = prefix not_digit (take 3 s) in
    let t = drop num_digit s in
    let rest = validate_octets n (if n == 0 then t else drop 1 t) in
    if num_digit == 0
    then false
    else if ltb 1 num_digit && char_at s 0 == b'0'
    then false
    else if ltb 255 (atoi (take num_digit s))
    then false
    else if not (n == 0) && (length t == 0 || not (char_at t 0 == b'.'))
    then false
    else rest

-- The number of pieces that fits: at most this many with a double colon, or exactly.
unfoldable pub fits : ℕ → Bool → ℕ → Bool
fits n double_colon num_pieces =
    not (num_pieces == 0) && (if double_colon then leb num_pieces n else num_pieces == n)

unfoldable pub scan_result : Scan → ParseErr
scan_result scan_stuck = bad_ipv6
scan_result scan_bad = bad_ipv6
scan_result (scan_end n double_colon) = if fits 8 double_colon n then parse_ok else bad_ipv6
scan_result (scan_dot n double_colon s) =
    if fits 6 double_colon n && validate_octets 4 s && fits 8 double_colon (n + 2)
    then parse_ok
    else bad_ipv6

unfoldable pub validate_ipv6 : List ℕ → ParseErr
validate_ipv6 s = scan_result (scan_pieces (suc (length s)) 0 false false s)

unfoldable pub validate_ip_literal : List ℕ → ParseErr
unfolding validate_ip_future validate_ipv6
validate_ip_literal [] = bad_ip_literal
validate_ip_literal (c ∷ cs) =
    if c == b'v' || c == b'V' then validate_ip_future cs else validate_ipv6 (c ∷ cs)

unfoldable pub validate_eth_from : ℕ → List ℕ → ParseErr
validate_eth_from i [] = parse_ok
validate_eth_from i (c ∷ cs) =
    let rest = validate_eth_from (i + 1) cs in
    if (if not ((i + 1) % 3 == 0) then is_hexdig c else c == b':') then rest else bad_host

unfoldable pub validate_eth_literal : List ℕ → ParseErr
validate_eth_literal s = if not (length s == 17) then bad_host else validate_eth_from 0 s
