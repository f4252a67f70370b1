-- ===== src/Util/Uri/Parse.antt =====
-- util/URI.cc: URI::clear, parse_generic_ssp, parse_authority. An assertion that can fail is `none`
-- elsewhere; those here hold of what is computed before them.
use oasys.Base.{
  ℕ, suc, ◌+◌, ◌-◌, ◌*◌, ◌%◌, ◌^◌, Bool, false, not, ◌&&◌, ◌||◌, List, [], ◌∷◌, length, drop, leb,
  ◌==◌, if◌then◌else◌,
}
use oasys.Serialize.KeySerialize.Strtoul.{skip_space}
use oasys.Util.Uri.Chars.{is_digit}
use oasys.Util.Uri.Types.{
  ParseErr, parse_ok, bad_ip_literal, bad_port, no_uri, Component, at_offset, Uri, text, prefix,
  find_or_end, char_at, is_char,
}

abbrev pub none_yet : Component
none_yet = at_offset 0 0

-- `clear(false)`.
abbrev pub cleared : Uri → Uri
cleared u = record u {
  scheme = none_yet;
  ssp = none_yet;
  authority = none_yet;
  path = none_yet;
  query = none_yet;
  fragment = none_yet;
  userinfo = none_yet;
  host = none_yet;
  port = none_yet;
  port_num = 0;
  parse_err = no_uri;
}

unfoldable pub authority_stop : ℕ → Bool
authority_stop c = c == b'/' || c == b'?' || c == b'#'

unfoldable pub path_stop : ℕ → Bool
path_stop c = c == b'?' || c == b'#'

-- Where each component of the scheme-specific part ends.
unfoldable pub authority_end : List ℕ → Component → ℕ
authority_end s ssp =
    if leb 2 ssp.length && char_at s ssp.offset == b'/' && char_at s (ssp.offset + 1) == b'/'
    then find_or_end authority_stop s (ssp.offset + 2)
    else ssp.offset

unfoldable pub path_end : List ℕ → ℕ → ℕ
path_end s pos = if pos == length s then pos else find_or_end path_stop s pos

unfoldable pub query_end : List ℕ → ℕ → ℕ
query_end s pos =
    if not (pos == length s) && char_at s pos == b'?' then find_or_end (is_char b'#') s pos else pos

unfoldable pub fragment_end : List ℕ → ℕ → ℕ
fragment_end s pos = if not (pos == length s) && char_at s pos == b'#' then length s else pos

unfoldable pub parse_generic_ssp : Uri → Uri
parse_generic_ssp u =
    let o = u.ssp.offset in
    let a = authority_end u.uri u.ssp in
    let p = path_end u.uri a in
    let q = query_end u.uri p in
    let f = fragment_end u.uri q in
    if u.ssp.length == 0
    then record u {
      authority = u.ssp;
      path = u.ssp;
      query = u.ssp;
      fragment = u.ssp;
      userinfo = u.ssp;
      host = u.ssp;
      port = u.ssp;
    }
    else record u {
      authority = at_offset o (a - o);
      path = at_offset a (p - a);
      query = at_offset p (q - p);
      fragment = at_offset q (f - q);
    }

-- The C library's `atoi`, as an unsigned int. For a number that no int holds, which C leaves open, it is
-- the remainder by 2 ^ 32.
unfoldable pub atoi_from : ℕ → List ℕ → ℕ
atoi_from n [] = n
atoi_from n (c ∷ cs) =
    let rest = atoi_from (n * 10 + (c - b'0')) cs in if is_digit c then rest else n

unfoldable pub atoi_signed : List ℕ → ℕ
atoi_signed [] = 0
atoi_signed (c ∷ cs) =
    if c == b'-'
    then (2 ^ 32 - atoi_from 0 cs % 2 ^ 32) % 2 ^ 32
    else if c == b'+'
    then atoi_from 0 cs % 2 ^ 32
    else atoi_from 0 (c ∷ cs) % 2 ^ 32

unfoldable pub atoi : List ℕ → ℕ
unfolding atoi_signed
atoi s = atoi_signed (skip_space s)

unfoldable pub is_eth : List ℕ → Bool
is_eth (e ∷ t ∷ h ∷ []) = e == b'e' && t == b't' && h == b'h'
is_eth s = false

-- The authority from the position after its userinfo on: the host's end, counted from there.
unfoldable pub host_end : Bool → List ℕ → ℕ
host_end eth [] = 0
host_end eth (c ∷ cs) =
    if c == b'['
    then suc (prefix (is_char b']') (c ∷ cs))
    else if eth
    then length (c ∷ cs)
    else prefix (is_char b':') (c ∷ cs)

-- The rest of `parse_authority` behind the userinfo: `rest` is what is left of the authority, which
-- starts at `o` in the URI.
unfoldable pub parse_host : ℕ → List ℕ → Uri → ParseErr × Uri
parse_host o rest u =
    let n = host_end (is_eth (text u.uri u.scheme)) rest in
    let tail = drop n rest in
    let u' : Uri = record u { host = at_offset o n } in
    if not (leb n (length rest))
    then (bad_ip_literal, u)
    else if length tail == 0
    then (parse_ok, record u' { port = at_offset (o + n) 0 })
    else if not (char_at tail 0 == b':')
    then (bad_port, u')
    else (
      parse_ok,
      record u' {
        port = at_offset (o + n + 1) (length tail - 1);
        port_num = if length tail - 1 == 0 then u.port_num else atoi (drop 1 tail);
      },
    )

unfoldable pub parse_authority : Uri → ParseErr × Uri
parse_authority u =
    let o = u.authority.offset + 2 in
    let rest = drop 2 (text u.uri u.authority) in
    let n = prefix (is_char b'@') rest in
    let k = if n == length rest then 0 else n + 1 in
    if u.authority.length == 0
    then (parse_ok, record u { userinfo = u.authority; host = u.authority; port = u.authority })
    else parse_host (o + k) (drop k rest) (record u { userinfo = at_offset o k })
