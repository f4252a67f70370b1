-- ===== src/Util/Uri/Normalize.antt =====
-- util/URI.cc: URI::normalize and what it calls, parse, set_ssp, subsume, query_value.
use oasys.Base.{
  ℕ, zero, suc, ◌+◌, ◌-◌, Bool, true, false, not, ◌&&◌, ◌||◌, List, [], ◌∷◌, Option, none, some,
  length, ltb, ◌==◌, if◌then◌else◌, ◌>>=◌, ◌>>◌, assert,
}
use oasys.Util.Uri.Types.{
  parse_ok, no_uri, no_sep, bad_scheme, Component, at_offset, Uri, text, prefix, char_at, is_char,
  is_ok,
}
use oasys.Util.Uri.Chars.{to_lower, userinfo_char, host_char, path_decoded, query_char}
use oasys.Util.Uri.Parse.{cleared, parse_generic_ssp, parse_authority}
use oasys.Util.Uri.Percent.{no_percent, decode_text, has_percent}
use oasys.Util.Uri.Validate.{validate}
use oasys.Util.Uri.Setters.{splice, set_userinfo, set_host, set_path, set_query, set_fragment}
use oasys.Util.Uri.Dots.{resolve_dots, resolve_last}

unfoldable pub lower : List ℕ → List ℕ
lower [] = []
lower (c ∷ cs) = to_lower c ∷ lower cs

unfoldable pub normalize_scheme : Uri → Uri
normalize_scheme u = record u { uri = splice u.uri u.scheme (lower (text u.uri u.scheme)) }

-- A component is set only where a character is percent-encoded.
abbrev pub decode_with : (ℕ → Bool) → (List ℕ → Uri → Option Uri) → Component → Uri → Option Uri
decode_with ok set c u =
    if has_percent (text u.uri c)
    then (do t ← decode_text ok no_percent (text u.uri c); set t u)
    else some u

unfoldable pub decode_authority : Uri → Option Uri
decode_authority u = do
  v ← decode_with userinfo_char set_userinfo u.userinfo u
  decode_with host_char set_host v.host v

unfoldable pub decode_path : Uri → Option Uri
decode_path u = decode_with path_decoded set_path u.path u

unfoldable pub decode_query : Uri → Option Uri
decode_query u = decode_with query_char set_query u.query u

unfoldable pub decode_fragment : Uri → Option Uri
decode_fragment u = decode_with query_char set_fragment u.fragment u

-- The host in lower case but for the characters behind a '%': how many of them are to be skipped.
unfoldable pub lower_host : ℕ → List ℕ → List ℕ
lower_host skip [] = []
lower_host zero (c ∷ cs) =
    let rest = lower_host (if c == b'%' then 2 else 0) cs in
    (if c == b'%' then c else to_lower c) ∷ rest
lower_host (suc skip) (c ∷ cs) = c ∷ lower_host skip cs

unfoldable pub normalize_authority : Uri → Option Uri
normalize_authority u = do
  v ← decode_authority u
  some (record v { uri = splice v.uri v.host (lower_host 0 (text v.uri v.host)) })

unfoldable pub normalize_path : Uri → Option Uri
normalize_path u = do
  v ← decode_path u
  let path = text v.uri v.path
  resolved ← resolve_dots (suc (length path)) 0 false path
  let (modified, path') = resolve_last resolved
  if modified then set_path path' v else some v

unfoldable pub normalize : Uri → Option Uri
normalize u = do
  v ← normalize_authority (normalize_scheme u)
  w ← normalize_path v
  x ← decode_query w
  decode_fragment x

-- The part of `parse` behind the two parsers.
unfoldable pub finish : Uri → Option Uri
finish u =
    if u.validate && not (is_ok (validate u))
    then some (record u { parse_err = validate u })
    else if u.normalize
    then normalize u
    else some u

unfoldable pub parse : Uri → Option Uri
parse u =
    let n = prefix (is_char b':') u.uri in
    let v : Uri = record (cleared u) {
      scheme = at_offset 0 n;
      ssp = at_offset (n + 1) (length u.uri - (n + 1));
    } in
    let (err, w) = parse_authority (parse_generic_ssp v) in
    if length u.uri == 0
    then some (record (cleared u) { parse_err = no_uri })
    else if n == length u.uri
    then some (record (cleared u) { parse_err = no_sep })
    else if n == 0
    then some (record (cleared u) { parse_err = bad_scheme })
    else if not (is_ok err)
    then some (record w { parse_err = err })
    else finish (record w { parse_err = parse_ok })

unfoldable pub set_ssp : List ℕ → Uri → Option Uri
set_ssp t u = do assert (is_ok u.parse_err); parse (record u { uri = splice u.uri u.ssp t })

unfoldable pub is_prefix : List ℕ → List ℕ → Bool
is_prefix [] s = true
is_prefix (c ∷ cs) [] = false
is_prefix (c ∷ cs) (d ∷ s) = let rest = is_prefix cs s in c == d && rest

abbrev pub is_boundary : ℕ → Bool
is_boundary c = c == b'/' || c == b'?' || c == b'#'

unfoldable pub subsume : Uri → Uri → Bool
subsume u other =
    let n = length other.uri in
    if not (is_ok u.parse_err) || not (is_ok other.parse_err)
    then false
    else if not (is_prefix other.uri u.uri)
    then false
    else if ltb n (length u.uri)
    then is_boundary (char_at u.uri n) || is_boundary (char_at u.uri (n - 1))
    else true

unfoldable pub assign : List ℕ → Uri → Option Uri
assign s u = parse (record (cleared u) { uri = s })

unfoldable pub set_validate : Bool → Uri → Uri
set_validate flag u = record u { validate = flag }

unfoldable pub set_normalize : Bool → Uri → Uri
set_normalize flag u = record u { normalize = flag }

-- With the text that an Unmarshal action has read, or without one.
unfoldable pub serialize : Option (List ℕ) → Uri → Option Uri
serialize none u = some u
serialize (some s) u = parse (record u { uri = s })
