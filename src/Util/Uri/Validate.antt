-- ===== src/Util/Uri/Validate.antt =====
-- util/URI.cc: URI::validate and the validators of the components.
use oasys.Base.{ℕ, ◌-◌, Bool, ◌&&◌, ◌||◌, List, [], ◌∷◌, length, take, drop, ◌==◌, if◌then◌else◌}
use oasys.Util.Uri.Types.{
  ParseErr, parse_ok, bad_scheme, bad_userinfo, bad_host, bad_port, bad_path, bad_query,
  bad_fragment, Uri, text,
}
use oasys.Util.Uri.Chars.{
  is_digit, is_alpha, is_alnum, userinfo_char, host_char, path_char, query_char,
}
use oasys.Util.Uri.Percent.{every, no_percent, check_text}
use oasys.Util.Uri.Parse.{is_eth}
use oasys.Util.Uri.IpLiteral.{validate_ip_literal, validate_eth_literal}

unfoldable pub scheme_char : ℕ → Bool
scheme_char c = is_alnum c || c == b'+' || c == b'-' || c == b'.'

-- A parsed URI has a scheme.
unfoldable pub validate_scheme_name : List ℕ → ParseErr
validate_scheme_name [] = bad_scheme
validate_scheme_name (c ∷ cs) = if is_alpha c && every scheme_char cs then parse_ok else bad_scheme

-- Of the userinfo with its '@', and of the query and the fragment with the character they start with.
unfoldable pub validate_userinfo : List ℕ → ParseErr
validate_userinfo s = check_text userinfo_char bad_userinfo no_percent (take (length s - 1) s)

unfoldable pub validate_host : Bool → List ℕ → ParseErr
validate_host eth [] = parse_ok
validate_host eth (c ∷ cs) =
    if c == b'['
    then validate_ip_literal (take (length cs - 1) cs)
    else if eth
    then validate_eth_literal (c ∷ cs)
    else check_text host_char bad_host no_percent (c ∷ cs)

unfoldable pub validate_port : List ℕ → ParseErr
validate_port s = if every is_digit s then parse_ok else bad_port

unfoldable pub validate_path : List ℕ → ParseErr
validate_path s = check_text path_char bad_path no_percent s

unfoldable pub validate_query : List ℕ → ParseErr
validate_query s = check_text query_char bad_query no_percent (drop 1 s)

unfoldable pub validate_fragment : List ℕ → ParseErr
validate_fragment s = check_text query_char bad_fragment no_percent (drop 1 s)

-- `(err = f()) != URI_PARSE_OK || …`.
abbrev pub or_else : ParseErr → ParseErr → ParseErr
or_else parse_ok e = e
or_else err e = err

unfoldable pub validate : Uri → ParseErr
validate u = or_else (validate_scheme_name (text u.uri u.scheme)) (
    or_else (validate_userinfo (text u.uri u.userinfo)) (
      or_else (validate_host (is_eth (text u.uri u.scheme)) (text u.uri u.host)) (
        or_else (validate_port (text u.uri u.port)) (
          or_else (validate_path (text u.uri u.path)) (
            or_else (validate_query (text u.uri u.query))
              (validate_fragment (text u.uri u.fragment)))))))
