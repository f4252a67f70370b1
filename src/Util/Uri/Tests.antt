-- ===== src/Util/Uri/Tests.antt =====
-- util/URI.cc on concrete texts.
use Prim.Native.Char.{code}
use Prim.Native.String.{String}
use oasys.Base.{
  take, drop, ℕ, List, [], ◌∷◌, some, none, ◌*◌, ◌^◌, Bool, true, false, ◌≡◌, ◌↔◌, refl, arith,
}
use oasys.Serialize.KeySerialize.Strtoul.{skip_space, is_space}
use oasys.Util.Uri.Types.{parse_ok, no_uri, bad_path, Uri, at_offset, prefix, char_at}
use oasys.Util.Uri.Chars.{
  is_hexdig, path_char, path_decoded, is_digit, is_upper, is_lower, is_alpha, is_alnum, to_lower,
  to_upper, is_unreserved, is_sub_delim, host_char, userinfo_char, query_char,
}
use oasys.Util.Uri.Parse.{
  none_yet, atoi, atoi_from, path_stop, authority_stop, parse_generic_ssp, authority_end, path_end,
  query_end, fragment_end, atoi_signed, is_eth, host_end, parse_host, parse_authority,
}
use oasys.Util.Uri.Percent.{
  check_text, no_percent, every, hex_digit, decode_char, has_percent, scan_hex, decode_scanned,
  decode_text,
}
use oasys.Util.Uri.Pieces.{Spelled, check_text-Spelled}
use oasys.Util.Uri.Decode.{IsDecoded, decode_text-IsDecoded}
use oasys.Util.Uri.PartsText.{Parts}
use oasys.Util.Uri.Compose.{HasParts, with_parts, parse_generic_ssp-print}
use oasys.Util.Uri.Validate.{
  scheme_char, validate_scheme_name, validate_userinfo, validate_host, validate_port, validate_path,
  validate_query, validate_fragment, validate,
}
use oasys.Util.Uri.Dots.{resolve_dots, dot_prefix, last_slash, resolve_dot, resolve_last}
use oasys.Util.Uri.DotSegments.{IsResolved}
use oasys.Util.Uri.DotsResolved.{resolve_dots-IsResolved}
use oasys.Util.Uri.Setters.{
  set_path, set_host, set_query, adjust, adjust_offset, adjust_length, set_userinfo,
}
use oasys.Util.Uri.Layout.{IsLaidOut}
use oasys.Util.Uri.SetTypes.{IsUpdated, path_part, besides_path, host_part, besides_host}
use oasys.Util.Uri.SetLaws.{set_path-IsUpdated}
use oasys.Util.Uri.SetAuthority.{set_host-IsUpdated}
use oasys.Util.Uri.Normalize.{
  parse, lower, normalize_scheme, decode_authority, decode_path, decode_query, decode_fragment,
  lower_host, normalize_authority, normalize_path, normalize, finish,
}
use oasys.Util.Uri.ParseResult.{parse-IsLaidOut}
use oasys.Util.Uri.Query.{query_value, same, value_stop}
use oasys.Util.Uri.QueryText.{print_params, lookup}
use oasys.Util.Uri.QueryLaws.{query_value-print}

abbrev codes : String → List ℕ
codes String.[] = []
codes (String.◌∷◌ c s) = code c ∷ codes s

abbrev fresh : Bool → List ℕ → Uri
fresh flag s = record {
  uri = s;
  scheme = none_yet;
  ssp = none_yet;
  authority = none_yet;
  path = none_yet;
  query = none_yet;
  fragment = none_yet;
  userinfo = none_yet;
  host = none_yet;
  port = none_yet;
  port_num = 0;
  parse_err = no_uri;
  validate = flag;
  normalize = flag;
}

-- x://u@h:80/a/../b?k=v#f, which is normalized to x://u@h:80/b?k=v#f.
abbrev bytes : List ℕ
bytes = codes "X://u@H:80/a/../b?k=%76#f"

abbrev parsed : Uri
parsed = record {
  uri = codes "x://u@h:80/b?k=v#f";
  scheme = at_offset 0 1;
  ssp = at_offset 2 16;
  authority = at_offset 2 8;
  path = at_offset 10 2;
  query = at_offset 12 4;
  fragment = at_offset 16 2;
  userinfo = at_offset 4 2;
  host = at_offset 6 1;
  port = at_offset 8 2;
  port_num = 80;
  parse_err = parse_ok;
  validate = true;
  normalize = true;
}

parse-bytes : parse (fresh true bytes) ≡ some parsed
unfolding take drop skip_space is_space is_digit is_upper is_lower is_alpha is_alnum to_lower
    to_upper is_unreserved is_sub_delim is_hexdig host_char userinfo_char path_char query_char
    path_decoded prefix char_at authority_stop path_stop authority_end path_end query_end
    fragment_end parse_generic_ssp atoi_from atoi_signed atoi is_eth host_end parse_host
    parse_authority every check_text hex_digit decode_char has_percent scan_hex decode_scanned
    decode_text scheme_char validate_scheme_name validate_userinfo validate_host validate_port
    validate_path validate_query validate_fragment validate adjust adjust_offset adjust_length
    set_userinfo set_host set_path set_query dot_prefix last_slash resolve_dot resolve_dots
    resolve_last lower normalize_scheme decode_authority decode_path decode_query decode_fragment
    lower_host normalize_authority normalize_path normalize finish parse
parse-bytes = refl

parsed-IsLaidOut : IsLaidOut parsed
parsed-IsLaidOut = (parse-IsLaidOut (fresh true bytes) parsed (omega arith) parse-bytes refl).0

abbrev parts : Parts
parts = record {
  authority = some (codes "h");
  path = codes "/p";
  query = some (codes "k=v");
  fragment = some (codes "f?");
}

parse_generic_ssp-print_example :
    HasParts (parse_generic_ssp (with_parts (fresh false []) (codes "x:") parts)) parts
unfolding authority_stop path_stop
parse_generic_ssp-print_example =
    parse_generic_ssp-print (fresh false []) (codes "x:") parts
      (((refl, tt), refl), (refl, (refl, tt)), (refl, (refl, (refl, tt))))

check_text-Spelled_example :
    (check_text path_char bad_path no_percent (codes "a%2Fb") ≡ parse_ok)
    ↔ Spelled path_char (codes "a%2Fb")
unfolding path_char
check_text-Spelled_example =
    check_text-Spelled path_char refl bad_path (λ e. absurd (ground (arith, e))) (codes "a%2Fb")

decode_text-IsDecoded_example :
    (t : List ℕ) × IsDecoded path_char path_decoded bad_path (codes "a%2f%62") t
unfolding path_char path_decoded check_text host_char is_unreserved is_alnum is_alpha is_upper
    is_lower is_digit is_sub_delim is_hexdig
decode_text-IsDecoded_example =
    decode_text-IsDecoded path_char path_decoded refl (λ c h. ground (arith, h)) bad_path
      (λ e. absurd (ground (arith, e))) (codes "a%2f%62") refl

set_path-IsSet_example :
    IsUpdated path_part besides_path (codes "/new") parsed (set_path (codes "/new") parsed)
set_path-IsSet_example =
    set_path-IsUpdated parsed refl parsed-IsLaidOut (codes "/new") (omega arith) (omega arith)

set_host-IsSet_example :
    IsUpdated host_part besides_host (codes "host") parsed (set_host (codes "host") parsed)
set_host-IsSet_example =
    set_host-IsUpdated parsed refl parsed-IsLaidOut (codes "host") (omega arith) (omega arith)

resolve_dots-IsResolved_example :
    (r : Bool × List ℕ) × (resolve_dots 11 0 false (codes "/a/../b/./") ≡ some r) × IsResolved r.1
resolve_dots-IsResolved_example = resolve_dots-IsResolved (codes "/a/../b/./")

query_value-print_example : query_value (codes "k") parsed ≡ some (codes "v")
unfolding print_params lookup same value_stop
query_value-print_example =
    query_value-print parsed (codes "x://u@h:80/b") (codes "#f") (codes "k")
      ((codes "k", codes "v") ∷ []) refl refl refl refl ((refl, tt), (refl, tt), (refl, tt), tt)
      refl

-- Of "%4g" the source reads 4, and the text is given back with its digits in upper case; of "%g4" it
-- reads nothing.
decoded_4g : decode_text path_decoded no_percent (codes "a%4g") ≡ some (codes "a%4G")
unfolding decode_text decode_scanned scan_hex hex_digit decode_char is_hexdig is_digit is_lower
    is_space path_decoded host_char is_unreserved is_alnum is_alpha is_upper is_sub_delim to_upper
decoded_4g = refl

decoded_g4 : decode_text path_decoded no_percent (codes "a%g4") ≡ none
unfolding decode_text decode_scanned scan_hex hex_digit decode_char is_hexdig is_digit is_lower
    is_space path_decoded host_char is_unreserved is_alnum is_alpha is_upper is_sub_delim to_upper
decoded_g4 = refl

-- With a text of 3 * 10^9 characters in the place of one of 4 the difference is a negative int.
far_path : adjust 4 (3 * 10 ^ 9) 100 ≡ none
unfolding adjust
far_path = refl

abbrev ok_uri : List ℕ → Uri
ok_uri s = record (fresh false s) { parse_err = parse_ok }
