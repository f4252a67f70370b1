-- ===== src/Util/Uri/Setters.antt =====
-- util/URI.cc: URI::Component::adjust_offset, adjust_length, and the setters that do not parse the
-- whole text again. `none` is a failed assertion. Adjusting by a difference of 0 changes nothing, so
-- the test for it is left out.
use oasys.Base.{
  ℕ, ◌+◌, ◌-◌, ◌%◌, ◌^◌, Bool, ◌||◌, ◌&&◌, ◌++◌, List, Option, none, some, length, take, drop, leb,
  ltb, ◌==◌, if◌then◌else◌, ◌>>=◌, ◌>>◌, assert,
}
use oasys.Util.Uri.Types.{Component, at_offset, Uri, text, char_at, is_ok}
use oasys.Util.Uri.Parse.{atoi, parse_authority}

-- `uri_.replace(offset_, length_, t)`.
abbrev pub splice : List ℕ → Component → List ℕ → List ℕ
splice s c t = take c.offset s ++ (t ++ drop (c.offset + c.length) s)

-- `int diff = new - old`, of two `size_t`: the low 32 bits, from 2^31 on the negative numbers.
abbrev pub int_diff : ℕ → ℕ → ℕ
int_diff old new = (new + 2 ^ 64 - old) % 2 ^ 64 % 2 ^ 32

-- `-diff` of the least int is undefined, and `none` too.
unfoldable pub adjust : ℕ → ℕ → ℕ → Option ℕ
adjust old new n =
    let diff = int_diff old new in
    let minus = (2 ^ 32 - diff) % 2 ^ 32 in
    if diff == 2 ^ 31
    then none
    else if ltb 0 diff && ltb diff (2 ^ 31)
    then some ((n + diff) % 2 ^ 64)
    else if leb minus n
    then some (n - minus)
    else none

unfoldable pub adjust_offset : ℕ → ℕ → Component → Option Component
adjust_offset old new c =
    if c.offset == 0 then some c else do o ← adjust old new c.offset; some (at_offset o c.length)

unfoldable pub adjust_length : ℕ → ℕ → Component → Option Component
adjust_length old new c = do n ← adjust old new c.length; some (at_offset c.offset n)

unfoldable pub set_scheme : List ℕ → Uri → Option Uri
set_scheme t u = do
  assert (is_ok u.parse_err)
  let old = u.scheme.length
  let new = length t
  scheme ← adjust_length old new u.scheme
  ssp ← adjust_offset old new u.ssp
  authority ← adjust_offset old new u.authority
  userinfo ← adjust_offset old new u.userinfo
  host ← adjust_offset old new u.host
  port ← adjust_offset old new u.port
  path ← adjust_offset old new u.path
  query ← adjust_offset old new u.query
  fragment ← adjust_offset old new u.fragment
  some (record u {
    uri = splice u.uri u.scheme t;
    scheme = scheme;
    ssp = ssp;
    authority = authority;
    userinfo = userinfo;
    host = host;
    port = port;
    path = path;
    query = query;
    fragment = fragment;
  })

-- What parse_authority asserts of an authority.
abbrev pub is_authority : List ℕ → Bool
is_authority t = length t == 0 || (leb 2 (length t) && char_at t 0 == b'/' && char_at t 1 == b'/')

-- The result of parse_authority is dropped.
unfoldable pub set_authority : List ℕ → Uri → Option Uri
set_authority t u = do
  assert (is_ok u.parse_err)
  let old = u.authority.length
  let new = length t
  ssp ← adjust_length old new u.ssp
  authority ← adjust_length old new u.authority
  path ← adjust_offset old new u.path
  query ← adjust_offset old new u.query
  fragment ← adjust_offset old new u.fragment
  let u' : Uri = record u {
    uri = splice u.uri u.authority t;
    ssp = ssp;
    authority = authority;
    path = path;
    query = query;
    fragment = fragment;
  }
  assert (is_authority (text u'.uri u'.authority))
  some (parse_authority u').1

unfoldable pub set_userinfo : List ℕ → Uri → Option Uri
set_userinfo t u = do
  assert (is_ok u.parse_err)
  let old = u.userinfo.length
  let new = length t
  ssp ← adjust_length old new u.ssp
  authority ← adjust_length old new u.authority
  userinfo ← adjust_length old new u.userinfo
  host ← adjust_offset old new u.host
  port ← adjust_offset old new u.port
  path ← adjust_offset old new u.path
  query ← adjust_offset old new u.query
  fragment ← adjust_offset old new u.fragment
  some (record u {
    uri = splice u.uri u.userinfo t;
    ssp = ssp;
    authority = authority;
    userinfo = userinfo;
    host = host;
    port = port;
    path = path;
    query = query;
    fragment = fragment;
  })

unfoldable pub set_host : List ℕ → Uri → Option Uri
set_host t u = do
  assert (is_ok u.parse_err)
  let old = u.host.length
  let new = length t
  ssp ← adjust_length old new u.ssp
  authority ← adjust_length old new u.authority
  host ← adjust_length old new u.host
  port ← adjust_offset old new u.port
  path ← adjust_offset old new u.path
  query ← adjust_offset old new u.query
  fragment ← adjust_offset old new u.fragment
  some (record u {
    uri = splice u.uri u.host t;
    ssp = ssp;
    authority = authority;
    host = host;
    port = port;
    path = path;
    query = query;
    fragment = fragment;
  })

unfoldable pub set_port : List ℕ → Uri → Option Uri
set_port t u = do
  assert (is_ok u.parse_err)
  let old = u.port.length
  let new = length t
  ssp ← adjust_length old new u.ssp
  authority ← adjust_length old new u.authority
  port ← adjust_length old new u.port
  path ← adjust_offset old new u.path
  query ← adjust_offset old new u.query
  fragment ← adjust_offset old new u.fragment
  some (record u {
    uri = splice u.uri u.port t;
    ssp = ssp;
    authority = authority;
    port = port;
    path = path;
    query = query;
    fragment = fragment;
    port_num = atoi t;
  })

unfoldable pub set_path : List ℕ → Uri → Option Uri
set_path t u = do
  assert (is_ok u.parse_err)
  let old = u.path.length
  let new = length t
  ssp ← adjust_length old new u.ssp
  path ← adjust_length old new u.path
  query ← adjust_offset old new u.query
  fragment ← adjust_offset old new u.fragment
  some (record u {
    uri = splice u.uri u.path t;
    ssp = ssp;
    path = path;
    query = query;
    fragment = fragment;
  })

unfoldable pub set_query : List ℕ → Uri → Option Uri
set_query t u = do
  assert (is_ok u.parse_err)
  let old = u.query.length
  let new = length t
  ssp ← adjust_length old new u.ssp
  query ← adjust_length old new u.query
  fragment ← adjust_offset old new u.fragment
  some (record u { uri = splice u.uri u.query t; ssp = ssp; query = query; fragment = fragment })

unfoldable pub set_fragment : List ℕ → Uri → Option Uri
set_fragment t u = do
  assert (is_ok u.parse_err)
  let old = u.fragment.length
  let new = length t
  ssp ← adjust_length old new u.ssp
  fragment ← adjust_length old new u.fragment
  some (record u { uri = splice u.uri u.fragment t; ssp = ssp; fragment = fragment })
