-- ===== src/Util/Uri/Types.antt =====
-- util/URI.h: the members of a URI, and the searches of std::string that the source uses.
use oasys.Base.{
  ℕ, zero, suc, ◌+◌, Bool, true, false, List, [], ◌∷◌, take, drop, if◌then◌else◌, ◌==◌,
}

-- uri_parse_err_t.
pub data ParseErr : Type 0 where
  parse_ok no_uri no_sep bad_percent bad_ip_literal bad_ipv6 bad_scheme bad_userinfo : ParseErr
  bad_host bad_port bad_path bad_query bad_fragment no_param_val : ParseErr

pub record Component : Type 0 where
  pub offset : ℕ
  pub length : ℕ

abbrev pub at_offset : ℕ → ℕ → Component
at_offset o n = record { offset = o; length = n }

pub record Uri : Type 0 where
  pub uri : List ℕ
  pub scheme : Component
  pub ssp : Component
  pub authority : Component
  pub path : Component
  pub query : Component
  pub fragment : Component
  pub userinfo : Component
  pub host : Component
  pub port : Component
  pub port_num : ℕ
  pub parse_err : ParseErr
  pub validate : Bool
  pub normalize : Bool

-- `uri_.substr(offset_, length_)`.
abbrev pub text : List ℕ → Component → List ℕ
text s c = take c.length (drop c.offset s)

-- How far it is to the first character that passes the test, or to the end.
unfoldable pub prefix : (ℕ → Bool) → List ℕ → ℕ
prefix p [] = 0
prefix p (c ∷ cs) = let rest = prefix p cs in if p c then 0 else suc rest

-- `find` or `find_first_of` from a position on; the length of the text where it is npos.
abbrev pub find_or_end : (ℕ → Bool) → List ℕ → ℕ → ℕ
find_or_end p s pos = pos + prefix p (drop pos s)

-- `at`, of a position within the text.
unfoldable pub char_at : List ℕ → ℕ → ℕ
char_at [] i = 0
char_at (c ∷ cs) zero = c
char_at (c ∷ cs) (suc i) = char_at cs i

abbrev pub is_char : ℕ → ℕ → Bool
is_char c d = d == c

abbrev pub is_ok : ParseErr → Bool
is_ok parse_ok = true
is_ok err = false
