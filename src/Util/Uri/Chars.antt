-- ===== src/Util/Uri/Chars.antt =====
-- util/URI.cc: the classes of characters. A text is a list of bytes; the C library's tests are those
-- of the C locale, which hold of no byte from 128 on.
use oasys.Base.{ℕ, ◌+◌, ◌-◌, Bool, ◌&&◌, ◌||◌, leb, ◌==◌, if◌then◌else◌}

unfoldable pub is_digit : ℕ → Bool
is_digit c = leb b'0' c && leb c b'9'

unfoldable pub is_upper : ℕ → Bool
is_upper c = leb b'A' c && leb c b'Z'

unfoldable pub is_lower : ℕ → Bool
is_lower c = leb b'a' c && leb c b'z'

unfoldable pub is_alpha : ℕ → Bool
unfolding is_upper is_lower
is_alpha c = is_upper c || is_lower c

unfoldable pub is_alnum : ℕ → Bool
unfolding is_alpha is_digit
is_alnum c = is_alpha c || is_digit c

unfoldable pub to_lower : ℕ → ℕ
unfolding is_upper
to_lower c = if is_upper c then c + 32 else c

unfoldable pub to_upper : ℕ → ℕ
unfolding is_lower
to_upper c = if is_lower c then c - 32 else c

unfoldable pub is_unreserved : ℕ → Bool
unfolding is_alnum
is_unreserved c = is_alnum c || c == b'-' || c == b'.' || c == b'_' || c == b'~'

unfoldable pub is_sub_delim : ℕ → Bool
is_sub_delim c =
    c == b'!'
    || c == b'$'
    || c == b'&'
    || c == b'\''
    || c == b'('
    || c == b')'
    || c == b'*'
    || c == b'+'
    || c == b','
    || c == b';'
    || c == b'='

unfoldable pub is_hexdig : ℕ → Bool
unfolding is_digit
is_hexdig c = is_digit c || leb b'a' c && leb c b'f' || leb b'A' c && leb c b'F'

-- The characters that each component allows as they are.
unfoldable pub host_char : ℕ → Bool
unfolding is_unreserved is_sub_delim
host_char c = is_unreserved c || is_sub_delim c

unfoldable pub userinfo_char : ℕ → Bool
unfolding host_char
userinfo_char c = host_char c || c == b':'

unfoldable pub path_char : ℕ → Bool
unfolding host_char
path_char c = host_char c || c == b'/' || c == b':' || c == b'@'

-- The query and the fragment.
unfoldable pub query_char : ℕ → Bool
unfolding host_char
query_char c = host_char c || c == b':' || c == b'@' || c == b'/' || c == b'?'

-- What decode_path decodes: not a slash.
unfoldable pub path_decoded : ℕ → Bool
unfolding host_char
path_decoded c = host_char c || c == b':' || c == b'@'
