-- ===== src/Util/Uri/Query.antt =====
-- util/URI.cc: URI::query_value.
use oasys.Base.{
  ℕ, zero, suc, ◌+◌, ◌-◌, Bool, true, false, not, ◌&&◌, ◌||◌, List, [], ◌∷◌, Option, none, some,
  length, leb, ltb, ◌==◌, if◌then◌else◌, ◌>>◌, assert,
}
use oasys.Util.Uri.Types.{at_offset, Uri, text, find_or_end, char_at, is_char, is_ok}

unfoldable pub same : List ℕ → List ℕ → Bool
same [] [] = true
same [] (d ∷ ds) = false
same (c ∷ cs) [] = false
same (c ∷ cs) (d ∷ ds) = let rest = same cs ds in c == d && rest

unfoldable pub value_stop : ℕ → Bool
value_stop c = c == b';' || c == b'#'

-- The loop over the parameters, from a position on that stands before a name; `end` is the query's.
-- `none` is out of fuel.
unfoldable pub find_value : ℕ → ℕ → List ℕ → List ℕ → ℕ → Option (List ℕ)
find_value zero end s param curr_pos = none
find_value (suc fuel) end s param curr_pos =
    let param_start = curr_pos + 1 in
    let param_end = find_or_end (is_char b'=') s param_start in
    let value_start = param_end + 1 in
    let value_end = find_or_end value_stop s value_start in
    let rest = find_value fuel end s param (find_or_end (is_char b';') s param_start) in
    if not (ltb curr_pos end)
    then some []
    else if leb (length s) param_end
    then some []
    else if ltb end param_end
    then some []
    else if not (same (text s (at_offset param_start (param_end - param_start))) param)
    then rest
    else some (text s (at_offset value_start (value_end - value_start)))

unfoldable pub query_value : List ℕ → Uri → Option (List ℕ)
query_value param u = do
  assert (is_ok u.parse_err)
  assert (u.query.length == 0 || char_at u.uri u.query.offset == b'?')
  (if u.query.length == 0
      then some []
      else find_value (suc (length u.uri)) (u.query.offset + u.query.length) u.uri param
          u.query.offset)
