-- ===== src/Util/Uri/Dots.antt =====
-- util/URI.cc: the part of URI::normalize_path that resolves the '.' and '..' segments of a path.
use oasys.Base.{
  ℕ, zero, suc, ◌+◌, ◌-◌, Bool, true, ◌&&◌, ◌||◌, List, [], ◌∷◌, ◌++◌, Option, none, some, length,
  take, drop, leb, ◌==◌, if◌then◌else◌,
}
use oasys.Util.Uri.Types.{char_at}

-- How far it is to the first "./", or to the end.
unfoldable pub dot_prefix : List ℕ → ℕ
dot_prefix [] = 0
dot_prefix (c ∷ cs) =
    let rest = dot_prefix cs in if c == b'.' && char_at cs 0 == b'/' then 0 else suc rest

-- `find_last_of('/')`, with 0 for npos: of the text from position `i` on.
unfoldable pub last_slash : ℕ → ℕ → List ℕ → ℕ
last_slash i found [] = found
last_slash i found (c ∷ cs) = last_slash (i + 1) (if c == b'/' then i else found) cs

abbrev pub erase : List ℕ → ℕ → ℕ → List ℕ
erase s i n = take i s ++ drop (i + n) s

-- The body of the loop: the new checkpoint and the new path.
unfoldable pub resolve_dot : ℕ → ℕ → List ℕ → ℕ × List ℕ
resolve_dot checkpoint dot path =
    let prev_seg = last_slash 0 0 (take (dot - 2) path) in
    if dot == 0 || char_at path (dot - 1) == b'/'
    then (checkpoint, erase path dot 2)
    else if char_at path (dot - 1) == b'.' && dot == 1
    then (checkpoint, erase path (dot - 1) 3)
    else if char_at path (dot - 1) == b'.' && char_at path (dot - 2) == b'/'
    then (if dot == 2
        then (checkpoint, erase path (dot - 1) 3)
        else (prev_seg, erase path prev_seg (dot + 1 - prev_seg)))
    else (dot + 2, path)

-- With whether the path has been modified; `none` is out of fuel.
unfoldable pub resolve_dots : ℕ → ℕ → Bool → List ℕ → Option (Bool × List ℕ)
resolve_dots zero checkpoint modified path = none
resolve_dots (suc fuel) checkpoint modified path =
    let dot = checkpoint + dot_prefix (drop checkpoint path) in
    let (checkpoint', path') = resolve_dot checkpoint dot path in
    let rest = resolve_dots fuel checkpoint' true path' in
    if leb (length path) dot then some (modified, path) else rest

-- What is left at the end of the path.
unfoldable pub resolve_last : Bool × List ℕ → Bool × List ℕ
resolve_last (modified, path) =
    let n = length path in
    let prev_seg = last_slash 0 0 (take (n - 3) path) in
    if n == 1 && char_at path 0 == b'.'
    then (true, [])
    else if n == 2 && char_at path 0 == b'.' && char_at path 1 == b'.'
    then (true, [])
    else if leb 2 n && char_at path (n - 2) == b'/' && char_at path (n - 1) == b'.'
    then (true, take (n - 1) path)
    else if leb 3 n
        && char_at path (n - 3) == b'/'
        && char_at path (n - 2) == b'.'
        && char_at path (n - 1) == b'.'
    then (true, if n == 3 then take 1 path else take prev_seg path ++ b'/' ∷ [])
    else (modified, path)
