-- ===== src/Util/SparseBitmap.antt =====
-- util/SparseBitmap.tcc, for an unsigned _inttype_t of 64 bits. The vector of ranges is a list, and
-- an iterator is the place between two parts of it. An assertion that fails is `none`.
pub mod Compact
pub mod Set
pub mod Clear
pub mod Query
mod Tests
use oasys.Base.{
  ℕ, zero, suc, ◌+◌, ◌-◌, ◌%◌, ◌^◌, Bool, true, false, ◌&&◌, ◌||◌, List, [], ◌∷◌, Option, none,
  some, ltb, leb, ◌==◌, if◌then◌else◌,
}

abbrev pub int_mod : ℕ
int_mod = 2 ^ 64

-- `x + 1` and `x - 1`.
abbrev pub inc : ℕ → ℕ
inc x = (x + 1) % int_mod

abbrev pub dec : ℕ → ℕ
dec x = (x + int_mod - 1) % int_mod

-- `start + len - 1`.
abbrev pub last_of : ℕ → ℕ → ℕ
last_of start len = (start + len + int_mod - 1) % int_mod

pub record Range : Type 0 where
  pub start : ℕ
  pub end : ℕ

abbrev pub range : ℕ → ℕ → Range
range start end = record { start = start; end = end }

-- The first loop of `set`: the entry that was inserted or extended, with the entries before it,
-- nearest first, and those behind it; `none` where the function returns, with nothing to do.
unfoldable pub find_slot :
    ℕ → ℕ → List Range → List Range → Option (List Range × Range × List Range)
find_slot start end before [] = some (before, range start end, [])
find_slot start end before (i ∷ after) =
    let next = find_slot start end (i ∷ before) after in
    if leb i.start start && leb start (inc i.end)
    then if leb end i.end then none else some (before, record i { end = end }, after)
    else if leb (dec i.start) end && leb end i.end
    then if leb i.start start then none else some (before, record i { start = start }, after)
    else if ltb end i.start
    then some (before, range start end, i ∷ after)
    else next

-- The second loop: entries to the right that the entry reaches are joined to it.
unfoldable pub compact_right : Range → List Range → Range × List Range
compact_right i [] = (i, [])
compact_right i (j ∷ after) =
    let next = compact_right (if ltb i.end j.end then record i { end = j.end } else i) after in
    if leb (dec j.start) i.end then next else (i, j ∷ after)

-- The third loop, to the left.
unfoldable pub compact_left : List Range → Range → List Range × Range
compact_left [] i = ([], i)
compact_left (j ∷ before) i =
    let next = compact_left before (record {
      start = if ltb j.start i.start then j.start else i.start;
      end = if ltb i.end j.end then j.end else i.end;
    }) in
    if leb (dec i.start) j.end then next else (j ∷ before, i)

-- The whole vector, from the entries before an iterator and those from it on.
unfoldable pub rewind : List Range → List Range → List Range
rewind [] after = after
rewind (i ∷ before) after = rewind before (i ∷ after)

-- The assertions of `validate`, on a vector that is not empty.
unfoldable pub validate_loop : Range → List Range → Bool
validate_loop i [] = true
validate_loop i (j ∷ after) = leb j.start j.end && ltb i.end j.start && validate_loop j after

unfoldable pub validate : List Range → Bool
unfolding validate_loop
validate [] = true
validate (i ∷ after) = leb i.start i.end && validate_loop i after

-- What `set` does with the place that its first loop has found.
unfoldable pub compact : List Range → Option (List Range × Range × List Range) → Option (List Range)
unfolding validate
compact bitmap none = some bitmap
compact bitmap (some (before, i, after)) =
    let (i', after') = compact_right i after in
    let (before', i'') = compact_left before i' in
    let result = rewind before' (i'' ∷ after') in if validate result then some result else none

unfoldable pub set : ℕ → ℕ → List Range → Option (List Range)
set start len bitmap =
    if len == 0 then none else compact bitmap (find_slot start (last_of start len) [] bitmap)

-- An entry that a turn leaves behind, before those that the later turns leave.
abbrev pub keep : Range → Option (List Range) → Option (List Range)
keep i none = none
keep i (some rest) = some (i ∷ rest)

-- `clear`: each turn looks at one entry. `spare` is `capacity() - size()` of the vector. The entry that
-- the last case inserts is the one that the next turn looks at. `none` means that the fuel ran out,
-- or that the insertion has moved the vector, behind which the source goes on with the iterator `i`
-- into the old memory.
unfoldable pub clear_loop : ℕ → ℕ → ℕ → ℕ → List Range → Option (List Range)
clear_loop zero spare start end bitmap = none
clear_loop (suc fuel) spare start end [] = some []
clear_loop (suc fuel) spare start end (i ∷ after) =
    let erased = clear_loop fuel (spare + 1) start end after in
    let rest = clear_loop fuel spare start end after in
    let split = clear_loop fuel (spare - 1) start end (range end i.end ∷ after) in
    if leb start i.start && leb i.end end
    then erased
    else if leb start i.start && ltb end i.end && leb i.start end
    then keep (record i { start = inc end }) rest
    else if ltb i.start start && leb start i.end
    then if leb i.end end
      then keep (record i { end = dec start }) rest
      else if spare == 0
      then none
      else keep (record i { end = start }) split
    else keep i rest

unfoldable pub clear : ℕ → ℕ → ℕ → ℕ → List Range → Option (List Range)
clear fuel spare start len bitmap = clear_loop fuel spare start (last_of start len) bitmap

unfoldable pub is_set : ℕ → ℕ → List Range → Bool
is_set start len [] = false
is_set start len (i ∷ after) =
    leb i.start start && leb (last_of start len) i.end || is_set start len after

unfoldable pub num_contiguous : List Range → ℕ
num_contiguous [] = 0
num_contiguous (i ∷ after) = (i.end + int_mod - i.start + 1) % int_mod

unfoldable pub num_set : ℕ → List Range → ℕ
num_set ret [] = ret
num_set ret (i ∷ after) = num_set ((ret + (i.end + int_mod - i.start + 1)) % int_mod) after
