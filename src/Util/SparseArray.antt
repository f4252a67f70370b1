-- ===== src/Util/SparseArray.antt =====
-- util/SparseArray.h. Memory is the list of the elements of a block; `none` is an access outside of it, or
-- NOTREACHED. Addresses have 64 bits.
pub mod Memory
pub mod Tail
pub mod Allocate
pub mod Write
pub mod Writes
mod Tests
use oasys.Base.{
  ℕ, zero, suc, ◌+◌, ◌-◌, ◌*◌, ◌/◌, ◌%◌, ◌^◌, Bool, true, false, ◌&&◌, List, [], ◌∷◌, ◌++◌, Option,
  none, some, ltb, leb, ◌==◌, if◌then◌else◌, ◌>>=◌, length, replicate,
}

pub record Block (V : Type 0) : Type 0 where
  pub offset : ℕ
  pub size : ℕ
  pub contents : List V

-- A block of the list, with those before and behind it.
pub record Place (V : Type 0) : Type 0 where
  pub before : List (Block V)
  pub block : Block V
  pub after : List (Block V)

module _ {V : Type 0} where
  unfoldable pub nth : ℕ → List V → Option V
  nth i [] = none
  nth zero (v ∷ vs) = some v
  nth (suc i) (v ∷ vs) = nth i vs

  unfoldable pub write_nth : ℕ → V → List V → Option (List V)
  write_nth i w [] = none
  write_nth zero w (v ∷ vs) = some (w ∷ vs)
  write_nth (suc i) w (v ∷ vs) = write_nth i w vs >>= λ r. some (v ∷ r)

  -- The loops that copy elements, to `dest[i]` and the following.
  unfoldable pub copy_into : ℕ → List V → List V → Option (List V)
  copy_into i [] dest = some dest
  copy_into i (v ∷ vs) dest = write_nth i v dest >>= copy_into (i + 1) vs

  -- realloc to a number of elements; `junk` is what new memory holds.
  unfoldable pub resize : V → ℕ → List V → List V
  resize junk zero l = []
  resize junk (suc n) [] = junk ∷ resize junk n []
  resize junk (suc n) (v ∷ l) = v ∷ resize junk n l

  abbrev pub end_of : Block V → ℕ
  end_of b = (b.offset + b.size) % 2 ^ 64

  -- `_Type()` is `default`.
  unfoldable pub read : V → List (Block V) → ℕ → Option V
  read default [] offset = some default
  read default (b ∷ bs) offset =
      let rest = read default bs offset in
      if leb b.offset offset && ltb offset (end_of b)
      then nth (offset - b.offset) b.contents
      else if ltb offset b.offset
      then some default
      else rest

  unfoldable pub size : List (Block V) → ℕ
  size [] = 0
  size (b ∷ []) = end_of b
  size (b ∷ c ∷ bs) = size (c ∷ bs)

  -- The old data are copied behind the start of a block.
  abbrev pub copy_tail : Block V → Block V → Option (Block V)
  copy_tail b t = copy_into (t.offset - b.offset) t.contents b.contents >>= λ d.
      some (record b { contents = d })

  abbrev pub behind : Block V → Place V → Place V
  behind b p = record p { before = b ∷ p.before }

  -- An element takes `sizeof` bytes; calloc fills with `zeros`.
  module _ (sizeof : ℕ) (zeros junk : V) where
    abbrev pub new_block : ℕ → ℕ → Block V
    new_block offset n = record { offset = offset; size = n; contents = replicate n zeros }

    -- Case 2 of the tail passes a number of elements to realloc, which takes bytes.
    abbrev pub grow : Block V → Block V → Block V
    grow b t =
        let new_size = t.offset + t.size - b.offset in
        record b { size = new_size; contents = resize junk (new_size / sizeof) b.contents }

    -- The fixup of the tail.
    unfoldable pub fix_tail : Block V → List (Block V) → Option (Block V × List (Block V))
    fix_tail b [] = some (b, [])
    fix_tail b (t ∷ ts) =
        if ltb (end_of b) t.offset
        then some (b, t ∷ ts)
        else if leb t.offset (end_of b) && leb (end_of t) (end_of b)
        then (copy_tail b t >>= λ b'. fix_tail b' ts)
        else if leb t.offset (end_of b)
        then (copy_tail (grow b t) t >>= λ b'. fix_tail b' ts)
        else none

    abbrev pub fixed : Block V → List (Block V) → Option (Place V)
    fixed b ts = fix_tail b ts >>= λ r. some (record { before = []; block = r.0; after = r.1 })

    -- The realloc of case 3, which passes bytes.
    abbrev pub merged : ℕ → ℕ → Block V → Block V
    merged offset n b =
        let new_size = offset + n - b.offset in
        record b { size = new_size; contents = resize junk (sizeof * new_size / sizeof) b.contents }

    unfoldable pub allocate : ℕ → ℕ → List (Block V) → Option (Place V)
    allocate offset n [] = fixed (new_block offset n) []
    allocate offset n (b ∷ bs) =
        let later = allocate offset n bs in
        if leb (end_of b) offset
        then (later >>= λ p. some (behind b p))
        else if leb b.offset offset && leb ((offset + n) % 2 ^ 64) (end_of b)
        then some (record { before = []; block = b; after = bs })
        else if leb b.offset offset
            && ltb offset (end_of b)
            && ltb (end_of b) ((offset + n) % 2 ^ 64)
        then fixed (merged offset n b) bs
        else if ltb offset b.offset
        then fixed (new_block offset n) (b ∷ bs)
        else none

    unfoldable pub range_write : ℕ → List V → List (Block V) → Option (List (Block V))
    range_write offset vs blocks = allocate offset (length vs) blocks >>= λ p.
        copy_into (offset - p.block.offset) vs p.block.contents >>= λ d.
        some (p.before ++ record p.block { contents = d } ∷ p.after)
