-- ===== src/Serialize/Buffer.antt =====
-- serialize/BufferedSerializeAction.cc, and what it uses of util/ExpandableBuffer.h.
-- A buffer is the list of the bytes that are allocated, so `length buf` is `length()`: `length_`
-- for a fixed buffer, `buf_len_` for an expandable one. `offset` is likewise `offset()`.
-- Bytes that `realloc` has added and nothing has written are 0. A `size_t` has 64 bits.
use oasys.Base.{
  ℕ, ◌+◌, ◌-◌, ◌%◌, ◌^◌, Bool, true, false, List, ◌++◌, Option, none, some, length, take, drop,
  replicate, ltb, if◌then◌else◌,
}

abbrev pub size_mod : ℕ
size_mod = 2 ^ 64

pub record BufferedSerializeAction : Type 0 where
  pub error : Bool
  -- The action was built on an ExpandableBuffer.
  pub expandable : Bool
  pub buf : List ℕ
  pub offset : ℕ

-- ExpandableBuffer::reserve.
unfoldable pub reserve : ℕ → List ℕ → List ℕ
reserve size buf = if ltb (length buf) size then buf ++ replicate (size - length buf) 0 else buf

-- ExpandableBuffer::tail_buf: the buffer after it; the pointer returned is `buf + len`.
unfoldable pub tail_buf : ℕ → ℕ → List ℕ → List ℕ
unfolding reserve
tail_buf size len buf =
    if ltb size (length buf - len) then buf else reserve ((len + size) % size_mod) buf

-- The slice is the offset of its first byte; `none` is NULL.
unfoldable pub next_slice : ℕ → BufferedSerializeAction → Option ℕ × BufferedSerializeAction
next_slice len a =
    if a.error
    then (none, a)
    else if a.expandable
    then (
      some a.offset,
      record a { buf = tail_buf len a.offset a.buf; offset = (a.offset + len) % size_mod },
    )
    else if ltb (length a.buf) ((a.offset + len) % size_mod)
    then (none, record a { error = true })
    else (some a.offset, record a { offset = (a.offset + len) % size_mod })

-- The bytes from `start` on are overwritten: `buf[i] = …` and `memcpy` into a slice.
unfoldable pub write : ℕ → List ℕ → List ℕ → List ℕ
write start bytes buf = take start buf ++ (bytes ++ drop (start + length bytes) buf)

-- `len` bytes read from `start` on.
unfoldable pub read : ℕ → ℕ → List ℕ → List ℕ
read start len buf = take len (drop start buf)

-- SerializeAction::action resets the flag before the object is processed.
unfoldable pub begin_processing : BufferedSerializeAction → BufferedSerializeAction
begin_processing a = record a { error = false }
