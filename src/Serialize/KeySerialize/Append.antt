-- ===== src/Serialize/KeySerialize/Append.antt =====
-- serialize/KeySerialize.cc: what KeyMarshal appends to a buffer with room.
use oasys.Base.{
  ℕ, ◌+◌, ◌%◌, ◌<◌, ◌≤◌, ◌≡◌, List, [], ◌∷◌, ◌++◌, Option, some, length, take, drop, if◌then◌else◌,
  arith, refl, ◌∙◌, ap, sym, length-append, length-take, take-append, subst,
}
use mathlib.Core.List.{append_assoc, append-nil}
use oasys.Serialize.Buffer.{size_mod, reserve, write}
use oasys.Serialize.Field.{memory}
use oasys.Serialize.Marshal.Room.{length-write, take-write}
use oasys.Serialize.KeySerialize.{
  ExpandableBuffer, write_end, append_bytes, process_int, add_border, ◌then◌,
}

-- From `b` to `b'` the bytes were appended, with no new memory.
pub record Extends (b : ExpandableBuffer) (bytes : List ℕ) (b' : ExpandableBuffer) : Type 0 where
  pub longer : b'.len ≡ b.len + length bytes
  pub same_memory : length b'.memory ≡ length b.memory
  pub content : take b'.len b'.memory ≡ take b.len b.memory ++ bytes

-- There is room for `n` bytes and one more.
abbrev pub HasRoom : ℕ → ExpandableBuffer → Type 0
HasRoom n b = (b.len + n < length b.memory) × (length b.memory < size_mod)

abbrev pub Appends : ExpandableBuffer → List ℕ → Option ExpandableBuffer → Type 0
Appends b bytes o = (b' : ExpandableBuffer) × (o ≡ some b') × Extends b bytes b'

reserve_enough : (size : ℕ) (memory : List ℕ) → size ≤ length memory → reserve size memory ≡ memory
unfolding reserve
reserve_enough size memory h = ground arith

take-write_front :
    (start : ℕ) (s t buf : List ℕ)
    → start + length s ≤ length buf
    → take (start + length s) (write start (s ++ t) buf) ≡ take start buf ++ s
unfolding write
take-write_front start s t buf h =
    let rest = drop (start + length (s ++ t)) buf in
    let front = take start buf ++ s in
    let e : start + length s ≡ length front = rw (length-append, length-take) (omega arith) in
    ap (take (start + length s)) (
      ap (λ m. take start buf ++ m) (append_assoc s t rest)
      ∙ sym (append_assoc (take start buf) s (t ++ rest)))
    ∙ ap (λ k. take k (front ++ (t ++ rest))) e
    ∙ take-append front (t ++ rest)

pub Appends-write_end :
    (bytes : List ℕ) (b : ExpandableBuffer)
    → HasRoom (length bytes) b
    → Appends b bytes (write_end bytes b)
unfolding write_end
Appends-write_end bytes b (h, top) = (
  record b { memory = write b.len bytes b.memory; len = b.len + length bytes },
  ground arith,
  record {
    longer = refl;
    same_memory = length-write b.len bytes b.memory (omega arith);
    content = take-write b.len bytes b.memory (omega arith);
  },
)

pub Appends-append_bytes :
    (bytes : List ℕ) (b : ExpandableBuffer)
    → HasRoom (length bytes) b
    → Appends b bytes (append_bytes (length bytes) bytes b)
unfolding append_bytes
Appends-append_bytes bytes b (h, top) =
    let e = reserve_enough ((b.len + length bytes) % size_mod) b.memory (omega arith) in
    subst (λ m. Appends b bytes (write_end bytes (record b { memory = m }))) (sym e)
      (Appends-write_end bytes b (h, top))

pub Appends-process_int :
    (size : ℕ) (text : List ℕ) (b : ExpandableBuffer)
    → length text ≡ size
    → HasRoom size b
    → Appends b text (process_int size text b)
unfolding process_int
Appends-process_int size text b e (h, top) =
    let r = reserve_enough ((b.len + size + 1) % size_mod) b.memory (omega arith) in
    let one : length (text ++ 0 ∷ []) ≡ size + 1 = omega (arith, length-append text (0 ∷ []), e) in
    (
      record b { memory = write b.len (text ++ 0 ∷ []) b.memory; len = b.len + size },
      rw r (ground (arith, e)),
      record {
        longer = omega (arith, e);
        same_memory = length-write b.len (text ++ 0 ∷ []) b.memory (omega (arith, one));
        content =
            subst
              (λ m.
                take (b.len + m) (write b.len (text ++ 0 ∷ []) b.memory)
                ≡ take b.len b.memory ++ text)
              e (take-write_front b.len text (0 ∷ []) b.memory (omega (arith, e)));
      },
    )

pub Appends-add_border :
    (border : List ℕ) (b : ExpandableBuffer)
    → HasRoom (length border) b
    → Appends b border (add_border border b)
unfolding add_border
Appends-add_border [] b (h, top) = (
  b,
  refl,
  record {
    longer = omega arith;
    same_memory = refl;
    content = sym (append-nil (take b.len b.memory));
  },
)
Appends-add_border (c ∷ cs) b (h, top) =
    let e = reserve_enough (length (c ∷ cs)) b.memory (omega arith) in
    subst (λ m. Appends b (c ∷ cs) (write_end (c ∷ cs) (record b { memory = m }))) (sym e)
      (Appends-write_end (c ∷ cs) b (h, top))

-- One call after the other.
pub Appends-then :
    (s t : List ℕ) (b : ExpandableBuffer) (o : Option ExpandableBuffer)
    (f : ExpandableBuffer → Option ExpandableBuffer)
    → HasRoom (length s + length t) b
    → Appends b s o
    → ((b' : ExpandableBuffer) → HasRoom (length t) b' → Appends b' t (f b'))
    → Appends b (s ++ t) (o then f)
Appends-then s t b o f (h, top) (b1, e1, x1) k =
    let (b2, e2, x2) =
      k b1 (omega (arith, x1.longer, x1.same_memory), omega (arith, x1.same_memory)) in
    (
      b2,
      ap (λ m. m then f) e1 ∙ e2,
      record {
        longer = omega (arith, x1.longer, x2.longer, length-append s t);
        same_memory = x2.same_memory ∙ x1.same_memory;
        content =
            x2.content ∙ (ap (λ m. m ++ t) x1.content ∙ append_assoc (take b.len b.memory) s t);
      },
    )
