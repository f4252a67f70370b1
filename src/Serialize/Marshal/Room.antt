-- ===== src/Serialize/Marshal/Room.antt =====
-- What one write of Marshal does to the buffer, with room for it and without.
use oasys.Base.{
  ℕ, ◌+◌, ◌≤◌, ◌<◌, ◌≡◌, sym, ap, ◌∙◌, true, false, ◌⊎◌, List, ◌++◌, length, take, drop, arith,
  length-append, length-take, length-drop, length-replicate, replicate, ◌-◌, take-append,
  take-append_le, take_all, drop-append, drop-append_any, drop_all, drop-drop, drop-take,
  take-take_le, leb, Bool-cases, inl, inr, ◌%◌,
}
use mathlib.Core.List.{append_assoc}
use oasys.Serialize.Buffer.{BufferedSerializeAction, size_mod, tail_buf, next_slice, write}
use oasys.Serialize.Marshal.{put}

-- `n` more bytes can be written: into a fixed buffer what is left of it has to hold them.
pub record Fits (a : BufferedSerializeAction) (n : ℕ) : Type 0 where
  pub within : a.offset ≤ length a.buf
  pub no_wrap : a.offset + n < size_mod
  pub room : (a.expandable ≡ true) ⊎ (a.offset + n ≤ length a.buf)

-- From `a` to `b` the bytes were appended, and nothing else changed: the memory has not shrunk, and
-- what it held behind the new offset it still holds.
pub record Appends (a : BufferedSerializeAction) (bytes : List ℕ) (b : BufferedSerializeAction)
    : Type 0 where
  pub no_error : b.error ≡ false
  pub mode : b.expandable ≡ a.expandable
  pub offset : b.offset ≡ a.offset + length bytes
  pub within : b.offset ≤ length b.buf
  pub size : (a.expandable ≡ true) ⊎ (length b.buf ≡ length a.buf)
  pub content : take b.offset b.buf ≡ take a.offset a.buf ++ bytes
  pub grown : length a.buf ≤ length b.buf
  pub behind : take (length a.buf - b.offset) (drop b.offset b.buf) ≡ drop b.offset a.buf

pub length-write :
    (start : ℕ) (bytes buf : List ℕ)
    → start + length bytes ≤ length buf
    → length (write start bytes buf) ≡ length buf
unfolding write
length-write start bytes buf h =
    rw (length-append, length-append, length-take, length-drop) (omega arith)

pub take-write :
    (start : ℕ) (bytes buf : List ℕ)
    → start + length bytes ≤ length buf
    → take (start + length bytes) (write start bytes buf) ≡ take start buf ++ bytes
unfolding write
take-write start bytes buf h =
    let front = take start buf ++ bytes in
    let rest = drop (start + length bytes) buf in
    let e : start + length bytes ≡ length front = rw (length-append, length-take) (omega arith) in
    ap (take (start + length bytes)) (sym (append_assoc (take start buf) bytes rest))
    ∙ ap (λ k. take k (front ++ rest)) e
    ∙ take-append front rest

drop-write :
    (start : ℕ) (bytes buf : List ℕ)
    → start + length bytes ≤ length buf
    → drop (start + length bytes) (write start bytes buf) ≡ drop (start + length bytes) buf
unfolding write
drop-write start bytes buf h =
    let front = take start buf ++ bytes in
    let rest = drop (start + length bytes) buf in
    let e : start + length bytes ≡ length front = rw (length-append, length-take) (omega arith) in
    ap (drop (start + length bytes)) (sym (append_assoc (take start buf) bytes rest))
    ∙ ap (λ k. drop k (front ++ rest)) e
    ∙ drop-append front rest

behind_self : (k : ℕ) (buf : List ℕ) → take (length buf - k) (drop k buf) ≡ drop k buf
behind_self k buf = take_all (length buf - k) (drop k buf) (omega (arith, length-drop k buf))

behind-append :
    (k : ℕ) (buf more : List ℕ) → take (length buf - k) (drop k (buf ++ more)) ≡ drop k buf
behind-append k buf more =
    rw (drop-append_any k buf more, ← length-drop k buf)
      (take-append (drop k buf) (drop (k - length buf) more))

-- The memory that a larger one replaces is copied.
tail_buf_behind :
    (n len k : ℕ) (buf : List ℕ) → take (length buf - k) (drop k (tail_buf n len buf)) ≡ drop k buf
unfolding tail_buf
tail_buf_behind n len k buf = ground (
  arith,
  behind_self k buf,
  behind-append k buf (replicate ((len + n) % size_mod - length buf) 0),
)

tail_buf_grown : (n len : ℕ) (buf : List ℕ) → length buf ≤ length (tail_buf n len buf)
unfolding tail_buf
tail_buf_grown n len buf =
    ground (arith, length-append buf (replicate ((len + n) % size_mod - length buf) 0))

tail_buf_keeps :
    (n len : ℕ) (buf : List ℕ)
    → len ≤ length buf
    → len + n < size_mod
    → (take len (tail_buf n len buf) ≡ take len buf) × (len + n ≤ length (tail_buf n len buf))
unfolding tail_buf
tail_buf_keeps n len buf h k =
    let more : List ℕ = replicate (len + n - length buf) 0 in
    ground (
      arith,
      take-append_le len buf more h,
      length-append buf more,
      length-replicate {A = ℕ} (len + n - length buf) 0,
    )

pub Appends-put :
    (n : ℕ) (bytes : List ℕ) (a : BufferedSerializeAction)
    → length bytes ≡ n
    → a.error ≡ false
    → Fits a n
    → Appends a bytes (put n bytes a)
unfolding put next_slice
Appends-put n bytes a e ok fits =
    let (kept, enough) = tail_buf_keeps n a.offset a.buf fits.within fits.no_wrap in
    ground (
      arith,
      kept,
      enough,
      length-write a.offset bytes a.buf,
      take-write a.offset bytes a.buf,
      drop-write a.offset bytes a.buf,
      behind_self (a.offset + n) a.buf,
      length-write a.offset bytes (tail_buf n a.offset a.buf),
      take-write a.offset bytes (tail_buf n a.offset a.buf),
      drop-write a.offset bytes (tail_buf n a.offset a.buf),
      tail_buf_behind n a.offset (a.offset + n) a.buf,
      tail_buf_grown n a.offset a.buf,
    )

-- What is behind the later of two offsets.
behind_trans :
    (k y : ℕ) (a b c : List ℕ)
    → length a ≤ length b
    → take (length a - k) (drop k b) ≡ drop k a
    → take (length b - (k + y)) (drop (k + y) c) ≡ drop (k + y) b
    → take (length a - (k + y)) (drop (k + y) c) ≡ drop (k + y) a
unfolding take
behind_trans k y a b c h p q =
    let la = length a in
    let lb = length b in
    sym (take-take_le (la - (k + y)) (lb - (k + y)) (drop (k + y) c) (omega arith))
    ∙ ap (take (la - (k + y))) (q ∙ sym (drop-drop k y b))
    ∙ elim (Bool-cases (leb (k + y) la)) [
      | inl e ↦
          let n : la - k ≡ y + (la - (k + y)) = ground (arith, e) in
          sym (drop-take y (la - (k + y)) (drop k b))
          ∙ ap (λ m. drop y (take m (drop k b))) (sym n)
          ∙ ap (drop y) p
          ∙ drop-drop k y a
      | inr e ↦
          let none_left : la - (k + y) ≡ 0 = ground (arith, e) in
          rw none_left (sym (drop_all (k + y) a (ground (arith, e))))
    ]

pub Appends-trans :
    {a b c : BufferedSerializeAction} {xs ys : List ℕ}
    → Appends a xs b
    → Appends b ys c
    → Appends a (xs ++ ys) c
Appends-trans {a} {b} {c} {xs} {ys} p q = record {
  no_error = q.no_error;
  mode = q.mode ∙ p.mode;
  offset = omega (arith, p.offset, q.offset, length-append xs ys);
  within = q.within;
  size = ground arith;
  content = q.content ∙ rw p.content (append_assoc (take a.offset a.buf) xs ys);
  grown = omega (arith, p.grown, q.grown);
  behind =
      let far = rw q.offset at q.behind in
      rw q.offset (behind_trans b.offset (length ys) a.buf b.buf c.buf p.grown p.behind far);
}

pub Fits-Appends :
    {a b : BufferedSerializeAction} {xs : List ℕ} (n : ℕ)
    → Appends a xs b
    → Fits a (length xs + n)
    → Fits b n
Fits-Appends n p f = record { within = p.within; no_wrap = omega arith; room = ground arith }

pub Fits-mono : {a : BufferedSerializeAction} (m n : ℕ) → m ≤ n → Fits a n → Fits a m
Fits-mono m n h f = record { within = f.within; no_wrap = omega arith; room = ground arith }
