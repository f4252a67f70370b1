-- ===== src/Util/Uri/TextLength.antt =====
-- util/URI.cc: neither decoding a component nor resolving dot segments makes its text longer.
use oasys.Base.{
  ℕ, ◌+◌, ◌-◌, ◌≤◌, ◌≡◌, subst, Bool, inl, inr, List, [], ◌∷◌, Option, none, some, length, take,
  arith, Bool-cases, ◌==◌, length-append, length-take,
}
use oasys.Util.Uri.Percent.{
  Pending, no_percent, after_percent, after_digit, decode_char, prepend, scan_hex, decode_scanned,
  decode_text,
}
use oasys.Util.Uri.Dots.{last_slash, resolve_last}
use oasys.Util.Uri.DotLaws.{prev_seg-le}

-- The text, if there is one, has no more characters.
abbrev pub AtMost : ℕ → Option (List ℕ) → Type 0
AtMost n none = Unit {0}
AtMost n (some t) = length t ≤ n

AtMost-mono : (m n : ℕ) (t : Option (List ℕ)) → m ≤ n → AtMost m t → AtMost n t
AtMost-mono m n none h a = tt
AtMost-mono m n (some t) h a = omega arith

prepend-AtMost :
    (k n : ℕ) (s : List ℕ) (t : Option (List ℕ))
    → length s ≤ k
    → AtMost n t
    → AtMost (k + n) (prepend s t)
prepend-AtMost k n s none h a = tt
prepend-AtMost k n s (some t) h a = omega (arith, length-append s t)

decode_char-le : (ok : ℕ → Bool) (v a b : ℕ) → length (decode_char ok v a b) ≤ 3
unfolding decode_char
decode_char-le ok v a b = ground arith

decode_scanned-AtMost :
    (ok : ℕ → Bool) (a b n : ℕ) (v : Option ℕ) (t : Option (List ℕ))
    → AtMost n t
    → AtMost (3 + n) (decode_scanned ok a b v t)
unfolding decode_scanned
decode_scanned-AtMost ok a b n none t h = tt
decode_scanned-AtMost ok a b n (some v) t h =
    prepend-AtMost 3 n (decode_char ok v a b) t (decode_char-le ok v a b) h

-- How many characters have been read and not been decoded yet.
abbrev undecoded : Pending → ℕ
undecoded no_percent = 0
undecoded after_percent = 1
undecoded (after_digit a) = 2

decode_text-AtMost_from :
    (ok : ℕ → Bool) (p : Pending) (s : List ℕ)
    → AtMost (undecoded p + length s) (decode_text ok p s)
unfolding decode_text
decode_text-AtMost_from ok no_percent [] = omega arith
decode_text-AtMost_from ok after_percent [] = tt
decode_text-AtMost_from ok (after_digit a) [] = tt
decode_text-AtMost_from ok no_percent (c ∷ cs) = elim (Bool-cases (c == b'%')) [
  | inl e ↦ rw e (AtMost-mono _ _ _ (omega arith) (decode_text-AtMost_from ok after_percent cs))
  | inr e ↦ rw e (
      AtMost-mono _ _ _ (omega arith) (
        prepend-AtMost 1 (length cs) (c ∷ []) _ (omega arith)
          (AtMost-mono _ _ _ (omega arith) (decode_text-AtMost_from ok no_percent cs))))
]
decode_text-AtMost_from ok after_percent (c ∷ cs) =
    AtMost-mono _ _ _ (omega arith) (decode_text-AtMost_from ok (after_digit c) cs)
decode_text-AtMost_from ok (after_digit a) (c ∷ cs) =
    AtMost-mono _ _ _ (omega arith)
      (decode_scanned-AtMost ok a c _ (scan_hex a c) _ (decode_text-AtMost_from ok no_percent cs))

pub decode_text-AtMost :
    (ok : ℕ → Bool) (s : List ℕ) → AtMost (length s) (decode_text ok no_percent s)
decode_text-AtMost ok s = AtMost-mono _ _ _ (omega arith) (decode_text-AtMost_from ok no_percent s)

pub decode_text-le :
    (ok : ℕ → Bool) (s t : List ℕ) → decode_text ok no_percent s ≡ some t → length t ≤ length s
decode_text-le ok s t e = subst (AtMost (length s)) e (decode_text-AtMost ok s)

pub resolve_last-le : (r : Bool × List ℕ) → length (resolve_last r).1 ≤ length r.1
unfolding resolve_last take
resolve_last-le (modified, path) =
    let n = length path in
    let prev_seg = last_slash 0 0 (take (n - 3) path) in
    ground (
      arith,
      length-take (n - 1) path,
      length-take 1 path,
      length-take prev_seg path,
      length-append (take prev_seg path) (b'/' ∷ []),
      prev_seg-le (n - 3) path,
    )
