-- ===== src/Serialize/KeySerialize/Reading.antt =====
-- serialize/KeySerialize.cc: one call of KeyUnmarshal on the text that KeyMarshal writes for it.
use oasys.Base.{
  ℕ, ◌+◌, ◌%◌, ◌^◌, ◌<◌, ◌≡◌, true, false, List, ◌++◌, some, length, take, drop, ltb, leb, arith,
  refl, ◌∙◌, ap, sym, length-append, take-append, drop-append, subst,
}
use mathlib.Core.List.{append_assoc}
use oasys.Serialize.Unmarshal.{Outcome, number}
use oasys.Serialize.KeySerialize.{hex, hex16, blank_zeros}
use oasys.Serialize.KeySerialize.Strtoul.{
  strtoul, digits, digits-hex, hex-AreDigits, strtoul-blank_zeros, strtoul_spaces,
}
use oasys.Serialize.KeySerialize.KeyUnmarshal.{
  u32_mod, KeyUnmarshal, skip_border, parse_int, get_int, copy_bytes, copy_checked,
}

pub strtoul-hex16 : (i : ℕ) → strtoul (hex16 i) ≡ i % 2 ^ 32
unfolding hex16
strtoul-hex16 i =
    let n = i % 2 ^ 32 in
    let e : digits 0 (hex 8 n) ≡ n = digits-hex 8 n (omega arith) in
    strtoul_spaces 8 (blank_zeros (hex 8 n))
    ∙ (strtoul-blank_zeros (hex 8 n) (hex-AreDigits 8 n)
          (subst (λ m. m < 2 ^ 64) (sym e) (omega arith))
        ∙ e)

-- The reader stands behind `pre`.
abbrev pub reader : ℕ → List ℕ → List ℕ → KeyUnmarshal
reader border_len pre rest = record {
  error = false;
  buf = pre ++ rest;
  border_len = border_len;
  cur = length pre;
}

take-drop_middle :
    (pre s rest : List ℕ) → take (length s) (drop (length pre) (pre ++ (s ++ rest))) ≡ s
take-drop_middle pre s rest = rw (drop-append pre (s ++ rest)) (take-append s rest)

within :
    (pre s rest : List ℕ)
    → length pre + length s + length rest < 2 ^ 32
    → (length (pre ++ (s ++ rest)) ≡ length pre + length s + length rest)
      × (ltb (length (pre ++ (s ++ rest))) ((length pre + length s) % u32_mod) ≡ false)
within pre s rest h =
    let l = length-append pre (s ++ rest) in
    let l' = length-append s rest in
    let e : length (pre ++ (s ++ rest)) ≡ length pre + length s + length rest =
      omega (arith, l, l') in
    (e, rw e (ground arith))

-- The position behind `s`.
behind :
    (n : ℕ) (pre s rest : List ℕ)
    → length pre + length s + length rest < 2 ^ 32
    → record (reader n pre (s ++ rest)) { cur = (length pre + length s) % u32_mod }
      ≡ reader n (pre ++ s) rest
behind n pre s rest h =
    let e : (length pre + length s) % u32_mod ≡ length (pre ++ s) =
      omega (arith, length-append pre s) in
    rw (append_assoc pre s rest, e) refl

pub parse_int-reader :
    (n : ℕ) (pre s rest : List ℕ)
    → length pre + length s + length rest < 2 ^ 32
    → parse_int (length s) (reader n pre (s ++ rest)) ≡ (strtoul s, reader n (pre ++ s) rest)
unfolding parse_int
parse_int-reader n pre s rest h =
    rw ((within pre s rest h).1, take-drop_middle pre s rest)
      (ap (λ u. (strtoul s, u)) (behind n pre s rest h))

module _ (border : List ℕ) where
  -- What is left after a field and its border.
  unfoldable pub at_border : List ℕ → List ℕ → KeyUnmarshal
  at_border pre rest = reader (length border) (pre ++ border) rest

  pub get_int-reader :
      (size modulus i : ℕ) (pre s rest : List ℕ)
      → length s ≡ size
      → strtoul s % modulus ≡ i
      → length pre + length s + length (border ++ rest) < 2 ^ 32
      → get_int size modulus (reader (length border) pre (s ++ (border ++ rest)))
        ≡ some (number i, at_border (pre ++ s) rest)
  unfolding get_int at_border
  get_int-reader size modulus i pre s rest e v h =
      let p = parse_int-reader (length border) pre s (border ++ rest) h in
      let l : length (pre ++ s) + length border + length rest < 2 ^ 32 =
        omega (arith, length-append pre s, length-append border rest) in
      rw (← e, p, v)
        (ap (λ u. some (number i, u)) (behind (length border) (pre ++ s) border rest l))

  pub copy_bytes-reader :
      (store : List ℕ → Outcome) (pre s rest : List ℕ)
      → length pre + length s + length (border ++ rest) < 2 ^ 32
      → copy_bytes (length s) store (reader (length border) pre (s ++ (border ++ rest)))
        ≡ some (store s, at_border (pre ++ s) rest)
  unfolding copy_bytes at_border
  copy_bytes-reader store pre s rest h =
      let (e, o) = within pre s (border ++ rest) h in
      let b : leb (length pre + length s) (length (pre ++ (s ++ (border ++ rest)))) ≡ true =
        rw e (ground arith) in
      let l : length (pre ++ s) + length border + length rest < 2 ^ 32 =
        omega (arith, length-append pre s, length-append border rest) in
      rw (b, take-drop_middle pre s (border ++ rest))
        (ap (λ u. some (store s, skip_border u)) (behind (length border) pre s (border ++ rest) h)
          ∙ ap (λ u. some (store s, u)) (behind (length border) (pre ++ s) border rest l))

  pub copy_checked-reader :
      (store : List ℕ → Outcome) (pre s rest : List ℕ)
      → length pre + length s + length (border ++ rest) < 2 ^ 32
      → copy_checked (length s) store (reader (length border) pre (s ++ (border ++ rest)))
        ≡ some (store s, at_border (pre ++ s) rest)
  unfolding copy_checked
  copy_checked-reader store pre s rest h =
      rw (within pre s (border ++ rest) h).1 (copy_bytes-reader store pre s rest h)
