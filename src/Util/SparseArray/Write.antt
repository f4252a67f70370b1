-- ===== src/Util/SparseArray/Write.antt =====
-- SparseArray::range_write and operator[] of util/SparseArray.h.
use oasys.Base.{
  ℕ, ◌+◌, ◌-◌, ◌^◌, ◌≤◌, ◌<◌, Bool, true, false, ◌&&◌, List, [], ◌∷◌, ◌++◌, Option, some, ltb, leb,
  if◌then◌else◌, ◌>>=◌, length, ◌≡◌, refl, sym, ap, ◌∙◌, arith, inl, inr, Bool-cases, false≢true,
}
use oasys.Util.SparseArray.{Block, nth, copy_into, end_of, read, range_write}
use oasys.Util.SparseArray.Memory.{copy_into-Copied, nth-some}
use oasys.Util.SparseArray.Tail.{inside, lookup, or_then, Well, Chain, lookup-below}
use oasys.Util.SparseArray.Allocate.{blocks_of, target, allocate-Allocated}

module _ {V : Type 0} where
  -- The test of operator[].
  tested :
      (b : Block V) (k : ℕ) (x : Bool)
      → Well b
      → inside b k ≡ x
      → (leb b.offset k && ltb k (end_of b)) ≡ x
  tested b k x w h = ground (arith, h, w.fits)

  pub read-lookup :
      (default : V) (lo : ℕ) (bs : List (Block V)) (k : ℕ)
      → Chain lo bs
      → read default bs k ≡ or_then (lookup bs k) (some default)
  unfolding read lookup
  read-lookup default lo [] k c = refl
  read-lookup default lo (b ∷ bs) k c = elim (Bool-cases (inside b k)) [
    | inl i ↦
        let value = nth-some (k - b.offset) b.contents (ground (arith, i, c.1.filled)) in
        ap
          (λ x.
            if x
            then nth (k - b.offset) b.contents
            else if ltb k b.offset
            then some default
            else read default bs k)
          (tested b k true c.1 i)
        ∙ value.1
        ∙ sym (
            ap
              (λ x.
                or_then (if x then nth (k - b.offset) b.contents else lookup bs k) (some default))
              i
            ∙ ap (λ o. or_then o (some default)) value.1)
    | inr i ↦
        ap
          (λ x.
            if x
            then nth (k - b.offset) b.contents
            else if ltb k b.offset
            then some default
            else read default bs k)
          (tested b k false c.1 i)
        ∙ elim (Bool-cases (ltb k b.offset)) [
          | inl g ↦
              ap (λ x. if x then some default else read default bs k) g
              ∙ ap (λ o. or_then o (some default))
                  (sym (lookup-below (b.offset + b.size) k bs c.2 (ground (arith, g))))
          | inr g ↦
              ap (λ x. if x then some default else read default bs k) g
              ∙ read-lookup default (b.offset + b.size) bs k c.2
        ]
        ∙ sym (
            ap
              (λ x.
                or_then (if x then nth (k - b.offset) b.contents else lookup bs k) (some default))
              i)
  ]

  Chain-reaches :
      (lo : ℕ) (before : List (Block V)) (b : Block V) (after : List (Block V))
      → Chain lo (before ++ b ∷ after)
      → lo ≤ b.offset
  Chain-reaches lo [] b after c = c.0
  Chain-reaches lo (a ∷ before) b after c =
      omega (arith, c.0, Chain-reaches (a.offset + a.size) before b after c.2)

  Chain-Well :
      (lo : ℕ) (before : List (Block V)) (b : Block V) (after : List (Block V))
      → Chain lo (before ++ b ∷ after)
      → Well b
  Chain-Well lo [] b after c = c.1
  Chain-Well lo (a ∷ before) b after c = Chain-Well (a.offset + a.size) before b after c.2

  module _ (b : Block V) (d : List V) (after : List (Block V))
      (filled : length d ≡ length b.contents) where
    replaced-Chain :
        (lo : ℕ) (before : List (Block V))
        → Chain lo (before ++ b ∷ after)
        → Chain lo (before ++ record b { contents = d } ∷ after)
    replaced-Chain lo [] c = (c.0, record { filled = filled ∙ c.1.filled; fits = c.1.fits }, c.2)
    replaced-Chain lo (a ∷ before) c = (c.0, c.1, replaced-Chain (a.offset + a.size) before c.2)

    replaced-lookup :
        (k : ℕ) (t : Bool) (x : Option V)
        → (t ≡ true → inside b k ≡ true)
        → (inside b k ≡ true
            → nth (k - b.offset) d ≡ (if t then x else nth (k - b.offset) b.contents))
        → (lo : ℕ) (before : List (Block V)) → Chain lo (before ++ b ∷ after)
        → lookup (before ++ record b { contents = d } ∷ after) k
          ≡ (if t then x else lookup (before ++ b ∷ after) k)
    unfolding lookup
    replaced-lookup k t x within eq lo [] c = elim (Bool-cases (inside b k)) [
      | inl i ↦
          ap (λ y. if y then nth (k - b.offset) d else lookup after k) i
          ∙ eq i
          ∙ sym (
              ap (λ y. if t then x else if y then nth (k - b.offset) b.contents else lookup after k)
                i)
      | inr i ↦ elim (Bool-cases t) [
        | inl u ↦ absurd (false≢true (sym i ∙ within u))
        | inr u ↦
            ap (λ y. if y then nth (k - b.offset) d else lookup after k) i
            ∙ sym (
                ap
                  (λ y.
                    if y
                    then x
                    else if inside b k
                    then nth (k - b.offset) b.contents
                    else lookup after k)
                  u
                ∙ ap (λ y. if y then nth (k - b.offset) b.contents else lookup after k) i)
      ]
    ]
    replaced-lookup k t x within eq lo (a ∷ before) c =
        let more = replaced-lookup k t x within eq (a.offset + a.size) before c.2 in
        let order = Chain-reaches (a.offset + a.size) before b after c.2 in
        elim (Bool-cases t) [
          | inl u ↦
              let apart : inside a k ≡ false = ground (arith, within u, order) in
              ap
                (λ y.
                  if y
                  then nth (k - a.offset) a.contents
                  else lookup (before ++ record b { contents = d } ∷ after) k)
                apart
              ∙ more
              ∙ ap (λ y. if y then x else lookup (before ++ b ∷ after) k) u
              ∙ sym (
                  ap
                    (λ y.
                      if y
                      then x
                      else if inside a k
                      then nth (k - a.offset) a.contents
                      else lookup (before ++ b ∷ after) k)
                    u)
          | inr u ↦
              ap (λ o. if inside a k then nth (k - a.offset) a.contents else o)
                (more ∙ ap (λ y. if y then x else lookup (before ++ b ∷ after) k) u)
              ∙ sym (
                  ap
                    (λ y.
                      if y
                      then x
                      else if inside a k
                      then nth (k - a.offset) a.contents
                      else lookup (before ++ b ∷ after) k)
                    u)
        ]

  -- What copy_into has written, by the address.
  module _ (b : Block V) (offset : ℕ) (vs d : List V) where
    written :
        (k : ℕ)
        → ((j : ℕ)
            → nth j d ≡ (
                if leb (offset - b.offset) j && ltb j (offset - b.offset + length vs)
                then nth (j - (offset - b.offset)) vs
                else nth j b.contents))
        → b.offset ≤ offset
        → inside b k ≡ true
        → nth (k - b.offset) d ≡ (
            if target offset (length vs) k
            then nth (k - offset) vs
            else nth (k - b.offset) b.contents)
    written k copied le i = elim (Bool-cases (target offset (length vs) k)) [
      | inl t ↦
          let place : k - b.offset - (offset - b.offset) ≡ k - offset = ground (arith, t, le) in
          ground (arith, copied (k - b.offset), ap (λ j. nth j vs) place, t, i, le)
      | inr t ↦ ground (arith, copied (k - b.offset), t, i, le)
    ]

  -- A write ends, and then the addresses written hold the elements, and the others what they held.
  pub range_write-read :
      (zeros junk default : V) (offset : ℕ) (vs : List V) (bs : List (Block V))
      → offset + length vs < 2 ^ 64
      → Chain 0 bs
      → (bs' : List (Block V)) × (range_write 1 zeros junk offset vs bs ≡ some bs')
        × Chain 0 bs'
        × ((k : ℕ)
            → read default bs' k
              ≡ (if target offset (length vs) k then nth (k - offset) vs else read default bs k))
  unfolding range_write
  range_write-read zeros junk default offset vs bs fits c =
      let (p, e, c1, le, reach, eq) =
        allocate-Allocated zeros junk offset (length vs) fits 0 bs (omega arith) c in
      let b = p.block in
      let w = Chain-Well 0 p.before b p.after c1 in
      let copy =
        copy_into-Copied (offset - b.offset) vs b.contents (omega (arith, w.filled, le, reach)) in
      let b' : Block V = record b { contents = copy.0 } in
      let bs' = p.before ++ b' ∷ p.after in
      let c2 = replaced-Chain b copy.0 p.after copy.2 0 p.before c1 in
      let looked : (k : ℕ)
          → lookup bs' k ≡ (
              if target offset (length vs) k then nth (k - offset) vs else lookup (blocks_of p) k) =
        λ k.
          replaced-lookup b copy.0 p.after copy.2 k (target offset (length vs) k)
            (nth (k - offset) vs) (λ t. ground (arith, t, le, reach))
            (written b offset vs copy.0 k copy.3 le) 0 p.before c1 in
      (
        bs',
        ap
              (λ o. o >>= λ p. copy_into (offset - p.block.offset) vs p.block.contents >>= λ d.
                some (p.before ++ record p.block { contents = d } ∷ p.after))
              e
            ∙ ap (λ o. o >>= λ d. some (p.before ++ record b { contents = d } ∷ p.after)) copy.1,
        c2,
        λ k.
            read-lookup default 0 bs' k c2
            ∙ ap (λ o. or_then o (some default)) (looked k)
            ∙ elim (Bool-cases (target offset (length vs) k)) [
              | inl t ↦
                  let value = nth-some (k - offset) vs (ground (arith, t)) in
                  ap
                    (λ y.
                      or_then (if y then nth (k - offset) vs else lookup (blocks_of p) k)
                        (some default))
                    t
                  ∙ ap (λ o. or_then o (some default)) value.1
                  ∙ sym (ap (λ y. if y then nth (k - offset) vs else read default bs k) t ∙ value.1)
              | inr t ↦
                  ap
                    (λ y.
                      or_then (if y then nth (k - offset) vs else lookup (blocks_of p) k)
                        (some default))
                    t
                  ∙ ap (λ o. or_then o (some default)) (eq k t)
                  ∙ sym (
                      ap (λ y. if y then nth (k - offset) vs else read default bs k) t
                      ∙ read-lookup default 0 bs k c)
            ],
      )
