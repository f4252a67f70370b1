-- ===== src/Util/SparseArray/Allocate.antt =====
-- SparseArray::allocate of util/SparseArray.h.
use oasys.Base.{
  ℕ, ◌+◌, ◌-◌, ◌*◌, ◌/◌, ◌%◌, ◌^◌, ◌≤◌, ◌<◌, Bool, true, false, ◌&&◌, List, [], ◌∷◌, ◌++◌, Option,
  none, some, ltb, leb, if◌then◌else◌, ◌>>=◌, ◌≡◌, refl, sym, ap, ◌∙◌, arith, inl, inr, Bool-cases,
  replicate, length-replicate,
}
use oasys.Util.SparseArray.{Block, Place, nth, end_of, new_block, merged, fixed, behind, allocate}
use oasys.Util.SparseArray.Memory.{length-resize, nth-resize}
use oasys.Util.SparseArray.Tail.{
  inside, held, lookup, or_then, Well, Chain, Chain-weaken, lookup-below, or_then-none,
  fix_tail-Fixed,
}

abbrev pub blocks_of : {V : Type 0} → Place V → List (Block V)
blocks_of p = p.before ++ p.block ∷ p.after

-- The addresses that are to be written.
abbrev pub target : ℕ → ℕ → ℕ → Bool
target offset n k = leb offset k && ltb k (offset + n)

module _ {V : Type 0} (zeros junk : V) (offset n : ℕ) (fits : offset + n < 2 ^ 64) where
  -- A place in a list of blocks from `lo` on that has the addresses, and holds elsewhere what `bs` does.
  abbrev pub Allocated : ℕ → List (Block V) → Option (Place V) → Type 0
  Allocated lo bs r =
      (p : Place V) × (r ≡ some p)
      × Chain lo (blocks_of p)
      × (p.block.offset ≤ offset)
      × (offset + n ≤ p.block.offset + p.block.size)
      × ((k : ℕ) → target offset n k ≡ false → lookup (blocks_of p) k ≡ lookup bs k)

  fixed-Allocated :
      (lo : ℕ) (b : Block V) (ts bs : List (Block V))
      → Well b
      → Chain b.offset ts
      → lo ≤ b.offset
      → b.offset ≤ offset
      → offset + n ≤ b.offset + b.size
      → ((k : ℕ) → target offset n k ≡ false → or_then (lookup ts k) (held b k) ≡ lookup bs k)
      → Allocated lo bs (fixed 1 zeros junk b ts)
  fixed-Allocated lo b ts bs w c low le reach eq =
      let (b', ts', e, w', o, s, c', l) = fix_tail-Fixed zeros junk b ts w c in
      (
        record { before = []; block = b'; after = ts' },
        ap (λ o. o >>= λ r. some (record { before = []; block = r.0; after = r.1 })) e,
        (omega (arith, o, low), w', c'),
        omega (arith, o, le),
        omega (arith, o, s, reach),
        λ k h. l k ∙ eq k h,
      )

  new_block-Well : Well (new_block 1 zeros junk offset n)
  new_block-Well = record { filled = length-replicate n zeros; fits = fits }

  new_block-Allocated :
      (lo : ℕ) (bs : List (Block V))
      → lo ≤ offset
      → Chain offset bs
      → Allocated lo bs (fixed 1 zeros junk (new_block 1 zeros junk offset n) bs)
  new_block-Allocated lo bs low c =
      fixed-Allocated lo (new_block 1 zeros junk offset n) bs bs new_block-Well c low (omega arith)
        (omega arith)
        (λ k h.
          ap (λ x. or_then (lookup bs k) (if x then nth (k - offset) (replicate n zeros) else none))
            h
          ∙ or_then-none (lookup bs k))

  merged-Allocated :
      (lo : ℕ) (b : Block V) (bs : List (Block V))
      → Chain lo (b ∷ bs)
      → b.offset ≤ offset
      → offset < b.offset + b.size
      → b.offset + b.size < offset + n
      → Allocated lo (b ∷ bs) (fixed 1 zeros junk (merged 1 zeros junk offset n b) bs)
  unfolding lookup
  merged-Allocated lo b bs c le meets shorter =
      let b0 = merged 1 zeros junk offset n b in
      let w : Well b0 = record {
        filled = length-resize junk (1 * (offset + n - b.offset) / 1) b.contents ∙ omega arith;
        fits = omega (arith, fits);
      } in
      fixed-Allocated lo b0 bs (b ∷ bs) w
        (Chain-weaken (b.offset + b.size) b.offset bs (omega arith) c.2) c.0 le (omega arith)
        (λ k h. elim (Bool-cases (inside b k)) [
          | inl i ↦
              let later = lookup-below (b.offset + b.size) k bs c.2 (ground (arith, i)) in
              let kept =
                nth-resize junk (1 * (offset + n - b.offset) / 1) (k - b.offset) b.contents
                  (ground (arith, i)) (ground (arith, i, c.1.filled)) in
              let here : held b0 k ≡ nth (k - b.offset) b.contents = ground (arith, i, kept) in
              ap (λ o. or_then o (held b0 k)) later
              ∙ here
              ∙ sym (ap (λ x. if x then nth (k - b.offset) b.contents else lookup bs k) i)
          | inr i ↦
              let gone : held b0 k ≡ none = ground (arith, i, h) in
              ap (or_then (lookup bs k)) gone
              ∙ or_then-none (lookup bs k)
              ∙ sym (ap (λ x. if x then nth (k - b.offset) b.contents else lookup bs k) i)
        ])

  behind-Allocated :
      (lo : ℕ) (b : Block V) (bs : List (Block V)) (r : Option (Place V))
      → Chain lo (b ∷ bs)
      → Allocated (b.offset + b.size) bs r
      → Allocated lo (b ∷ bs) (r >>= λ p. some (behind b p))
  unfolding lookup
  behind-Allocated lo b bs r c (p, e, c', le, reach, eq) = (
    behind b p,
    ap (λ o. o >>= λ p. some (behind b p)) e,
    (c.0, c.1, c'),
    le,
    reach,
    λ k h. ap (λ o. if inside b k then nth (k - b.offset) b.contents else o) (eq k h),
  )

  pub allocate-Allocated :
      (lo : ℕ) (bs : List (Block V))
      → lo ≤ offset
      → Chain lo bs
      → Allocated lo bs (allocate 1 zeros junk offset n bs)
  unfolding allocate
  allocate-Allocated lo [] low c = new_block-Allocated lo [] low tt
  allocate-Allocated lo (b ∷ bs) low c = elim (Bool-cases (leb (end_of b) offset)) [
    | inl e ↦ rw e (
        behind-Allocated lo b bs (allocate 1 zeros junk offset n bs) c
          (allocate-Allocated (b.offset + b.size) bs (ground (arith, e, c.1.fits)) c.2))
    | inr e ↦ elim (Bool-cases (leb b.offset offset && leb ((offset + n) % 2 ^ 64) (end_of b))) [
      | inl g ↦
          rw (e, g)
            (
              record { before = []; block = b; after = bs },
              refl,
              c,
              ground (arith, g),
              ground (arith, g, fits, c.1.fits),
              λ k h. refl,
            )
      | inr g ↦
          elim (Bool-cases (
            leb b.offset offset
            && ltb offset (end_of b)
            && ltb (end_of b) ((offset + n) % 2 ^ 64))) [
              | inl f ↦
                  rw (e, g, f)
                    (merged-Allocated lo b bs c (ground (arith, f)) (ground (arith, f, c.1.fits))
                      (ground (arith, f, fits, c.1.fits)))
              | inr f ↦
                  let past : ltb offset b.offset ≡ true = ground (arith, e, g, f) in
                  rw (e, g, f, past)
                    (new_block-Allocated lo (b ∷ bs) low (ground (arith, past), c.1, c.2))
            ]
    ]
  ]
