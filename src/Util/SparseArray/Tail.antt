-- ===== src/Util/SparseArray/Tail.antt =====
-- SparseArray::allocate of util/SparseArray.h: the fixup of the tail.
use oasys.Base.{
  ℕ, ◌+◌, ◌-◌, ◌/◌, ◌^◌, ◌≤◌, ◌<◌, Bool, true, false, ◌&&◌, List, [], ◌∷◌, Option, none, some, ltb,
  leb, if◌then◌else◌, ◌>>=◌, length, ◌≡◌, refl, sym, ap, ◌∙◌, arith, inl, inr, Bool-cases,
}
use oasys.Util.SparseArray.{Block, nth, end_of, copy_tail, grow, fix_tail}
use oasys.Util.SparseArray.Memory.{copy_into-Copied, length-resize, nth-resize, nth-some}

module _ {V : Type 0} where
  abbrev pub inside : Block V → ℕ → Bool
  inside b k = leb b.offset k && ltb k (b.offset + b.size)

  -- What a block holds at an address, and what a list of blocks does.
  abbrev pub held : Block V → ℕ → Option V
  held b k = if inside b k then nth (k - b.offset) b.contents else none

  unfoldable pub lookup : List (Block V) → ℕ → Option V
  lookup [] k = none
  lookup (b ∷ bs) k =
      let rest = lookup bs k in if inside b k then nth (k - b.offset) b.contents else rest

  abbrev pub or_then : Option V → Option V → Option V
  or_then none o = o
  or_then (some v) o = some v

  pub record Well (b : Block V) : Type 0 where
    pub filled : length b.contents ≡ b.size
    pub fits : b.offset + b.size < 2 ^ 64

  -- Blocks in ascending order from `lo` on, which do not overlap.
  abbrev pub Chain : ℕ → List (Block V) → Type 0
  Chain lo [] = Unit {0}
  Chain lo (b ∷ bs) = (lo ≤ b.offset) × Well b × Chain (b.offset + b.size) bs

  pub Chain-weaken : (lo lo' : ℕ) (bs : List (Block V)) → lo' ≤ lo → Chain lo bs → Chain lo' bs
  Chain-weaken lo lo' [] h c = tt
  Chain-weaken lo lo' (b ∷ bs) h c = (omega (arith, c.0), c.1, c.2)

  pub lookup-below : (lo k : ℕ) (bs : List (Block V)) → Chain lo bs → k < lo → lookup bs k ≡ none
  unfolding lookup
  lookup-below lo k [] c h = refl
  lookup-below lo k (b ∷ bs) c h =
      ground (arith, c.0, lookup-below (b.offset + b.size) k bs c.2 (omega (arith, c.0)))

  pub or_then-none : (o : Option V) → or_then o none ≡ o
  or_then-none none = refl
  or_then-none (some v) = refl

  pub if-false :
      (c : Bool) (x y z : Option V)
      → (c ≡ false → y ≡ z)
      → (if c then x else y) ≡ (if c then x else z)
  if-false true x y z h = refl
  if-false false x y z h = h refl

  copy_tail-held :
      (b t : Block V)
      → Well b
      → Well t
      → b.offset ≤ t.offset
      → t.offset + t.size ≤ b.offset + b.size
      → (d : List V) × (copy_tail b t ≡ some (record b { contents = d }))
        × Well (record b { contents = d })
        × ((k : ℕ)
            → held (record b { contents = d }) k
              ≡ (if inside t k then nth (k - t.offset) t.contents else held b k))
  copy_tail-held b t w v h g =
      let c =
        copy_into-Copied (t.offset - b.offset) t.contents b.contents
          (omega (arith, w.filled, v.filled)) in
      (
        c.0,
        ap (λ o. o >>= λ d. some (record b { contents = d })) c.1,
        record { filled = c.2 ∙ w.filled; fits = w.fits },
        λ k. elim (Bool-cases (inside t k)) [
          | inl e ↦
              let place : k - b.offset - (t.offset - b.offset) ≡ k - t.offset = ground (arith, e) in
              ground (arith, c.3 (k - b.offset), e, v.filled, ap (λ i. nth i t.contents) place)
          | inr e ↦ ground (arith, c.3 (k - b.offset), e, v.filled)
        ],
      )

  module _ (zeros junk : V) where
    grow-Well : (b t : Block V) → Well t → b.offset ≤ t.offset → Well (grow 1 zeros junk b t)
    grow-Well b t v h = record {
      filled = length-resize junk ((t.offset + t.size - b.offset) / 1) b.contents ∙ omega arith;
      fits = omega (arith, v.fits);
    }

    grow-held :
        (b t : Block V)
        → Well b
        → b.offset ≤ t.offset
        → t.offset ≤ b.offset + b.size
        → b.offset + b.size ≤ t.offset + t.size
        → (k : ℕ) → inside t k ≡ false
        → held (grow 1 zeros junk b t) k ≡ held b k
    grow-held b t w h g f k e = elim (Bool-cases (inside b k)) [
      | inl i ↦ ground (
        arith,
        i,
        e,
        nth-resize junk ((t.offset + t.size - b.offset) / 1) (k - b.offset) b.contents
            (ground (arith, i, e)) (ground (arith, i, w.filled)),
      )
      | inr i ↦ ground (arith, i, e)
    ]

    -- What the fixup of a block promises.
    abbrev pub Fixed : Block V → List (Block V) → Option (Block V × List (Block V)) → Type 0
    Fixed b ts r =
        (b' : Block V) × (ts' : List (Block V)) × (r ≡ some (b', ts'))
        × Well b'
        × (b'.offset ≡ b.offset)
        × (b.size ≤ b'.size)
        × Chain (b'.offset + b'.size) ts'
        × ((k : ℕ) → lookup (b' ∷ ts') k ≡ or_then (lookup ts k) (held b k))

    -- One block of the tail has been copied into `b1`.
    step-Fixed :
        (b b1 t : Block V) (ts : List (Block V)) (r : Option (Block V × List (Block V)))
        → Well t
        → Chain (t.offset + t.size) ts
        → b1.offset ≡ b.offset
        → b.size ≤ b1.size
        → ((k : ℕ) → held b1 k ≡ (if inside t k then nth (k - t.offset) t.contents else held b k))
        → Fixed b1 ts r
        → Fixed b (t ∷ ts) r
    unfolding lookup
    step-Fixed b b1 t ts r v c o s eq (b', ts', e, w, o', s', c', l) = (
      b',
      ts',
      e,
      w,
      o' ∙ o,
      omega (arith, s, s'),
      c',
      λ k. elim (Bool-cases (inside t k)) [
        | inl i ↦
            let later = lookup-below (t.offset + t.size) k ts c (ground (arith, i)) in
            let value = nth-some (k - t.offset) t.contents (ground (arith, i, v.filled)) in
            l k
            ∙ ap (λ o. or_then o (held b1 k)) later
            ∙ eq k
            ∙ ap (λ x. if x then nth (k - t.offset) t.contents else held b k) i
            ∙ value.1
            ∙ sym (
                ap
                  (λ x.
                    or_then (if x then nth (k - t.offset) t.contents else lookup ts k) (held b k))
                  i
                ∙ ap (λ o. or_then o (held b k)) value.1)
        | inr i ↦
            l k
            ∙ ap (or_then (lookup ts k))
                (eq k ∙ ap (λ x. if x then nth (k - t.offset) t.contents else held b k) i)
            ∙ sym (
                ap
                  (λ x.
                    or_then (if x then nth (k - t.offset) t.contents else lookup ts k) (held b k))
                  i)
      ],
    )

    pub fix_tail-Fixed :
        (b : Block V) (ts : List (Block V))
        → Well b
        → Chain b.offset ts
        → Fixed b ts (fix_tail 1 zeros junk b ts)
    unfolding fix_tail lookup
    fix_tail-Fixed b [] w c = (b, [], refl, w, refl, omega arith, tt, λ k. refl)
    fix_tail-Fixed b (t ∷ ts) w c = elim (Bool-cases (ltb (end_of b) t.offset)) [
      | inl e ↦
          let apart : b.offset + b.size ≤ t.offset = ground (arith, e, w.fits) in
          rw e (
            b,
            t ∷ ts,
            refl,
            w,
            refl,
            omega arith,
            (apart, c.1, c.2),
            λ k. elim (Bool-cases (inside b k)) [
              | inl i ↦
                  let none_there =
                    lookup-below (b.offset + b.size) k (t ∷ ts) (apart, c.1, c.2)
                      (ground (arith, i)) in
                  ap (λ x. if x then nth (k - b.offset) b.contents else lookup (t ∷ ts) k) i
                  ∙ sym (
                      ap (λ o. or_then o (held b k)) none_there
                      ∙ ap (λ x. if x then nth (k - b.offset) b.contents else none) i)
              | inr i ↦
                  ap (λ x. if x then nth (k - b.offset) b.contents else lookup (t ∷ ts) k) i
                  ∙ sym (
                      ap
                        (λ x.
                          or_then (lookup (t ∷ ts) k)
                            (if x then nth (k - b.offset) b.contents else none))
                        i
                      ∙ or_then-none (lookup (t ∷ ts) k))
            ],
          )
      | inr e ↦ elim (Bool-cases (leb t.offset (end_of b) && leb (end_of t) (end_of b))) [
        | inl g ↦
            let copy = copy_tail-held b t w c.1 c.0 (ground (arith, g, w.fits, c.1.fits)) in
            let b1 : Block V = record b { contents = copy.0 } in
            rw (e, g, copy.1)
              (step-Fixed b b1 t ts (fix_tail 1 zeros junk b1 ts) c.1 c.2 refl (omega arith) copy.3
                (fix_tail-Fixed b1 ts copy.2
                  (Chain-weaken (t.offset + t.size) b.offset ts (omega (arith, c.0)) c.2)))
        | inr g ↦
            let near : leb t.offset (end_of b) ≡ true = ground (arith, e) in
            let meets : t.offset ≤ b.offset + b.size = ground (arith, near, w.fits) in
            let longer : b.offset + b.size ≤ t.offset + t.size =
              ground (arith, g, near, w.fits, c.1.fits) in
            let b0 = grow 1 zeros junk b t in
            let copy = copy_tail-held b0 t (grow-Well b t c.1 c.0) c.1 c.0 (omega (arith, c.0)) in
            let b1 : Block V = record b0 { contents = copy.0 } in
            let eq : (k : ℕ)
                → held b1 k ≡ (if inside t k then nth (k - t.offset) t.contents else held b k) =
              λ k.
                copy.3 k
                ∙ if-false (inside t k) (nth (k - t.offset) t.contents) (held b0 k) (held b k)
                    (grow-held b t w c.0 meets longer k) in
            rw (e, g, near, copy.1)
              (step-Fixed b b1 t ts (fix_tail 1 zeros junk b1 ts) c.1 c.2 refl
                (omega (arith, c.0, longer)) eq
                (fix_tail-Fixed b1 ts copy.2
                  (Chain-weaken (t.offset + t.size) b.offset ts (omega (arith, c.0)) c.2)))
      ]
    ]
