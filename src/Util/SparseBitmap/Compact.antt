-- ===== src/Util/SparseBitmap/Compact.antt =====
-- util/SparseBitmap.tcc: the order of the entries, and the loops that join neighbours.
use oasys.Base.{
  ℕ, ◌+◌, ◌≤◌, ◌<◌, ◌≡◌, refl, ◌∙◌, Bool, false, ◌&&◌, ◌||◌, ◌⊎◌, List, [], ◌∷◌, ltb, leb,
  Bool-cases, inl, inr, arith,
}
use oasys.Util.SparseBitmap.{int_mod, dec, Range, range, compact_right, compact_left, rewind}

abbrev pub in_range : Range → ℕ → Bool
in_range r x = leb r.start x && leb x r.end

-- The bits that are true, bit by bit.
unfoldable pub covers : List Range → ℕ → Bool
covers [] x = false
covers (r ∷ rs) x = in_range r x || covers rs x

-- From `lo` on: the entries are in order, none touches the next, and none reaches the top bit.
abbrev pub Above : ℕ → List Range → Type 0
Above lo [] = Unit {0}
Above lo (r ∷ rs) =
    (lo ≤ r.start) × (r.start ≤ r.end) × (r.end + 1 < int_mod) × Above (r.end + 2) rs

-- The same of entries in reverse, each with a gap to the next and to `hi`.
abbrev pub Below : ℕ → List Range → Type 0
Below hi [] = Unit {0}
Below hi (r ∷ rs) = (r.end + 1 < hi) × (r.start ≤ r.end) × (r.end + 1 < int_mod) × Below r.start rs

abbrev pub IsValid : List Range → Type 0
IsValid bitmap = Above 0 bitmap

pub Above-mono : (hi lo : ℕ) (rs : List Range) → lo ≤ hi → Above hi rs → Above lo rs
Above-mono hi lo [] h a = tt
Above-mono hi lo (r ∷ rs) h a = (omega arith, a.1, a.2, a.3)

pub Below-mono : (lo hi : ℕ) (rs : List Range) → lo ≤ hi → Below lo rs → Below hi rs
Below-mono lo hi [] h b = tt
Below-mono lo hi (r ∷ rs) h b = (omega arith, b.1, b.2, b.3)

pub covers-rewind :
    (before after : List Range) (x : ℕ)
    → covers (rewind before after) x ≡ (covers before x || covers after x)
unfolding covers rewind
covers-rewind [] after x = refl
covers-rewind (r ∷ before) after x = ground (arith, covers-rewind before (r ∷ after) x)

pub rewind-Above :
    (before after : List Range) (hi : ℕ)
    → Below hi before
    → Above hi after
    → Above 0 (rewind before after)
unfolding rewind
rewind-Above [] after hi b a = Above-mono hi 0 after (omega arith) a
rewind-Above (r ∷ before) after hi b a =
    rewind-Above before (r ∷ after) r.start b.3
      (omega arith, b.1, b.2, Above-mono hi (r.end + 2) after (omega arith) a)

-- Joining to the right keeps the bits and leaves a gap.
pub compact_right-Above :
    (i : Range) (after : List Range) (lo : ℕ)
    → i.start ≤ i.end
    → i.end + 1 < int_mod
    → i.start ≤ lo
    → 0 < lo
    → Above lo after
    → let (i', after') = compact_right i after in
      (i'.start ≡ i.start) × (i.end ≤ i'.end) × (i'.end + 1 < int_mod) × Above (i'.end + 2) after'
unfolding compact_right
compact_right-Above i [] lo h top h' pos a = (refl, omega arith, top, tt)
compact_right-Above i (j ∷ after) lo h top h' pos a = elim (Bool-cases (leb (dec j.start) i.end)) [
  | inl e ↦ rw e (elim (Bool-cases (ltb i.end j.end)) [
    | inl f ↦
        let p =
          compact_right-Above (range i.start j.end) after (j.end + 2) (omega arith) a.2
            (omega arith) (omega arith) a.3 in
        rw f (p.0, (ground (arith, p.1)), p.2, p.3)
    | inr f ↦ rw f (compact_right-Above i after (j.end + 2) h top (omega arith) (omega arith) a.3)
  ])
  | inr e ↦ rw e (refl, omega arith, top, (ground arith, a.1, a.2, a.3))
]

pub covers-compact_right :
    (i : Range) (after : List Range) (lo : ℕ) (x : ℕ)
    → i.start ≤ i.end
    → i.start ≤ lo
    → 0 < lo
    → Above lo after
    → let (i', after') = compact_right i after in covers (i' ∷ after') x ≡ covers (i ∷ after) x
unfolding compact_right covers
covers-compact_right i [] lo x h h' pos a = refl
covers-compact_right i (j ∷ after) lo x h h' pos a = elim (Bool-cases (leb (dec j.start) i.end)) [
  | inl e ↦ rw e (elim (Bool-cases (ltb i.end j.end)) [
    | inl f ↦ rw f (
        covers-compact_right (range i.start j.end) after (j.end + 2) x (omega arith) (omega arith)
          (omega arith) a.3
        ∙ ground arith)
    | inr f ↦ rw f (
        covers-compact_right i after (j.end + 2) x h (omega arith) (omega arith) a.3 ∙ ground arith)
  ])
  | inr e ↦ rw e
]

-- So does joining to the left, where no entry reaches further than `i` does. At the start 0 the
-- test `j->end_ >= i->start_ - 1` wraps, so there no entry may stand before `i`.
pub compact_left-Below :
    (before : List Range) (i : Range) (hi : ℕ)
    → i.start ≤ i.end
    → i.end + 1 < int_mod
    → hi ≤ i.end + 2
    → (0 < i.start) ⊎ Below i.start before
    → Below hi before
    → let (before', i') = compact_left before i in
      (i'.end ≡ i.end) × (i'.start ≤ i'.end) × Below i'.start before'
unfolding compact_left
compact_left-Below [] i hi h top h' pos b = (refl, h, tt)
compact_left-Below (j ∷ before) i hi h top h' pos b =
    let g : ltb i.end j.end ≡ false = ground arith in
    elim (Bool-cases (leb (dec i.start) j.end)) [
      | inl e ↦
          rw (e, g)
            (elim (Bool-cases (ltb j.start i.start)) [
              | inl f ↦ rw f (
                  compact_left-Below before (range j.start i.end) j.start (omega arith) top
                    (omega arith) (inr b.3) b.3)
              | inr f ↦
                  rw f (
                    compact_left-Below before i j.start h top (omega arith) (inl (ground arith))
                      b.3)
            ])
      | inr e ↦ rw e (refl, h, (ground arith, b.1, b.2, b.3))
    ]

pub covers-compact_left :
    (before : List Range) (i : Range) (hi x : ℕ)
    → i.start ≤ i.end
    → i.end + 1 < int_mod
    → hi ≤ i.end + 2
    → (0 < i.start) ⊎ Below i.start before
    → Below hi before
    → let (before', i') = compact_left before i in
      (covers before' x || in_range i' x) ≡ (covers before x || in_range i x)
unfolding compact_left covers
covers-compact_left [] i hi x h top h' pos b = refl
covers-compact_left (j ∷ before) i hi x h top h' pos b =
    let g : ltb i.end j.end ≡ false = ground arith in
    elim (Bool-cases (leb (dec i.start) j.end)) [
      | inl e ↦
          rw (e, g)
            (elim (Bool-cases (ltb j.start i.start)) [
              | inl f ↦ rw f (
                  covers-compact_left before (range j.start i.end) j.start x (omega arith) top
                    (omega arith) (inr b.3) b.3
                  ∙ ground arith)
              | inr f ↦ rw f (
                  covers-compact_left before i j.start x h top (omega arith) (inl (ground arith))
                    b.3
                  ∙ ground arith)
            ])
      | inr e ↦ rw e
    ]
