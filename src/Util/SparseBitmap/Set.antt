-- ===== src/Util/SparseBitmap/Set.antt =====
-- util/SparseBitmap.tcc: SparseBitmap::set.
use oasys.Base.{
  ℕ, ◌+◌, ◌-◌, ◌==◌, false, ◌≤◌, ◌<◌, ◌≡◌, refl, ◌⊎◌, true, ◌&&◌, ◌||◌, List, [], ◌∷◌, ltb, leb,
  Bool-cases, inl, inr, arith, Option, some, none,
}
use oasys.Util.SparseBitmap.{int_mod, dec, inc, Range, range, find_slot}
use oasys.Util.SparseBitmap.{
  compact_right, compact_left, rewind, validate_loop, validate, compact, set, last_of,
}
use oasys.Util.SparseBitmap.Compact.{
  IsValid, covers-rewind, rewind-Above, compact_right-Above, covers-compact_right,
  compact_left-Below, covers-compact_left,
}
use oasys.Util.SparseBitmap.Compact.{in_range, covers, Above, Below, Below-mono}

-- The place that the first loop of `set` has found, for a bitmap that is the entries before it and
-- `rest`.
abbrev Placed : ℕ → ℕ → List Range → List Range → Option (List Range × Range × List Range) → Type 0
Placed start end before rest none =
    (x : ℕ) → in_range (range start end) x ≡ true → covers rest x ≡ true
Placed start end before rest (some (before', i, after)) =
    (hi : ℕ) × (lo : ℕ) × Below hi before'
    × (hi ≤ i.end + 2)
    × ((0 < i.start) ⊎ Below i.start before')
    × (i.start ≤ i.end)
    × (i.end + 1 < int_mod)
    × (i.start ≤ lo)
    × (0 < lo)
    × Above lo after
    × ((x : ℕ)
        → (covers before' x || (in_range i x || covers after x))
          ≡ (in_range (range start end) x || (covers before x || covers rest x)))

-- A range that the loop has passed stands before the place.
Placed-pass :
    (start end : ℕ) (r : Range) (before rs : List Range)
    (slot : Option (List Range × Range × List Range))
    → Placed start end (r ∷ before) rs slot
    → Placed start end before (r ∷ rs) slot
unfolding covers
Placed-pass start end r before rs none p = λ x m. ground (arith, p x m)
Placed-pass start end r before rs (some (before', i, after)) (hi, lo, b, h, q, o, t, l, z, a, c) =
    (hi, lo, b, h, q, o, t, l, z, a, λ x. ground (arith, c x))

module _ (start end : ℕ) (pos : 0 < start) (order : start ≤ end) (top : end + 1 < int_mod) where
  find_slot-Placed :
      (hi : ℕ) (before rest : List Range)
      → hi ≤ end + 2
      → Below hi before
      → Above hi rest
      → Placed start end before rest (find_slot start end before rest)
  unfolding find_slot covers
  find_slot-Placed hi before [] h b a =
      (hi, start, b, h, inl pos, order, top, omega arith, pos, tt, λ x. ground arith)
  find_slot-Placed hi before (r ∷ rs) h b a =
      elim (Bool-cases (leb r.start start && leb start (inc r.end))) [
        | inl e ↦ rw e (elim (Bool-cases (leb end r.end)) [
          | inl f ↦ rw f (λ x m. ground arith)
          | inr f ↦ rw f (
            hi,
            r.end + 2,
            b,
            omega arith,
            inr (Below-mono hi r.start before a.0 b),
            ground arith,
            top,
            omega arith,
            omega arith,
            a.3,
            λ x. ground arith,
          )
        ])
        | inr e ↦ rw e (elim (Bool-cases (leb (dec r.start) end && leb end r.end)) [
          | inl f ↦ rw f (elim (Bool-cases (leb r.start start)) [
            | inl g ↦ rw g (λ x m. ground arith)
            | inr g ↦ rw g (
              hi,
              r.end + 2,
              b,
              omega arith,
              inl pos,
              ground arith,
              a.2,
              ground arith,
              omega arith,
              a.3,
              λ x. ground arith,
            )
          ])
          | inr f ↦ rw f (elim (Bool-cases (ltb end r.start)) [
            | inl g ↦ rw g (
              hi,
              r.start,
              b,
              h,
              inl pos,
              order,
              top,
              ground arith,
              ground arith,
              (omega arith, a.1, a.2, a.3),
              λ x. ground arith,
            )
            | inr g ↦ rw g (
                Placed-pass start end r before rs (find_slot start end (r ∷ before) rs) (
                  find_slot-Placed (r.end + 2) (r ∷ before) rs (ground arith)
                    (omega arith, a.1, a.2, Below-mono hi r.start before a.0 b) a.3))
          ])
        ])
      ]

validate_loop-Above :
    (i : Range) (rs : List Range) → Above (i.end + 2) rs → validate_loop i rs ≡ true
unfolding validate_loop
validate_loop-Above i [] a = refl
validate_loop-Above i (j ∷ rs) a = ground (arith, validate_loop-Above j rs a.3)

validate-Above : (rs : List Range) → Above 0 rs → validate rs ≡ true
unfolding validate
validate-Above [] a = refl
validate-Above (r ∷ rs) a = ground (arith, validate_loop-Above r rs a.3)

-- The bitmap that `compact` makes of a place.
compacted : List Range → Option (List Range × Range × List Range) → List Range
compacted bitmap none = bitmap
compacted bitmap (some (before, i, after)) =
    let (i', after') = compact_right i after in
    let (before', i'') = compact_left before i' in rewind before' (i'' ∷ after')

module _ (start end : ℕ) (bitmap : List Range) where
  compacted-IsValid :
      (slot : Option (List Range × Range × List Range))
      → IsValid bitmap
      → Placed start end [] bitmap slot
      → IsValid (compacted bitmap slot)
  unfolding compacted
  compacted-IsValid none v p = v
  compacted-IsValid (some (before, i, after)) v (hi, lo, b, h, q, o, t, l, z, a, c) =
      let (i', after') = compact_right i after in
      let (e, wider, top, right) = compact_right-Above i after lo o t l z a in
      let q' : (0 < i'.start) ⊎ Below i'.start before = rw e q in
      let (f, order, left) = compact_left-Below before i' hi (omega arith) top (omega arith) q' b in
      rewind-Above _ _ _ left (omega arith, order, omega arith, rw f right)

  covers-compacted :
      (slot : Option (List Range × Range × List Range))
      → Placed start end [] bitmap slot
      → (x : ℕ)
      → covers (compacted bitmap slot) x ≡ (in_range (range start end) x || covers bitmap x)
  unfolding compacted covers
  covers-compacted none p x = elim (Bool-cases (in_range (range start end) x)) [
    | inl e ↦ rw (e, p x e)
    | inr e ↦ rw e
  ]
  covers-compacted (some (before, i, after)) (hi, lo, b, h, q, o, t, l, z, a, c) x =
      let (i', after') = compact_right i after in
      let (before', i'') = compact_left before i' in
      let (e, wider, top, right) = compact_right-Above i after lo o t l z a in
      let q' : (0 < i'.start) ⊎ Below i'.start before = rw e q in
      ground (
        arith,
        covers-compact_right i after lo x o l z a,
        covers-compact_left before i' hi x (omega arith) top (omega arith) q' b,
        covers-rewind before' (i'' ∷ after') x,
        c x,
      )

compact-compacted :
    (bitmap : List Range) (slot : Option (List Range × Range × List Range))
    → IsValid bitmap
    → IsValid (compacted bitmap slot)
    → compact bitmap slot ≡ some (compacted bitmap slot)
unfolding compact compacted
compact-compacted bitmap none v w = refl
compact-compacted bitmap (some (before, i, after)) v w = rw (validate-Above _ w)

module _ (start len : ℕ) (bitmap : List Range) where
  -- On a valid bitmap, for a range that starts above bit 0, is not empty and ends below the top bit,
  -- `set` passes its assertions, and the bits that are true afterwards are those of the range and
  -- those that were true before; the bitmap stays valid: no two of its entries overlap or touch.
  pub set-covers :
      IsValid bitmap
      → 0 < start
      → 0 < len
      → start + len < int_mod
      → (result : List Range) × (set start len bitmap ≡ some result)
        × IsValid result
        × ((x : ℕ)
            → covers result x ≡ (in_range (range start (start + len - 1)) x || covers bitmap x))
  unfolding set
  set-covers v pos some_bits top =
      let end = last_of start len in
      let e : end ≡ start + len - 1 = omega arith in
      let g : (len == 0) ≡ false = ground arith in
      let slot = find_slot start end [] bitmap in
      let placed =
        find_slot-Placed start end pos (omega arith) (omega arith) 0 [] bitmap (omega arith) tt v in
      let valid = compacted-IsValid start end bitmap slot v placed in
      (
        compacted bitmap slot,
        rw g (compact-compacted bitmap slot v valid),
        valid,
        λ x. rw (← e) (covers-compacted start end bitmap slot placed x),
      )

-- Of an unsigned type, a range from bit 0 over the only entry makes `set` fail its last assertion:
-- there the loop to the left compares with `0 - 1` and does not join the two.
pub set_from_zero :
    (r : Range) (len : ℕ)
    → 0 < r.start
    → r.start ≤ r.end
    → r.end + 1 < len
    → len < int_mod
    → set 0 len (r ∷ []) ≡ none
unfolding set find_slot compact compact_right compact_left rewind validate
set_from_zero r len pos order over top = ground arith
