-- ===== src/Util/SparseBitmap/Clear.antt =====
-- util/SparseBitmap.tcc: SparseBitmap::clear(start, len).
use oasys.Base.{
  ℕ, zero, suc, ◌+◌, ◌-◌, ◌*◌, ◌≤◌, ◌<◌, ◌≡◌, refl, ap, Bool, true, false, not, ◌&&◌, ◌||◌, List,
  [], ◌∷◌, ltb, leb, ◌==◌, if◌then◌else◌, Bool-cases, inl, inr, arith, some, none, length,
}
use oasys.Util.SparseBitmap.{int_mod, inc, dec, last_of, Range, range, keep, clear_loop, clear}
use oasys.Util.SparseBitmap.Compact.{in_range, covers, Above, IsValid}

-- An entry reaches past the range on both sides.
unfoldable pub splits : ℕ → ℕ → List Range → Bool
splits start end [] = false
splits start end (r ∷ rs) = ltb r.start start && ltb end r.end || splits start end rs

splits_reach : (start end : ℕ) (r : Range) → splits start end (r ∷ []) ≡ true → end < r.end
unfolding splits
splits_reach start end r h = ground arith

-- The bits that `clear` leaves: those outside the range, and its first one where an entry is split.
unfoldable pub left_over : ℕ → ℕ → List Range → ℕ → Bool
unfolding splits covers
left_over start end bitmap x =
    covers bitmap x && not (in_range (range start end) x) || x == start && splits start end bitmap

inc-next : (x : ℕ) → x + 1 < int_mod → inc x ≡ x + 1
inc-next x h = omega arith

dec-previous : (x : ℕ) → 0 < x → x < int_mod → dec x ≡ x - 1
dec-previous x h k = omega arith

module _ (start end : ℕ) (order : start ≤ end) (top : end + 1 < int_mod) where
  -- No entry that starts behind the range's first bit is split.
  splits-Above : (lo : ℕ) (rs : List Range) → start ≤ lo → Above lo rs → splits start end rs ≡ false
  unfolding splits
  splits-Above lo [] h a = refl
  splits-Above lo (r ∷ rs) h a =
      ground (arith, h, a.0, a.1, a.2, splits-Above (r.end + 2) rs (omega arith) a.3)

  -- The entry that a split inserts has its first bit cleared by the next turn.
  clear_loop_inserted :
      (fuel spare b : ℕ) (after : List Range)
      → end < b
      → clear_loop (suc fuel) spare start end (range end b ∷ after)
        ≡ keep (range (end + 1) b) (clear_loop fuel spare start end after)
  unfolding clear_loop
  clear_loop_inserted fuel spare b after h = ground arith

  -- One turn, in the cases that look no further than the entry and the rest.
  clear_turn :
      (fuel spare : ℕ) (r : Range) (rs : List Range)
      → (splits start end (r ∷ []) ≡ false)
      → clear_loop (suc fuel) spare start end (r ∷ rs) ≡ (
          let erased = clear_loop fuel (spare + 1) start end rs in
          let rest = clear_loop fuel spare start end rs in
          if leb start r.start && leb r.end end
          then erased
          else if leb start r.start && ltb end r.end && leb r.start end
          then keep (range (inc end) r.end) rest
          else if ltb r.start start && leb start r.end
          then keep (range r.start (dec start)) rest
          else keep r rest)
  unfolding clear_loop splits
  clear_turn fuel spare r rs h = ground arith

  clear_split :
      (fuel spare : ℕ) (r : Range) (rs : List Range)
      → splits start end (r ∷ []) ≡ true
      → 0 < spare
      → clear_loop (suc fuel) spare start end (r ∷ rs)
        ≡ keep (range r.start start) (clear_loop fuel (spare - 1) start end (range end r.end ∷ rs))
  unfolding clear_loop splits
  clear_split fuel spare r rs h room = ground arith

  clear_loop-left_over :
      (fuel spare lo : ℕ) (bitmap : List Range)
      → 2 * length bitmap < fuel
      → Above lo bitmap
      → (splits start end bitmap ≡ true → 0 < spare)
      → (result : List Range) × (clear_loop fuel spare start end bitmap ≡ some result)
        × ((x : ℕ) → covers result x ≡ left_over start end bitmap x)
  unfolding left_over splits
  clear_loop-left_over zero spare lo bitmap h a room = absurd (omega arith)
  clear_loop-left_over (suc fuel) spare lo [] h a room =
      ([], unfold clear_loop in refl, λ x. ground arith)
  clear_loop-left_over (suc zero) spare lo (r ∷ rs) h a room = absurd (omega arith)
  clear_loop-left_over (suc (suc fuel)) spare lo (r ∷ rs) h a room =
      elim (Bool-cases (splits start end (r ∷ []))) [
        | inl cut ↦
            let whole = splits-Above (r.end + 2) rs (ground (arith, cut)) a.3 in
            let (rest, e, c) =
              clear_loop-left_over fuel (spare - 1) (r.end + 2) rs (omega arith) a.3
                (λ k. absurd (ground (arith, whole, k))) in
            (
              range r.start start ∷ range (end + 1) r.end ∷ rest,
              rw (
                clear_split (suc fuel) spare r rs cut (room (ground (arith, cut))),
                clear_loop_inserted fuel (spare - 1) r.end rs (splits_reach start end r cut),
                e,
              ),
              λ x. ground (arith, cut, c x),
            )
        | inr cut ↦
            let later : splits start end rs ≡ true → 0 < spare = λ k. room (ground (arith, k)) in
            let (rest, e, c) =
              clear_loop-left_over (suc fuel) spare (r.end + 2) rs (omega arith) a.3 later in
            elim (Bool-cases (leb start r.start && leb r.end end)) [
              | inl f ↦
                  let (rest', e', c') =
                    clear_loop-left_over (suc fuel) (spare + 1) (r.end + 2) rs (omega arith) a.3
                      (λ k. omega arith) in
                  (
                    rest',
                    rw (clear_turn (suc fuel) spare r rs cut, f, e'),
                    λ x. ground (arith, cut, c' x),
                  )
              | inr f ↦ elim (Bool-cases (leb start r.start && ltb end r.end && leb r.start end)) [
                | inl g ↦ (
                  range (end + 1) r.end ∷ rest,
                  rw (clear_turn (suc fuel) spare r rs cut, f, g, e)
                      (ap (λ n. some (range n r.end ∷ rest)) (inc-next end top)),
                  λ x. ground (arith, cut, c x),
                )
                | inr g ↦ elim (Bool-cases (ltb r.start start && leb start r.end)) [
                  | inl k ↦ (
                    range r.start (start - 1) ∷ rest,
                    rw (clear_turn (suc fuel) spare r rs cut, f, g, k, e)
                        (ap (λ n. some (range r.start n ∷ rest))
                          (dec-previous start (ground arith) (omega arith))),
                    λ x. ground (arith, cut, c x),
                  )
                  | inr k ↦ (
                    r ∷ rest,
                    rw (clear_turn (suc fuel) spare r rs cut, f, g, k, e),
                    λ x. ground (arith, cut, c x),
                  )
                ]
              ]
            ]
      ]

-- On a valid bitmap, with a range that is not empty and ends below the top bit, fuel of more than
-- twice the number of entries, and, where an entry reaches past the range on both sides, room in
-- the vector's memory for one more, the loop of `clear` comes to its end, and the bits that are
-- true afterwards are those that were true outside of the range, and also the first bit of the
-- range where an entry reaches past it on both sides.
pub clear-left_over :
    (fuel spare start len : ℕ) (bitmap : List Range)
    → 2 * length bitmap < fuel
    → 0 < len
    → start + len < int_mod
    → IsValid bitmap
    → (splits start (start + len - 1) bitmap ≡ true → 0 < spare)
    → (result : List Range) × (clear fuel spare start len bitmap ≡ some result)
      × ((x : ℕ) → covers result x ≡ left_over start (start + len - 1) bitmap x)
unfolding clear
clear-left_over fuel spare start len bitmap enough some_bits top v room =
    let e : last_of start len ≡ start + len - 1 = omega arith in
    rw e (
      clear_loop-left_over start (start + len - 1) (omega arith) (omega arith) fuel spare 0 bitmap
        enough v room)

-- Without that room an entry that reaches past the range on both sides makes `clear` go on with an
-- iterator into memory that the insertion has left.
clear_full :
    (fuel start len : ℕ) (r : Range) (rs : List Range)
    → 0 < len
    → start + len < int_mod
    → splits start (start + len - 1) (r ∷ []) ≡ true
    → clear fuel 0 start len (r ∷ rs) ≡ none
unfolding clear clear_loop splits
clear_full zero start len r rs some_bits top cut = refl
clear_full (suc fuel) start len r rs some_bits top cut =
    let e : last_of start len ≡ start + len - 1 = omega arith in rw e (ground arith)
