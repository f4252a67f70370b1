-- ===== src/Util/SparseBitmap/Query.antt =====
-- util/SparseBitmap.tcc: is_set and num_set.
use oasys.Base.{
  ℕ, zero, suc, ◌+◌, ◌-◌, ◌%◌, ◌≤◌, ◌<◌, ◌≡◌, refl, ◌∙◌, Bool, false, List, [], ◌∷◌, ltb, leb,
  if◌then◌else◌, arith,
}
use oasys.Util.SparseBitmap.{int_mod, Range, num_set}
use oasys.Util.SparseBitmap.Compact.{covers, Above, IsValid}

pub covers_below : (lo : ℕ) (rs : List Range) (x : ℕ) → Above lo rs → x < lo → covers rs x ≡ false
unfolding covers
covers_below lo [] x a h = refl
covers_below lo (r ∷ rs) x a h = ground (arith, covers_below (r.end + 2) rs x)

-- How many numbers below `n` pass a test.
unfoldable pub count_below : ℕ → (ℕ → Bool) → ℕ
count_below zero p = 0
count_below (suc n) p = (if p n then 1 else 0) + count_below n p

-- No bit from `n` on is true.
abbrev pub EndsBelow : ℕ → List Range → Type 0
EndsBelow n [] = Unit {0}
EndsBelow n (r ∷ rs) = (r.end < n) × EndsBelow n rs

-- The bits below `n` of the first entry, and those of the others.
count_first :
    (n : ℕ) (r : Range) (rs : List Range)
    → r.start ≤ r.end
    → Above (r.end + 2) rs
    → count_below n (covers (r ∷ rs))
      ≡ count_below n (covers rs)
        + (if ltb n r.start then 0 else if leb n r.end then n - r.start else r.end + 1 - r.start)
unfolding count_below covers
count_first zero r rs h a = ground arith
count_first (suc n) r rs h a =
    ground (arith, covers_below (r.end + 2) rs n a, count_first n r rs h a)

count_nothing : (n : ℕ) → count_below n (covers []) ≡ 0
unfolding count_below covers
count_nothing zero = refl
count_nothing (suc n) = omega (arith, count_nothing n)

count_below-le : (n : ℕ) (p : ℕ → Bool) → count_below n p ≤ n
unfolding count_below
count_below-le zero p = omega arith
count_below-le (suc n) p = ground (arith, count_below-le n p)

num_set-count :
    (n ret lo : ℕ) (rs : List Range)
    → n < int_mod
    → Above lo rs
    → EndsBelow n rs
    → ret + count_below n (covers rs) < int_mod
    → num_set ret rs ≡ ret + count_below n (covers rs)
unfolding num_set
num_set-count n ret lo [] top a b h = omega (arith, count_nothing n)
num_set-count n ret lo (r ∷ rs) top a b h =
    let width = r.end + 1 - r.start in
    let c : count_below n (covers (r ∷ rs)) ≡ count_below n (covers rs) + width =
      ground (arith, count_first n r rs a.1 a.3) in
    let e : (ret + (r.end + int_mod - r.start + 1)) % int_mod ≡ ret + width = omega arith in
    rw e (num_set-count n (ret + width) (r.end + 2) rs top a.3 b.1 (omega arith) ∙ omega arith)

-- On a valid bitmap `num_set` counts the bits that are true.
pub num_set-count_below :
    (n : ℕ) (bitmap : List Range)
    → n < int_mod
    → IsValid bitmap
    → EndsBelow n bitmap
    → num_set 0 bitmap ≡ count_below n (covers bitmap)
num_set-count_below n bitmap top v b =
    let total = count_below-le n (covers bitmap) in
    num_set-count n 0 0 bitmap top v b (omega arith) ∙ omega arith
