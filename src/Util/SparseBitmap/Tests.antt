-- ===== src/Util/SparseBitmap/Tests.antt =====
-- Concrete runs of util/SparseBitmap.tcc, and the theorems at concrete inputs.
use oasys.Base.{ℕ, ◌+◌, ◌≡◌, refl, List, [], ◌∷◌, some, arith, ◌||◌}
use oasys.Util.SparseBitmap.{
  Range, range, find_slot, compact_right, compact_left, rewind, validate_loop, validate, compact,
  set, clear_loop, clear, is_set, num_contiguous, num_set,
}
use oasys.Util.SparseBitmap.Compact.{in_range, covers, IsValid}
use oasys.Util.SparseBitmap.Set.{set-covers}
use oasys.Util.SparseBitmap.Clear.{splits, left_over, clear-left_over}
use oasys.Util.SparseBitmap.Query.{count_below, num_set-count_below}

program : Unit {0}
unfolding find_slot compact_right compact_left rewind validate_loop validate compact set clear_loop
    clear is_set num_contiguous num_set covers splits left_over count_below
program = tt

abbrev bitmap : List Range
bitmap = range 2 3 ∷ range 6 9 ∷ range 12 12 ∷ []

-- The range closes the gap between the first two entries.
joined : set 4 2 bitmap ≡ some (range 2 9 ∷ range 12 12 ∷ [])
unfolding program
joined = refl

over_all : set 5 20 bitmap ≡ some (range 2 3 ∷ range 5 24 ∷ [])
unfolding program
over_all = refl

-- Bit 7 stays true.
split : clear 10 1 7 2 bitmap ≡ some (range 2 3 ∷ range 6 7 ∷ range 9 9 ∷ range 12 12 ∷ [])
unfolding program
split = refl

shrunk : clear 10 0 3 4 bitmap ≡ some (range 2 2 ∷ range 7 9 ∷ range 12 12 ∷ [])
unfolding program
shrunk = refl

counts : num_contiguous bitmap + num_set 0 bitmap ≡ 9
unfolding program
counts = refl

bitmap-IsValid : IsValid bitmap
bitmap-IsValid = (
  omega arith,
  omega arith,
  omega arith,
  (omega arith, omega arith, omega arith, (omega arith, omega arith, omega arith, tt)),
)

set-covers_example :
    (result : List Range) × (set 4 2 bitmap ≡ some result)
    × IsValid result
    × ((x : ℕ) → covers result x ≡ (in_range (range 4 5) x || covers bitmap x))
set-covers_example = set-covers 4 2 bitmap bitmap-IsValid (omega arith) (omega arith) (omega arith)

clear-left_over_example :
    (result : List Range) × (clear 10 1 7 2 bitmap ≡ some result)
    × ((x : ℕ) → covers result x ≡ left_over 7 8 bitmap x)
clear-left_over_example =
    clear-left_over 10 1 7 2 bitmap (omega arith) (omega arith) (omega arith) bitmap-IsValid
      (λ h. omega arith)

num_set-count_below_example : num_set 0 bitmap ≡ count_below 20 (covers bitmap)
num_set-count_below_example =
    num_set-count_below 20 bitmap (omega arith) bitmap-IsValid
      (omega arith, (omega arith, (omega arith, tt)))
