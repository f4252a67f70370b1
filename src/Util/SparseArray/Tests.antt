-- ===== src/Util/SparseArray/Tests.antt =====
-- Runs of util/SparseArray.h.
use oasys.Base.{ℕ, ◌≤◌, List, [], ◌∷◌, none, some, ◌≡◌, refl, arith, replicate}
use oasys.Util.SparseArray.{
  Block, write_nth, copy_into, resize, read, size, fix_tail, allocate, range_write,
}
use oasys.Util.SparseArray.Tail.{Chain}
use oasys.Util.SparseArray.Writes.{write_all, written_all, write_all-read}

-- Two blocks, and a write that joins them.
abbrev three_writes : List (ℕ × List ℕ)
three_writes = (0, 1 ∷ 2 ∷ []) ∷ (4, 3 ∷ 4 ∷ 5 ∷ []) ∷ (1, 6 ∷ 7 ∷ 8 ∷ 9 ∷ []) ∷ []

joined :
    write_all 0 77 three_writes []
    ≡ some (record { offset = 0; size = 7; contents = 1 ∷ 6 ∷ 7 ∷ 8 ∷ 9 ∷ 4 ∷ 5 ∷ [] } ∷ [])
unfolding write_all range_write allocate fix_tail resize copy_into write_nth replicate
joined = refl

write_all-read_example :
    (bs : List (Block ℕ)) × (write_all 0 77 three_writes [] ≡ some bs)
    × Chain 0 bs
    × ((k : ℕ) → read 0 bs k ≡ written_all three_writes (λ i. some 0) k)
    × ((k : ℕ) → size bs ≤ k → read 0 bs k ≡ some 0)
write_all-read_example =
    write_all-read 0 77 0 three_writes (omega arith, (omega arith, (omega arith, tt)))

-- With elements of four bytes, the realloc of the tail gets a quarter of the room.
four_bytes :
    range_write {V = ℕ} 4 0 77 0
      (1 ∷ 2 ∷ [])
      (record { offset = 1; size = 3; contents = 3 ∷ 4 ∷ 5 ∷ [] } ∷ [])
    ≡ none
unfolding range_write allocate fix_tail resize copy_into write_nth replicate
four_bytes = refl
