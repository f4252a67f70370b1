-- ===== src/Util/SparseArray/Writes.antt =====
-- Several writes into a SparseArray of util/SparseArray.h, and its size.
use oasys.Base.{
  ℕ, ◌+◌, ◌-◌, ◌^◌, ◌≤◌, ◌<◌, List, [], ◌∷◌, Option, none, some, if◌then◌else◌, ◌>>=◌, length, ◌≡◌,
  refl, ap, ◌∙◌, arith,
}
use oasys.Util.SparseArray.{Block, nth, read, size, range_write}
use oasys.Util.SparseArray.Tail.{lookup, or_then, Chain}
use oasys.Util.SparseArray.Allocate.{target}
use oasys.Util.SparseArray.Write.{read-lookup, range_write-read}

module _ {V : Type 0} where
  size-reaches :
      (lo : ℕ) (b : Block V) (bs : List (Block V)) → Chain lo (b ∷ bs) → lo ≤ size (b ∷ bs)
  unfolding size
  size-reaches lo b [] c = omega (arith, c.0, c.1.fits)
  size-reaches lo b (d ∷ bs) c = omega (arith, c.0, size-reaches (b.offset + b.size) d bs c.2)

  lookup-beyond : (lo k : ℕ) (bs : List (Block V)) → Chain lo bs → size bs ≤ k → lookup bs k ≡ none
  unfolding size lookup
  lookup-beyond lo k [] c h = refl
  lookup-beyond lo k (b ∷ []) c h = ground (arith, c.1.fits)
  lookup-beyond lo k (b ∷ d ∷ bs) c h =
      let later = lookup-beyond (b.offset + b.size) k (d ∷ bs) c.2 h in
      ground (arith, later, size-reaches (b.offset + b.size) d bs c.2)

  -- Each write is its offset and its elements.
  unfoldable pub write_all : V → V → List (ℕ × List V) → List (Block V) → Option (List (Block V))
  write_all zeros junk [] bs = some bs
  write_all zeros junk ((offset, vs) ∷ ws) bs =
      range_write 1 zeros junk offset vs bs >>= write_all zeros junk ws

  -- The writes on an array without blocks, as a function of the address.
  unfoldable pub written_all : List (ℕ × List V) → (ℕ → Option V) → ℕ → Option V
  written_all [] m = m
  written_all ((offset, vs) ∷ ws) m =
      written_all ws (λ k. if target offset (length vs) k then nth (k - offset) vs else m k)

  abbrev pub AllFit : List (ℕ × List V) → Type 0
  AllFit [] = Unit {0}
  AllFit ((offset, vs) ∷ ws) = (offset + length vs < 2 ^ 64) × AllFit ws

  module _ (zeros junk default : V) where
    writes_on :
        (ws : List (ℕ × List V)) (bs : List (Block V)) (m : ℕ → Option V)
        → AllFit ws
        → Chain 0 bs
        → ((k : ℕ) → read default bs k ≡ m k)
        → (bs' : List (Block V)) × (write_all zeros junk ws bs ≡ some bs')
          × Chain 0 bs'
          × ((k : ℕ) → read default bs' k ≡ written_all ws m k)
    unfolding write_all written_all
    writes_on [] bs m f c same = (bs, refl, c, same)
    writes_on ((offset, vs) ∷ ws) bs m f c same =
        let (b1, e, c1, eq) = range_write-read zeros junk default offset vs bs f.0 c in
        let more =
          writes_on ws b1 (λ k. if target offset (length vs) k then nth (k - offset) vs else m k)
            f.1 c1
            (λ k.
              eq k
              ∙ ap (λ o. if target offset (length vs) k then nth (k - offset) vs else o)
                  (same k)) in
        (more.0, ap (λ o. o >>= write_all zeros junk ws) e ∙ more.1, more.2, more.3)

    -- With elements of one byte, range_writes into an empty array within the addresses end, and leave blocks
    -- that do not overlap, in ascending order. operator[] then gives at each address what the last write of
    -- it has put there, the default where there was none, and only the default from size on.
    pub write_all-read :
        (ws : List (ℕ × List V))
        → AllFit ws
        → (bs : List (Block V)) × (write_all zeros junk ws [] ≡ some bs)
          × Chain 0 bs
          × ((k : ℕ) → read default bs k ≡ written_all ws (λ i. some default) k)
          × ((k : ℕ) → size bs ≤ k → read default bs k ≡ some default)
    unfolding read
    write_all-read ws f =
        let (bs, e, c, eq) = writes_on ws [] (λ i. some default) f tt (λ k. refl) in
        (
          bs,
          e,
          c,
          eq,
          λ k h.
              read-lookup default 0 bs k c
              ∙ ap (λ o. or_then o (some default)) (lookup-beyond 0 k bs c h),
        )
