-- ===== src/Util/Cache/Bound.antt =====
-- util/Cache.h with util/CacheCapacityHelper.h.
use oasys.Base.{
  ℕ, ◌-◌, ◌^◌, ◌≤◌, ◌<◌, true, false, some, ◌==◌, ◌≡◌, sym, ap, ◌∙◌, arith, inl, inr, ◌⊎◌, find,
  length, ==_cases, some_injective, subst, false≢true,
}
use oasys.Util.Cache.{Entry, Cache, capacity_helper, add_entry, put_and_pin}
use oasys.Util.Cache.Lookup.{length-append_one, find-append_other}
use oasys.Util.Cache.Accounts.{capacity_accounts, capacity_accounts-Counts}
use oasys.Util.Cache.Room.{Coherent, Put, put_and_pin-Put}

module _ {V : Type 0} (capacity k : ℕ) (v : V) (c c' : Cache (capacity_helper V)) where
  all_pinned :
      (c1 : Cache (capacity_helper V))
      → Put (capacity_accounts V capacity) k v c (add_entry k v c1)
      → ((i : ℕ) (e : Entry V) → find i c1.entries ≡ some e → (e.pin_count == 0) ≡ false)
      → (i : ℕ) (e : Entry V) → find i (add_entry k v c1).entries ≡ some e
      → (e.pin_count == 0) ≡ false
  all_pinned c1 p others i e f = elim (==_cases i k) [
    | inl g ↦
        let new =
          some_injective (sym f ∙ ap (λ x. find x (add_entry k v c1).entries) g ∙ p.added) in
        ap (λ x. x.pin_count == 0) new
    | inr g ↦
        others i e
          (sym (find-append_other i k (record { val = v; pin_count = 1 }) c1.entries g) ∙ f)
  ]

  -- A put_and_pin leaves no more entries than the capacity of the helper, or every entry is pinned. Before
  -- it there are less than 2 ^ 64 - 1 entries, which are those that the helper has counted.
  pub put_and_pin-bound :
      Coherent (capacity_accounts V capacity) c
      → length c.entries < 2 ^ 64 - 1
      → put_and_pin k v c ≡ some (true, c')
      → (length c'.entries ≤ capacity)
        ⊎ ((i : ℕ) (e : Entry V) → find i c'.entries ≡ some e → (e.pin_count == 0) ≡ false)
  put_and_pin-bound r less done = elim (put_and_pin-Put (capacity_accounts V capacity) k v c r) [
    | inl (found, e) ↦ absurd (false≢true (ap (λ x. x.0) (some_injective (sym e ∙ done))))
    | inr (c2, e, p) ↦
        let same : c2 ≡ c' = ap (λ x. x.1) (some_injective (sym e ∙ done)) in
        let (c1, made, shorter, roomy) = p.roomy in
        let p1 : Put (capacity_accounts V capacity) k v c (add_entry k v c1) =
          subst (Put (capacity_accounts V capacity) k v c) made p in
        subst
          (λ x.
            (length x.entries ≤ capacity)
            ⊎ ((i : ℕ) (e : Entry V) → find i x.entries ≡ some e → (e.pin_count == 0) ≡ false))
          (sym made ∙ same)
          (let counts =
              (capacity_accounts-Counts V capacity (add_entry k v c1).helper
                  (add_entry k v c1).entries).0
                p1.coherent.held in
            elim roomy [
              | inl fits ↦ inl (
                  ground (
                    arith,
                    fits,
                    counts.0,
                    counts.1,
                    shorter,
                    less,
                    length-append_one k (record { val = v; pin_count = 1 }) c1.entries,
                  ))
              | inr others ↦ inr (all_pinned c1 p1 others)
            ])
  ]
