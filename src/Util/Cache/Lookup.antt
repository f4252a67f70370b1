-- ===== src/Util/Cache/Lookup.antt =====
-- What the entries of util/Cache.h are after one has been added, moved or evicted.
use oasys.Base.{
  ℕ, suc, false, [], ◌∷◌, ◌++◌, none, some, ◌==◌, if◌then◌else◌, ◌≡◌, refl, sym, ap, ◌∙◌, arith,
  inl, inr, Table, Distinct, find, erase, length, find-cons_self, find-cons_other, find-erase_self,
  erase-Distinct, Bool-cases, ==_cases, none≢some, some_injective, length-append, subst,
}
use oasys.Util.Cache.{Entry, first_unpinned, move_to_back}

module _ {ℓ} {W : Type ℓ} where
  pub find-append_other :
      (i k : ℕ) (w : W) (t : Table W) → (i == k) ≡ false → find i (t ++ (k, w) ∷ []) ≡ find i t
  unfolding find
  find-append_other i k w [] h = rw h refl
  find-append_other i k w ((j, u) ∷ t) h =
      ap (λ o. if i == j then some u else o) (find-append_other i k w t h)

  pub find-append_self :
      (k : ℕ) (w : W) (t : Table W) → find k t ≡ none → find k (t ++ (k, w) ∷ []) ≡ some w
  unfolding find
  find-append_self k w [] h = ground arith
  find-append_self k w ((j, u) ∷ t) h = elim (Bool-cases (k == j)) [
    | inl e ↦ absurd (none≢some (sym h ∙ ap (λ b. if b then some u else find k t) e))
    | inr e ↦
        ap (λ b. if b then some u else find k (t ++ (k, w) ∷ [])) e
        ∙ find-append_self k w t (sym (ap (λ b. if b then some u else find k t) e) ∙ h)
  ]

  pub append-Distinct :
      (k : ℕ) (w : W) (t : Table W) → find k t ≡ none → Distinct t → Distinct (t ++ (k, w) ∷ [])
  unfolding find
  append-Distinct k w [] h d = (refl, tt)
  append-Distinct k w ((j, u) ∷ t) h d = elim (Bool-cases (k == j)) [
    | inl e ↦ absurd (none≢some (sym h ∙ ap (λ b. if b then some u else find k t) e))
    | inr e ↦ (
      find-append_other j k w t (ground (arith, e)) ∙ d.0,
      append-Distinct k w t (sym (ap (λ b. if b then some u else find k t) e) ∙ h) d.1,
    )
  ]

  pub length-append_one : (k : ℕ) (w : W) (t : Table W) → length (t ++ (k, w) ∷ []) ≡ suc (length t)
  length-append_one k w t = omega (arith, length-append t ((k, w) ∷ []))

module _ {V : Type 0} where
  pub move_to_back-Distinct :
      (k : ℕ) (e : Entry V) (t : Table (Entry V)) → Distinct t → Distinct (move_to_back k e t)
  unfolding move_to_back
  move_to_back-Distinct k e t d =
      append-Distinct k e (erase k t) (find-erase_self k t d) (erase-Distinct k t d)

  -- An entry that is found is not pinned.
  pub first_unpinned-some :
      (t : Table (Entry V)) (k : ℕ) (e : Entry V)
      → Distinct t
      → first_unpinned t ≡ some (k, e)
      → (find k t ≡ some e) × (e.pin_count ≡ 0)
  unfolding first_unpinned find
  first_unpinned-some [] k e d h = cc
  first_unpinned-some ((j, u) ∷ t) k e d h = elim (Bool-cases (u.pin_count == 0)) [
    | inl z ↦
        let p =
          some_injective (sym (ap (λ b. if b then some (j, u) else first_unpinned t) z) ∙ h) in
        subst (λ x. (find x.0 ((j, u) ∷ t) ≡ some x.1) × (x.1.pin_count ≡ 0)) p
          (find-cons_self j u t, ground (arith, z))
    | inr z ↦
        let r =
          first_unpinned-some t k e d.1
            (sym (ap (λ b. if b then some (j, u) else first_unpinned t) z) ∙ h) in
        elim (==_cases k j) [
          | inl g ↦ absurd (none≢some (sym d.0 ∙ ap (λ i. find i t) (sym g) ∙ r.0))
          | inr g ↦ (find-cons_other k j u t g ∙ r.0, r.1)
        ]
  ]

  -- Where none is found, all are pinned.
  pub first_unpinned-none :
      (t : Table (Entry V))
      → first_unpinned t ≡ none
      → (i : ℕ) (e : Entry V) → find i t ≡ some e
      → (e.pin_count == 0) ≡ false
  unfolding first_unpinned find
  first_unpinned-none [] h i e f = cc
  first_unpinned-none ((j, u) ∷ t) h i e f = elim (Bool-cases (u.pin_count == 0)) [
    | inl z ↦
        absurd
          (none≢some {a = (j, u)} (sym h ∙ ap (λ b. if b then some (j, u) else first_unpinned t) z))
    | inr z ↦ elim (Bool-cases (i == j)) [
      | inl g ↦
          ap (λ x. x.pin_count == 0)
            (some_injective (sym f ∙ ap (λ b. if b then some u else find i t) g))
          ∙ z
      | inr g ↦
          first_unpinned-none t (sym (ap (λ b. if b then some (j, u) else first_unpinned t) z) ∙ h)
            i e (sym (ap (λ b. if b then some u else find i t) g) ∙ f)
    ]
  ]
