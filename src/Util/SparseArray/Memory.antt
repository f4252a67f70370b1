-- ===== src/Util/SparseArray/Memory.antt =====
-- Lists of elements that are read, copied into and resized, for util/SparseArray.h.
use oasys.Base.{
  ℕ, zero, suc, ◌+◌, ◌-◌, ◌≤◌, ◌<◌, ◌&&◌, List, [], ◌∷◌, some, ltb, leb, ◌==◌, if◌then◌else◌, ◌>>=◌,
  length, ◌≡◌, refl, ap, ◌∙◌, arith, inl, inr, ==_cases, Bool-cases,
}
use oasys.Util.SparseArray.{nth, write_nth, copy_into, resize}

module _ {V : Type 0} where
  nth-first :
      (w v : V) (l : List V) (j : ℕ) → nth j (w ∷ l) ≡ (if j == 0 then some w else nth j (v ∷ l))
  unfolding nth
  nth-first w v l zero = refl
  nth-first w v l (suc j) = ground arith

  nth-rest :
      (i : ℕ) (w v : V) (l r : List V)
      → ((j : ℕ) → nth j r ≡ (if j == i then some w else nth j l))
      → (j : ℕ) → nth j (v ∷ r) ≡ (if j == suc i then some w else nth j (v ∷ l))
  unfolding nth
  nth-rest i w v l r h zero = ground arith
  nth-rest i w v l r h (suc j) = ground (arith, h j)

  nth-cons : (v : V) (vs : List V) (k m : ℕ) → k ≡ suc m → nth k (v ∷ vs) ≡ nth m vs
  unfolding nth
  nth-cons v vs k m h = ap (λ i. nth i (v ∷ vs)) h

  write_nth-Written :
      (i : ℕ) (w : V) (l : List V)
      → i < length l
      → (r : List V) × (write_nth i w l ≡ some r)
        × (length r ≡ length l)
        × ((j : ℕ) → nth j r ≡ (if j == i then some w else nth j l))
  unfolding write_nth nth
  write_nth-Written i w [] h = absurd (omega arith)
  write_nth-Written zero w (v ∷ l) h = (w ∷ l, refl, refl, nth-first w v l)
  write_nth-Written (suc i) w (v ∷ l) h =
      let r = write_nth-Written i w l (omega arith) in
      (v ∷ r.0, ap (λ o. o >>= λ x. some (v ∷ x)) r.1, ap suc r.2, nth-rest i w v l r.0 r.3)

  -- Copied elements stand behind each other.
  pub copy_into-Copied :
      (i : ℕ) (vs l : List V)
      → i + length vs ≤ length l
      → (r : List V) × (copy_into i vs l ≡ some r)
        × (length r ≡ length l)
        × ((j : ℕ)
            → nth j r ≡ (if leb i j && ltb j (i + length vs) then nth (j - i) vs else nth j l))
  unfolding copy_into nth
  copy_into-Copied i [] l h = (l, refl, refl, λ j. ground arith)
  copy_into-Copied i (v ∷ vs) l h =
      let r = write_nth-Written i v l (omega arith) in
      let more = copy_into-Copied (i + 1) vs r.0 (omega (arith, r.2)) in
      (
        more.0,
        ap (λ o. o >>= copy_into (i + 1) vs) r.1 ∙ more.1,
        more.2 ∙ r.2,
        λ j. elim (==_cases j i) [
          | inl e ↦
              let start : j - i ≡ 0 = omega arith in
              let first : nth (j - i) (v ∷ vs) ≡ some v = ap (λ k. nth k (v ∷ vs)) start in
              ground (arith, more.3 j, r.3 j, first, e)
          | inr e ↦ elim (Bool-cases (ltb i j)) [
            | inl g ↦
                let rest : nth (j - i) (v ∷ vs) ≡ nth (j - (i + 1)) vs =
                  nth-cons v vs (j - i) (j - (i + 1)) (ground (arith, g)) in
                ground (arith, more.3 j, r.3 j, rest, e, g)
            | inr g ↦ ground (arith, more.3 j, r.3 j, e, g)
          ]
        ],
      )

  pub length-resize : (junk : V) (n : ℕ) (l : List V) → length (resize junk n l) ≡ n
  unfolding resize
  length-resize junk zero l = refl
  length-resize junk (suc n) [] = ap suc (length-resize junk n [])
  length-resize junk (suc n) (v ∷ l) = ap suc (length-resize junk n l)

  pub nth-resize :
      (junk : V) (n j : ℕ) (l : List V) → j < n → j < length l → nth j (resize junk n l) ≡ nth j l
  unfolding resize nth
  nth-resize junk zero j l h k = absurd (omega arith)
  nth-resize junk (suc n) j [] h k = absurd (omega arith)
  nth-resize junk (suc n) zero (v ∷ l) h k = refl
  nth-resize junk (suc n) (suc j) (v ∷ l) h k = nth-resize junk n j l (omega arith) (omega arith)

  pub nth-some : (i : ℕ) (l : List V) → i < length l → (v : V) × (nth i l ≡ some v)
  unfolding nth
  nth-some i [] h = absurd (omega arith)
  nth-some zero (v ∷ l) h = (v, refl)
  nth-some (suc i) (v ∷ l) h = nth-some i l (omega arith)
