-- ===== src/Util/InitSequencer/Edges.antt =====
-- The backward edges and the steps without dependencies of InitSequencer::topo_sort in
-- util/InitSequencer.cc.
use oasys.Base.{
  if◌then◌else◌, subst, ℕ, true, false, ◌&&◌, List, [], ◌∷◌, none, some, ◌==◌, ◌≡◌, refl, sym, ap,
  ◌∙◌, ◌⊎◌, inl, inr, arith, Table, Distinct, find, find-cons_self, find-cons_other, member,
  member-append, ==_cases, none≢some, some_injective, Bool-cases, length,
}
use oasys.Util.InitSequencer.{Step, deps_of, deps_or_none, copies, edges, roots}

member-copies : (y n m : ℕ) (ds : List ℕ) → member y (copies n m ds) ≡ ((y == m) && member n ds)
unfolding member copies
member-copies y n m [] = ground arith
member-copies y n m (d ∷ ds) = ground (arith, member-copies y n m ds)

pub deps_of-cons_self :
    (y : ℕ) (s : Step) (t : Table Step) → deps_of ((y, s) ∷ t) y ≡ s.dependencies
unfolding deps_of
deps_of-cons_self y s t = ap deps_or_none (find-cons_self y s t)

pub deps_of-cons_other :
    (y m : ℕ) (s : Step) (t : Table Step) → (y == m) ≡ false → deps_of ((m, s) ∷ t) y ≡ deps_of t y
unfolding deps_of
deps_of-cons_other y m s t h = ap deps_or_none (find-cons_other y m s t h)

pub deps_of-none : (t : Table Step) (y : ℕ) → find y t ≡ none → deps_of t y ≡ []
unfolding deps_of
deps_of-none t y h = ap deps_or_none h

pub deps_of-some :
    (t : Table Step) (y : ℕ) (s : Step) → find y t ≡ some s → deps_of t y ≡ s.dependencies
unfolding deps_of
deps_of-some t y s h = ap deps_or_none h

-- `y` is among the edges of `n` where `n` is among the dependencies of `y`.
pub member-edges :
    (t : Table Step) (y n : ℕ) → Distinct t → member y (edges t n) ≡ member n (deps_of t y)
unfolding edges member find deps_of
member-edges [] y n d = refl
member-edges ((m, s) ∷ t) y n d = elim (==_cases y m) [
  | inl h ↦
      let empty : find y t ≡ none = subst (λ u. find u t ≡ none) (sym h) d.0 in
      ground (
        arith,
        member-append y (copies n m s.dependencies) (edges t n),
        member-copies y n m s.dependencies,
        member-edges t y n d.1,
        ap (λ o. member n (deps_or_none o)) empty,
        h,
      )
  | inr h ↦ ground (
    arith,
    member-append y (copies n m s.dependencies) (edges t n),
    member-copies y n m s.dependencies,
    member-edges t y n d.1,
    h,
  )
]

pub roots-stack :
    (t : Table Step) (y : ℕ) (stack : List ℕ)
    → member y stack ≡ true
    → member y (roots t stack) ≡ true
unfolding roots member
roots-stack [] y stack h = h
roots-stack ((n, s) ∷ t) y stack h = elim (Bool-cases (length s.dependencies == 0)) [
  | inl e ↦ rw e (roots-stack t y (n ∷ stack) (ground (arith, h)))
  | inr e ↦ rw e (roots-stack t y stack h)
]

pub roots-root :
    (t : Table Step) (y : ℕ) (s : Step) (stack : List ℕ)
    → find y t ≡ some s
    → (length s.dependencies == 0) ≡ true
    → member y (roots t stack) ≡ true
unfolding roots find member
roots-root [] y s stack h e = cc
roots-root ((n, r) ∷ t) y s stack h e = elim (==_cases y n) [
  | inl g ↦
      let same_step : r ≡ s =
        some_injective (sym (find-cons_self n r t) ∙ ap (λ u. find u ((n, r) ∷ t)) (sym g) ∙ h) in
      rw (same_step, e) (roots-stack t y (n ∷ stack) (ground (arith, g)))
  | inr g ↦
      roots-root t y s (if length r.dependencies == 0 then n ∷ stack else stack)
        (sym (find-cons_other y n r t g) ∙ h) e
]

length-zero : (l : List ℕ) → (length l == 0) ≡ true → l ≡ []
length-zero [] h = refl
length-zero (x ∷ l) h = ground arith

pub roots-only :
    (t : Table Step) (y : ℕ) (stack : List ℕ)
    → Distinct t
    → member y (roots t stack) ≡ true
    → (member y stack ≡ true) ⊎ ((s : Step) × (find y t ≡ some s) × (s.dependencies ≡ []))
unfolding roots find member
roots-only [] y stack d h = inl h
roots-only ((n, r) ∷ t) y stack d h =
    elim (roots-only t y (if length r.dependencies == 0 then n ∷ stack else stack) d.1 h) [
      | inl w ↦ elim (Bool-cases (length r.dependencies == 0)) [
        | inl e ↦ elim (==_cases y n) [
          | inl g ↦ inr (
            r,
            ap (λ u. find u ((n, r) ∷ t)) g ∙ find-cons_self n r t,
            length-zero r.dependencies e,
          )
          | inr g ↦ inl (grind (arith, w, e, g))
        ]
        | inr e ↦ inl (grind (arith, w, e))
      ]
      | inr (s, e, z) ↦ elim (==_cases y n) [
        | inl g ↦ absurd (none≢some (sym d.0 ∙ ap (λ u. find u t) (sym g) ∙ e))
        | inr g ↦ inr (s, find-cons_other y n r t g ∙ e, z)
      ]
    ]
