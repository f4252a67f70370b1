-- ===== src/Util/InitSequencer/Extra.antt =====
-- InitSequencer::add_step, add_extra_dep and add_extra_deps of util/InitSequencer.cc.
use oasys.Base.{
  bind-some, ℕ, Bool, true, false, ◌&&◌, ◌||◌, List, [], ◌∷◌, ◌++◌, some, ◌==◌, ◌≡◌, refl, sym, ap,
  ◌∙◌, inl, inr, arith, Table, Distinct, find, update, member, member-append, subst, ==_cases,
  update-Distinct, find-update_self, find-update_other, some_injective, ◌>>=◌, is_some,
  is_some-some,
}
use oasys.Util.InitSequencer.{Step, deps_of, deps_or_none, add_dep, add_deps}
use oasys.Util.InitSequencer.Edges.{deps_of-some}

add_dep-Distinct :
    (d x : ℕ) (t t' : Table Step) → Distinct t → add_dep d x t ≡ some t' → Distinct t'
unfolding add_dep
add_dep-Distinct d x t t' k h =
    let r =
      bind-some (find d t)
        (λ r. find x t >>= λ s.
          some (update x (record s { dependencies = s.dependencies ++ d ∷ [] }) t))
        t' h in
    let s =
      bind-some (find x t)
        (λ s. some (update x (record s { dependencies = s.dependencies ++ d ∷ [] }) t)) t' r.2 in
    subst Distinct (some_injective s.2)
      (update-Distinct x (record s.0 { dependencies = s.0.dependencies ++ d ∷ [] }) t k)

pub add_deps-Distinct :
    (extra : List (ℕ × ℕ)) (t t' : Table Step)
    → Distinct t
    → add_deps extra t ≡ some t'
    → Distinct t'
unfolding add_deps
add_deps-Distinct [] t t' k h = subst Distinct (some_injective h) k
add_deps-Distinct ((d, x) ∷ extra) t t' k h =
    let r = bind-some (add_dep d x t) (add_deps extra) t' h in
    add_deps-Distinct extra r.0 t' (add_dep-Distinct d x t r.0 k r.1) r.2

-- `d` is a new dependency of `x`.
unfoldable pub named : ℕ → ℕ → List (ℕ × ℕ) → Bool
named d x [] = false
named d x ((e, y) ∷ extra) = let rest = named d x extra in (d == e) && (x == y) || rest

find-update-is_some :
    (y : ℕ) (s new : Step) (t : Table Step) (x : ℕ)
    → find y t ≡ some s
    → is_some (find x (update y new t)) ≡ is_some (find x t)
find-update-is_some y s new t x h = elim (==_cases x y) [
  | inl g ↦
      ap (λ u. is_some (find u (update y new t))) g
      ∙ ap is_some (find-update_self y new s t h)
      ∙ sym (ap is_some (ap (λ u. find u t) g ∙ h))
  | inr g ↦ ap is_some (find-update_other x y new t g)
]

deps_of-update_self :
    (y : ℕ) (s new : Step) (t : Table Step)
    → find y t ≡ some s
    → deps_of (update y new t) y ≡ new.dependencies
unfolding deps_of
deps_of-update_self y s new t h = ap deps_or_none (find-update_self y new s t h)

deps_of-update_other :
    (x y : ℕ) (new : Step) (t : Table Step)
    → (x == y) ≡ false
    → deps_of (update y new t) x ≡ deps_of t x
unfolding deps_of
deps_of-update_other x y new t h = ap deps_or_none (find-update_other x y new t h)

add_dep-deps :
    (e y : ℕ) (t : Table Step)
    → is_some (find e t) ≡ true
    → is_some (find y t) ≡ true
    → (t' : Table Step) × (add_dep e y t ≡ some t')
      × ((x : ℕ) → is_some (find x t') ≡ is_some (find x t))
      × ((d x : ℕ) → member d (deps_of t' x) ≡ (member d (deps_of t x) || (d == e) && (x == y)))
unfolding add_dep member
add_dep-deps e y t h g =
    let r = is_some-some (find e t) h in
    let s = is_some-some (find y t) g in
    let new : Step = record s.0 { dependencies = s.0.dependencies ++ e ∷ [] } in
    rw (r.1, s.1)
      (
        update y new t,
        refl,
        λ x. find-update-is_some y s.0 new t x s.1,
        λ d x. elim (==_cases x y) [
          | inl w ↦
              let left =
                ap (λ u. member d (deps_of (update y new t) u)) w
                ∙ ap (member d) (deps_of-update_self y s.0 new t s.1) in
              let right =
                ap (λ u. member d (deps_of t u)) w ∙ ap (member d) (deps_of-some t y s.0 s.1) in
              ground (arith, left, right, w, member-append d s.0.dependencies (e ∷ []))
          | inr w ↦ ground (arith, ap (member d) (deps_of-update_other x y new t w), w)
        ],
      )

-- From `t` to `t'` the steps stay, and each gets the dependencies that `extra` has for it.
abbrev pub Grows : List (ℕ × ℕ) → Table Step → Table Step → Type 0
Grows extra t t' =
    ((x : ℕ) → is_some (find x t') ≡ is_some (find x t))
    × ((d x : ℕ) → member d (deps_of t' x) ≡ (member d (deps_of t x) || named d x extra))

Grows-trans :
    (e y : ℕ) (extra : List (ℕ × ℕ)) (t t1 t' : Table Step)
    → Grows ((e, y) ∷ []) t t1
    → Grows extra t1 t'
    → Grows ((e, y) ∷ extra) t t'
unfolding named
Grows-trans e y extra t t1 t' g h = (λ x. h.0 x ∙ g.0 x, λ d x. ground (arith, h.1 d x, g.1 d x))

-- Extra dependencies among known steps are added without a failed assertion: afterwards the same steps
-- are known, and a step has its dependencies from before and those that were added for it, no others.
pub add_deps-deps :
    (extra : List (ℕ × ℕ)) (t : Table Step)
    → ((d x : ℕ) → named d x extra ≡ true → (is_some (find d t) && is_some (find x t)) ≡ true)
    → (t' : Table Step) × (add_deps extra t ≡ some t') × Grows extra t t'
unfolding add_deps named
add_deps-deps [] t h = (t, refl, (λ x. refl, λ d x. ground arith))
add_deps-deps ((e, y) ∷ extra) t h =
    let both = h e y (ground arith) in
    let r = add_dep-deps e y t (ground (arith, both)) (ground (arith, both)) in
    let more =
      add_deps-deps extra r.0 (λ d x w. ground (arith, r.2 d, r.2 x, h d x (ground (arith, w)))) in
    rw r.1 (
      more.0,
      more.1,
      Grows-trans e y extra t r.0 more.0 (r.2, λ d x. ground (arith, r.3 d x)) more.2,
    )
