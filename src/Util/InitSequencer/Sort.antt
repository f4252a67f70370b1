-- ===== src/Util/InitSequencer/Sort.antt =====
-- The std::sort of InitSequencer::run_steps in util/InitSequencer.cc.
use oasys.Base.{
  ℕ, ◌≤◌, true, ◌||◌, List, [], ◌∷◌, ◌==◌, ◌≡◌, refl, ap, inl, inr, arith, Table, find, member,
  ==_cases, Bool-cases, leb, false≢true, is_some,
}
use oasys.Util.InitSequencer.{Step, insert_by, sort_by}

-- No key is above one further left.
abbrev pub Sorted : (ℕ → ℕ) → List ℕ → Type 0
Sorted key [] = Unit {0}
Sorted key (n ∷ ns) = ((m : ℕ) → member m ns ≡ true → key m ≤ key n) × Sorted key ns

member-insert_by :
    (key : ℕ → ℕ) (x n : ℕ) (ns : List ℕ) → member x (insert_by key n ns) ≡ (x == n || member x ns)
unfolding insert_by member
member-insert_by key x n [] = refl
member-insert_by key x n (m ∷ ms) = ground (arith, member-insert_by key x n ms)

insert_by-Sorted :
    (key : ℕ → ℕ) (n : ℕ) (ns : List ℕ) → Sorted key ns → Sorted key (insert_by key n ns)
unfolding insert_by member
insert_by-Sorted key n [] s = (λ m w. absurd (false≢true w), tt)
insert_by-Sorted key n (m ∷ ms) s = elim (Bool-cases (leb (key m) (key n))) [
  | inl e ↦ rw e (
    λ x w. elim (==_cases x m) [
      | inl g ↦ ground (arith, e, ap key g)
      | inr g ↦ ground (arith, e, s.0 x, w, g)
    ],
    s,
  )
  | inr e ↦ rw e (
    λ x w. elim (==_cases x n) [
      | inl g ↦ ground (arith, e, ap key g)
      | inr g ↦ ground (arith, s.0 x, w, g, member-insert_by key x n ms)
    ],
    insert_by-Sorted key n ms s.1,
  )
]

pub member-sort_by :
    (key : ℕ → ℕ) (x : ℕ) (t : Table Step) → member x (sort_by key t) ≡ is_some (find x t)
unfolding sort_by find member
member-sort_by key x [] = refl
member-sort_by key x ((n, s) ∷ t) =
    ground (arith, member-insert_by key x n (sort_by key t), member-sort_by key x t)

pub sort_by-Sorted : (key : ℕ → ℕ) (t : Table Step) → Sorted key (sort_by key t)
unfolding sort_by
sort_by-Sorted key [] = tt
sort_by-Sorted key ((n, s) ∷ t) = insert_by-Sorted key n (sort_by key t) (sort_by-Sorted key t)
