-- ===== src/Base/Tables.antt =====
-- Association lists with numbers as keys, for the hash maps, and lists without repetitions.
-- Not code of the repository.
use Prim.Native.Nat.{ℕ, zero, suc, ◌+◌}
use mathlib.Core.Path.{◌≡◌, refl, ◌∙◌}
use mathlib.Core.Logic.{inl, inr}
use mathlib.Core.Bool.{Bool, true, false, ◌||◌}
use mathlib.Core.Option.{Option, none, some}
use mathlib.Core.List.{List, [], ◌∷◌, ◌++◌}
use native.Mathlib.Omega.{arith}
use oasys.Base.Tests.{◌==◌, if◌then◌else◌, Bool-cases, ==_cases, ==_refl}
use oasys.Base.Lists.{length, take}

abbrev pub Table {ℓ} : Type ℓ → Type ℓ
Table V = List (ℕ × V)

unfoldable pub find {ℓ} : {V : Type ℓ} → ℕ → Table V → Option V
find k [] = none
find k ((j, v) ∷ t) = if k == j then some v else find k t

unfoldable pub erase {ℓ} : {V : Type ℓ} → ℕ → Table V → Table V
erase k [] = []
erase k ((j, v) ∷ t) = if k == j then t else (j, v) ∷ erase k t

-- The new value of a key that the table has.
unfoldable pub update {ℓ} : {V : Type ℓ} → ℕ → V → Table V → Table V
update k w [] = []
update k w ((j, v) ∷ t) = if k == j then (j, w) ∷ t else (j, v) ∷ update k w t

-- No key stands twice.
abbrev pub Distinct {ℓ} : {V : Type ℓ} → Table V → Type ℓ
Distinct [] = Unit {ℓ}
Distinct ((k, v) ∷ t) = (find k t ≡ none) × Distinct t

module _ {ℓ} {V : Type ℓ} where
  pub find-cons_self : (k : ℕ) (v : V) (t : Table V) → find k ((k, v) ∷ t) ≡ some v
  unfolding find
  find-cons_self k v t = ground arith

  pub find-cons_other :
      (i k : ℕ) (v : V) (t : Table V) → (i == k) ≡ false → find i ((k, v) ∷ t) ≡ find i t
  unfolding find
  find-cons_other i k v t h = ground arith

  pub find-erase_self : (k : ℕ) (t : Table V) → Distinct t → find k (erase k t) ≡ none
  unfolding find erase
  find-erase_self k [] d = refl
  find-erase_self k ((j, v) ∷ t) d = ground (arith, d.0, find-erase_self k t d.1)

  pub find-erase_other : (i k : ℕ) (t : Table V) → (i == k) ≡ false → find i (erase k t) ≡ find i t
  unfolding find erase
  find-erase_other i k [] h = refl
  find-erase_other i k ((j, v) ∷ t) h = ground (arith, find-erase_other i k t h)

  pub erase-Distinct : (k : ℕ) (t : Table V) → Distinct t → Distinct (erase k t)
  unfolding erase
  erase-Distinct k [] d = tt
  erase-Distinct k ((j, v) ∷ t) d = elim (Bool-cases (k == j)) [
    | inl e ↦ rw e d.1
    | inr e ↦ rw e (find-erase_other j k t (ground arith) ∙ d.0, erase-Distinct k t d.1)
  ]

  pub find-update_self :
      (k : ℕ) (w v : V) (t : Table V) → find k t ≡ some v → find k (update k w t) ≡ some w
  unfolding find update
  find-update_self k w v [] h = cc
  find-update_self k w v ((j, u) ∷ t) h = ground (arith, find-update_self k w v t)

  pub find-update_other :
      (i k : ℕ) (w : V) (t : Table V) → (i == k) ≡ false → find i (update k w t) ≡ find i t
  unfolding find update
  find-update_other i k w [] h = refl
  find-update_other i k w ((j, u) ∷ t) h = ground (arith, find-update_other i k w t h)

  pub update-Distinct : (k : ℕ) (w : V) (t : Table V) → Distinct t → Distinct (update k w t)
  unfolding update
  update-Distinct k w [] d = tt
  update-Distinct k w ((j, v) ∷ t) d = elim (Bool-cases (k == j)) [
    | inl e ↦ rw e d
    | inr e ↦ rw e (find-update_other j k w t (ground arith) ∙ d.0, update-Distinct k w t d.1)
  ]

  pub length-erase :
      (k : ℕ) (v : V) (t : Table V) → find k t ≡ some v → length t ≡ length (erase k t) + 1
  unfolding find erase
  length-erase k v [] h = cc
  length-erase k v ((j, u) ∷ t) h = ground (arith, length-erase k v t)

  pub length-update : (k : ℕ) (w : V) (t : Table V) → length (update k w t) ≡ length t
  unfolding update
  length-update k w [] = refl
  length-update k w ((j, u) ∷ t) = ground (arith, length-update k w t)

unfoldable pub member : ℕ → List ℕ → Bool
member k [] = false
member k (j ∷ l) = k == j || member k l

pub member-cons_self : (k : ℕ) (l : List ℕ) → member k (k ∷ l) ≡ true
unfolding member
member-cons_self k l = ground arith

pub member-cons_other : (i k : ℕ) (l : List ℕ) → (i == k) ≡ false → member i (k ∷ l) ≡ member i l
unfolding member
member-cons_other i k l h = ground (arith, h)

pub find-erase {ℓ} :
    {V : Type ℓ} (i k : ℕ) (t : Table V)
    → Distinct t
    → find i (erase k t) ≡ (if member i (k ∷ []) then none else find i t)
unfolding member
find-erase i k t d = elim (==_cases i k) [
  | inl h ↦ rw (h, ==_refl k) (find-erase_self k t d)
  | inr h ↦ rw h (find-erase_other i k t h)
]

-- The list without the first place of a number.
unfoldable pub remove_from : ℕ → List ℕ → List ℕ
remove_from k [] = []
remove_from k (j ∷ l) = if k == j then l else j ∷ remove_from k l

abbrev pub Unique : List ℕ → Type 0
Unique [] = Unit {0}
Unique (k ∷ l) = (member k l ≡ false) × Unique l

pub member-remove_from_self : (k : ℕ) (l : List ℕ) → Unique l → member k (remove_from k l) ≡ false
unfolding member remove_from
member-remove_from_self k [] u = refl
member-remove_from_self k (j ∷ l) u = ground (arith, u.0, member-remove_from_self k l u.1)

pub member-remove_from_other :
    (i k : ℕ) (l : List ℕ) → (i == k) ≡ false → member i (remove_from k l) ≡ member i l
unfolding member remove_from
member-remove_from_other i k [] h = refl
member-remove_from_other i k (j ∷ l) h = ground (arith, member-remove_from_other i k l h)

pub member-append : (k : ℕ) (l l' : List ℕ) → member k (l ++ l') ≡ (member k l || member k l')
unfolding member
member-append k [] l' = refl
member-append k (j ∷ l) l' = ground (arith, member-append k l l')

pub remove_from-Unique : (k : ℕ) (l : List ℕ) → Unique l → Unique (remove_from k l)
unfolding remove_from
remove_from-Unique k [] u = tt
remove_from-Unique k (j ∷ l) u = elim (Bool-cases (k == j)) [
  | inl e ↦ rw e u.1
  | inr e ↦ rw e (member-remove_from_other j k l (ground arith) ∙ u.0, remove_from-Unique k l u.1)
]

pub push_back-Unique : (k : ℕ) (l : List ℕ) → member k l ≡ false → Unique l → Unique (l ++ k ∷ [])
unfolding member
push_back-Unique k [] h u = (refl, tt)
push_back-Unique k (j ∷ l) h u = (
  ground (arith, member-append j l (k ∷ []), u.0, h),
  push_back-Unique k l (ground (arith, h)) u.1,
)

pub member-take : (k n : ℕ) (l : List ℕ) → member k l ≡ false → member k (take n l) ≡ false
unfolding member take
member-take k zero l h = refl
member-take k (suc n) [] h = refl
member-take k (suc n) (j ∷ l) h = ground (arith, h, member-take k n l)
