-- ===== src/Storage/DurableObjectCache/Coherent.antt =====
-- storage/DurableObjectCache.tcc: the cache table, the LRU list and the size belong together.
use oasys.Base.{
  none≢some, ℕ, ◌+◌, ◌%◌, ◌≡◌, ◌≢◌, inl, inr, refl, sym, ap, ◌∙◌, Bool, true, false, not, List, [],
  ◌∷◌, Option, none, some, ◌==◌, Table, find, erase, update, member, Distinct, Unique, Bool-cases,
  ==_cases, arith, find-erase_self, find-cons_self, find-cons_other, find-erase_other,
  erase-Distinct, find-update_self, find-update_other, update-Distinct,
}
use oasys.Storage.DurableObjectCache.{size_mod, size_minus, CacheElement, DurableObjectCache}

abbrev pub idle : Option CacheElement → Bool
idle none = false
idle (some e) = not e.live

unfoldable pub total : Table CacheElement → ℕ
total [] = 0
total ((k, e) ∷ t) = e.object_size + total t

abbrev pub IsSound : ℕ → CacheElement → Type 0
IsSound k e = (e.object.address ≢ 0) × (e.live ≡ false → e.lru_iter ≡ some k)

-- The LRU list has just the keys of the elements that are not live, each of them once, and the size
-- is the sum of the elements' sizes.
pub record Coherent (t : Table CacheElement) (lru : List ℕ) (size : ℕ) : Type 0 where
  pub distinct : Distinct t
  pub unique : Unique lru
  pub listed : (k : ℕ) → member k lru ≡ idle (find k t)
  pub sound : (k : ℕ) (e : CacheElement) → find k t ≡ some e → IsSound k e
  pub sized : size ≡ total t % size_mod

abbrev pub IsConsistent : DurableObjectCache → Type 0
IsConsistent c = Coherent c.cache c.lru c.size

pub total-erase :
    (k : ℕ) (e : CacheElement) (t : Table CacheElement)
    → find k t ≡ some e
    → total t ≡ e.object_size + total (erase k t)
unfolding find erase total
total-erase k e [] h = cc
total-erase k e ((j, u) ∷ t) h = elim (Bool-cases (k == j)) [
  | inl g ↦ ground (arith, g)
  | inr g ↦ ground (arith, g, total-erase k e t)
]

pub total-update :
    (k : ℕ) (e e' : CacheElement) (t : Table CacheElement)
    → find k t ≡ some e
    → e'.object_size ≡ e.object_size
    → total (update k e' t) ≡ total t
unfolding find update total
total-update k e e' [] h s = refl
total-update k e e' ((j, u) ∷ t) h s = elim (Bool-cases (k == j)) [
  | inl g ↦ ground (arith, g)
  | inr g ↦ ground (arith, g, total-update k e e' t)
]

IsSound-same : {k : ℕ} {e e' : CacheElement} → some e ≡ some e' → IsSound k e → IsSound k e'
IsSound-same {e = e} {e'} h s = let q : e ≡ e' = cc in rw (← q) s

module _ (k : ℕ) (t : Table CacheElement) (lru : List ℕ) (size : ℕ) (c : Coherent t lru size) where
  -- An element leaves the table, and its key the list.
  pub erase-Coherent :
      (e : CacheElement) (lru' : List ℕ)
      → find k t ≡ some e
      → Unique lru'
      → member k lru' ≡ false
      → ((i : ℕ) → (i == k) ≡ false → member i lru' ≡ member i lru)
      → Coherent (erase k t) lru' (size_minus size e.object_size)
  erase-Coherent e lru' f u m o = record {
    distinct = erase-Distinct k t c.distinct;
    unique = u;
    listed = λ i. elim (==_cases i k) [
      | inl h ↦ rw h (m ∙ sym (ap idle (find-erase_self k t c.distinct)))
      | inr h ↦ rw (find-erase_other i k t h) (o i h ∙ c.listed i)
    ];
    sound = λ i e' f'. elim (==_cases i k) [
      | inl h ↦ absurd (
          none≢some
            (sym (find-erase_self k t c.distinct) ∙ (ap (λ i. find i (erase k t)) (sym h) ∙ f')))
      | inr h ↦ c.sound i e' (sym (find-erase_other i k t h) ∙ f')
    ];
    sized = omega (arith, total-erase k e t f, c.sized);
  }

  -- An element changes its place.
  pub update-Coherent :
      (e e' : CacheElement) (lru' : List ℕ)
      → find k t ≡ some e
      → e'.object_size ≡ e.object_size
      → IsSound k e'
      → Unique lru'
      → member k lru' ≡ not e'.live
      → ((i : ℕ) → (i == k) ≡ false → member i lru' ≡ member i lru)
      → Coherent (update k e' t) lru' size
  update-Coherent e e' lru' f s w u m o = record {
    distinct = update-Distinct k e' t c.distinct;
    unique = u;
    listed = λ i. elim (==_cases i k) [
      | inl h ↦ rw (h, find-update_self k e' e t f) m
      | inr h ↦ rw (find-update_other i k e' t h) (o i h ∙ c.listed i)
    ];
    sound = λ i e1 f'. elim (==_cases i k) [
      | inl h ↦ rw h (
          IsSound-same
            (sym (find-update_self k e' e t f) ∙ (ap (λ i. find i (update k e' t)) (sym h) ∙ f')) w)
      | inr h ↦ c.sound i e1 (sym (find-update_other i k e' t h) ∙ f')
    ];
    sized = rw (total-update k e e' t f s) c.sized;
  }

  -- A new element is live.
  pub insert-Coherent :
      (e : CacheElement)
      → find k t ≡ none
      → e.object.address ≢ 0
      → e.live ≡ true
      → Coherent ((k, e) ∷ t) lru ((size + e.object_size) % size_mod)
  unfolding total
  insert-Coherent e f a l = record {
    distinct = (f, c.distinct);
    unique = c.unique;
    listed = λ i. elim (==_cases i k) [
      | inl h ↦ rw (h, find-cons_self k e t, l) (c.listed k ∙ ap idle f)
      | inr h ↦ rw (find-cons_other i k e t h) (c.listed i)
    ];
    sound = λ i e1 f'. elim (==_cases i k) [
      | inl h ↦ rw h (
          IsSound-same (sym (find-cons_self k e t) ∙ (ap (λ i. find i ((k, e) ∷ t)) (sym h) ∙ f'))
            (a, λ n. cc))
      | inr h ↦ c.sound i e1 (sym (find-cons_other i k e t h) ∙ f')
    ];
    sized = omega (arith, c.sized);
  }

  -- The keys of the list stand in another order.
  pub relist-Coherent :
      (lru' : List ℕ)
      → Unique lru'
      → ((i : ℕ) → member i lru' ≡ member i lru)
      → Coherent t lru' size
  relist-Coherent lru' u m = record {
    distinct = c.distinct;
    unique = u;
    listed = λ i. m i ∙ c.listed i;
    sound = c.sound;
    sized = c.sized;
  }
