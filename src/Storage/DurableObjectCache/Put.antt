-- ===== src/Storage/DurableObjectCache/Put.antt =====
-- storage/DurableObjectCache.tcc: put of a new object.
use oasys.Base.{
  ℕ, suc, ◌+◌, ◌%◌, ◌≤◌, ◌≡◌, ◌≢◌, ◌⊎◌, inl, inr, refl, ◌∙◌, subst, Bool, true, false, [], ◌∷◌,
  none, some, ◌==◌, if◌then◌else◌, length, take, drop, find, member, ==_cases, ==_refl, arith,
  find-cons_self, find-cons_other,
}
use oasys.Serialize.Marshal.{marshal_size}
use oasys.Storage.DurableObjectCache.{
  size_mod, CachePolicy, DurableStoreResult, Object, DurableObjectCache, count, is_over_capacity,
  over, insert_new, new_element, put_found, put,
}
use oasys.Storage.DurableObjectCache.Coherent.{IsConsistent, insert-Coherent}
use oasys.Storage.DurableObjectCache.Evict.{make_room-Evicted}

if_same {ℓ} : {A : Type ℓ} (b : Bool) (a : A) → (if b then a else a) ≡ a
if_same true a = refl
if_same false a = refl

-- The cache is within its capacity.
abbrev pub Fits : CachePolicy → DurableObjectCache → Type 0
Fits CachePolicy.cap_by_size c = c.size ≤ c.capacity
Fits CachePolicy.cap_by_count c = count c % size_mod ≤ c.capacity

unfoldable pub with_new : ℕ → Object → DurableObjectCache → DurableObjectCache
with_new k object c =
    let object_size = marshal_size object.fields 0 in
    record c {
      size = (c.size + object_size) % size_mod;
      cache = (k, new_element object object_size) ∷ c.cache;
    }

with_new-Fits :
    (policy : CachePolicy) (k : ℕ) (object : Object) (c : DurableObjectCache)
    → over policy (marshal_size object.fields 0) c ≡ false
    → Fits policy (with_new k object c)
unfolding with_new over
with_new-Fits CachePolicy.cap_by_size k object c h = ground arith
with_new-Fits CachePolicy.cap_by_count k object c h =
    let e : count (with_new k object c) ≡ count c + 1 = omega arith in rw e (ground arith)

unfit-or_empty :
    (k : ℕ) (object : Object) (c : DurableObjectCache)
    → (is_over_capacity (marshal_size object.fields 0) c ≡ false) ⊎ (c.lru ≡ [])
    → Fits c.policy (with_new k object c) ⊎ (c.lru ≡ [])
unfit-or_empty k object c (inl o) = inl (with_new-Fits c.policy k object c o)
unfit-or_empty k object c (inr e) = inr e

-- On a consistent cache without the key, `put` fails no assertion, stores the object as a live
-- element, evicts a number of the oldest keys of the LRU list and nothing else, and leaves the cache
-- within its capacity, unless the LRU list is empty afterwards.
pub put-Fits :
    (excl : Bool) (k : ℕ) (object : Object) (c : DurableObjectCache)
    → IsConsistent c
    → find k c.cache ≡ none
    → object.address ≢ 0
    → (n : ℕ) × (c' : DurableObjectCache) × (put excl k object c
        ≡ some (c', DurableStoreResult.ds_ok))
      × IsConsistent c'
      × (c'.lru ≡ drop n c.lru)
      × ((i : ℕ)
          → find i c'.cache ≡ (
              if i == k
              then some (new_element object (marshal_size object.fields 0))
              else if member i (take n c.lru)
              then none
              else find i c.cache))
      × (Fits c.policy c' ⊎ (c'.lru ≡ []))
unfolding put put_found insert_new with_new
put-Fits excl k object c x f a =
    let object_size = marshal_size object.fields 0 in
    let (c1, e, x1, (n, v), done) =
      make_room-Evicted (suc (length c.lru)) object_size c x (omega arith) in
    let absent : find k c1.cache ≡ none =
      v.left k ∙ rw f (if_same (member k (take n c.lru)) none) in
    (
      n,
      with_new k object c1,
      rw (f, e) refl,
      insert-Coherent k c1.cache c1.lru c1.size x1 (new_element object object_size) absent a refl,
      v.lru_left,
      λ i. elim (==_cases i k) [
        | inl h ↦ rw (h, ==_refl k) (find-cons_self k _ c1.cache)
        | inr h ↦ rw h (find-cons_other i k _ c1.cache h ∙ v.left i)
      ],
      subst (λ p. Fits p (with_new k object c1) ⊎ (c1.lru ≡ [])) v.same_policy
          (unfit-or_empty k object c1 done),
    )
