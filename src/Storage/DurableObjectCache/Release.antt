-- ===== src/Storage/DurableObjectCache/Release.antt =====
-- storage/DurableObjectCache.tcc: release.
use oasys.Base.{
  ℕ, ◌+◌, ◌<◌, ◌≡◌, inl, inr, refl, sym, ap, ◌∙◌, true, false, not, List, [], ◌∷◌, ◌++◌, some, ◌==◌,
  if◌then◌else◌, find, update, member, remove_from, Bool-cases, ==_cases, ==_refl, arith,
  member-append, member-cons_self, member-remove_from_self, member-remove_from_other,
  remove_from-Unique, push_back-Unique, length-update, subst,
}
use oasys.Storage.DurableObjectCache.{
  size_mod, CachePolicy, DurableStoreResult, Object, CacheElement, DurableObjectCache,
  is_over_capacity, over, count,
}
use oasys.Storage.DurableObjectCache.Operations.{trim, release_found, release}
use oasys.Storage.DurableObjectCache.Coherent.{idle, IsConsistent, update-Coherent, relist-Coherent}
use oasys.Storage.DurableObjectCache.Evict.{Evicted, Evicted-nothing, evict_last-Evicted}

push_back-cons : (k : ℕ) (l : List ℕ) → (j : ℕ) × (l' : List ℕ) × (l ++ k ∷ [] ≡ j ∷ l')
push_back-cons k [] = (k, [], refl)
push_back-cons k (j ∷ l) = (j, l ++ k ∷ [], refl)

-- How many elements `release` evicts.
abbrev pub surplus : DurableObjectCache → ℕ
surplus c = if is_over_capacity 0 c then 1 else 0

trim-Evicted :
    (c : DurableObjectCache) (k : ℕ) (lru : List ℕ)
    → IsConsistent c
    → c.lru ≡ k ∷ lru
    → (c' : DurableObjectCache) × (trim c ≡ some (c', DurableStoreResult.ds_ok))
      × IsConsistent c'
      × Evicted (surplus c) c c'
unfolding trim
trim-Evicted c k lru x el = elim (Bool-cases (is_over_capacity 0 c)) [
  | inl o ↦
      let (c', e, x', v) = evict_last-Evicted c k lru x el in
      (c', rw (o, e) refl, x', subst (λ b. Evicted (if b then 1 else 0) c c') (sym o) v)
  | inr o ↦
      (c, rw o refl, x, subst (λ b. Evicted (if b then 1 else 0) c c) (sym o) (Evicted-nothing c))
]

-- The cache with a live element put at the end of the LRU list.
unfoldable pub retired : ℕ → CacheElement → DurableObjectCache → DurableObjectCache
retired k e c = record c {
  lru = c.lru ++ k ∷ [];
  cache = update k (record e { live = false; lru_iter = some k }) c.cache;
}

member-push_back_self : (k : ℕ) (l : List ℕ) → member k (l ++ k ∷ []) ≡ true
member-push_back_self k l = member-append k l (k ∷ []) ∙ rw (member-cons_self k []) (ground arith)

member-push_back_other :
    (i k : ℕ) (l : List ℕ) → (i == k) ≡ false → member i (l ++ k ∷ []) ≡ member i l
unfolding member
member-push_back_other i k l h = member-append i l (k ∷ []) ∙ ground (arith, h)

pub retired-IsConsistent :
    (k : ℕ) (e : CacheElement) (c : DurableObjectCache)
    → IsConsistent c
    → find k c.cache ≡ some e
    → e.live ≡ true
    → IsConsistent (retired k e c)
unfolding retired
retired-IsConsistent k e c x f l =
    update-Coherent k c.cache c.lru c.size x e (record e { live = false; lru_iter = some k })
      (c.lru ++ k ∷ []) f refl ((x.sound k e f).0, λ u. refl)
      (push_back-Unique k c.lru (x.listed k ∙ (ap idle f ∙ ap not l)) x.unique)
      (member-push_back_self k c.lru) (λ i h. member-push_back_other i k c.lru h)

release_found-retired :
    (k : ℕ) (object : Object) (e : CacheElement) (c : DurableObjectCache)
    → e.object.address ≡ object.address
    → e.live ≡ true
    → release_found k object (some e) c ≡ trim (retired k e c)
unfolding release_found retired
release_found-retired k object e c a l =
    let t : (e.object.address == object.address) ≡ true = rw a (==_refl object.address) in
    rw (t, l) refl

-- `release` of an object that is on the LRU list already moves its key to the end.
unfoldable pub moved : ℕ → DurableObjectCache → DurableObjectCache
moved k c = record c { lru = remove_from k c.lru ++ k ∷ [] }

pub moved-IsConsistent :
    (k : ℕ) (e : CacheElement) (c : DurableObjectCache)
    → IsConsistent c
    → find k c.cache ≡ some e
    → e.live ≡ false
    → IsConsistent (moved k c)
unfolding moved
moved-IsConsistent k e c x f l =
    relist-Coherent k c.cache c.lru c.size x (remove_from k c.lru ++ k ∷ [])
      (push_back-Unique k (remove_from k c.lru) (member-remove_from_self k c.lru x.unique)
        (remove_from-Unique k c.lru x.unique))
      (λ i. elim (==_cases i k) [
        | inl h ↦ rw h (
            member-push_back_self k (remove_from k c.lru)
            ∙ sym (x.listed k ∙ (ap idle f ∙ ap not l)))
        | inr h ↦
            member-push_back_other i k (remove_from k c.lru) h
            ∙ member-remove_from_other i k c.lru h
      ])

pub release-moved :
    (k : ℕ) (object : Object) (e : CacheElement) (c : DurableObjectCache)
    → IsConsistent c
    → find k c.cache ≡ some e
    → e.object.address ≡ object.address
    → e.live ≡ false
    → (c' : DurableObjectCache) × (release k object c ≡ some (c', DurableStoreResult.ds_ok))
      × IsConsistent c'
      × Evicted (surplus (moved k c)) (moved k c) c'
unfolding release release_found moved
release-moved k object e c x f a l =
    let t : (e.object.address == object.address) ≡ true = rw a (==_refl object.address) in
    let (j, l', el) = push_back-cons k (remove_from k c.lru) in
    let (c', r, x', v) = trim-Evicted (moved k c) j l' (moved-IsConsistent k e c x f l) el in
    (c', rw (f, t, l, (x.sound k e f).1 l) r, x', v)

-- On a consistent cache `release` of a live object fails no assertion, puts its key at the end of the
-- LRU list, and then evicts the oldest element if is_over_capacity(0) holds, and nothing else. With
-- the capacity as a number of bytes that is a cache over its capacity; with the capacity as a number
-- of elements it is also one that is just full.
pub release-Evicted :
    (k : ℕ) (object : Object) (e : CacheElement) (c : DurableObjectCache)
    → IsConsistent c
    → find k c.cache ≡ some e
    → e.object.address ≡ object.address
    → e.live ≡ true
    → (c' : DurableObjectCache) × (release k object c ≡ some (c', DurableStoreResult.ds_ok))
      × IsConsistent c'
      × Evicted (surplus (retired k e c)) (retired k e c) c'
unfolding release retired
release-Evicted k object e c x f a l =
    let (j, l', el) = push_back-cons k c.lru in
    let (c', r, x', v) = trim-Evicted (retired k e c) j l' (retired-IsConsistent k e c x f l) el in
    (
      c',
      ap (λ o. release_found k object o c) f ∙ (release_found-retired k object e c a l ∙ r),
      x',
      v,
    )

-- Of a cache whose capacity is a number of elements, `release` of a live object evicts an element
-- when the cache is just full, and not over its capacity.
pub release-at_capacity :
    (k : ℕ) (object : Object) (e : CacheElement) (c : DurableObjectCache)
    → IsConsistent c
    → find k c.cache ≡ some e
    → e.object.address ≡ object.address
    → e.live ≡ true
    → c.policy ≡ CachePolicy.cap_by_count
    → count c ≡ c.capacity
    → c.capacity + 1 < size_mod
    → (c' : DurableObjectCache) × (release k object c ≡ some (c', DurableStoreResult.ds_ok))
      × (count c' + 1 ≡ c.capacity)
unfolding retired over
release-at_capacity k object e c x f a l p full top =
    let (c', r, x', v) = release-Evicted k object e c x f a l in
    let m : surplus (retired k e c) ≡ 1 =
      rw (p, length-update k (record e { live = false; lru_iter = some k }) c.cache, full)
        (ground arith) in
    (
      c',
      r,
      omega (
        arith,
        v.count_left,
        m,
        full,
        length-update k (record e { live = false; lru_iter = some k }) c.cache,
      ),
    )
