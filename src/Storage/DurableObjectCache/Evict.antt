-- ===== src/Storage/DurableObjectCache/Evict.antt =====
-- storage/DurableObjectCache.tcc: eviction, and the loops of put and flush around it.
use oasys.Base.{
  false≢true, ℕ, zero, suc, ◌+◌, ◌<◌, ◌≡◌, ◌⊎◌, inl, inr, refl, sym, ap, ◌∙◌, true, false, List, [],
  ◌∷◌, none, some, if◌then◌else◌, length, take, drop, find, erase, member, Unique, Bool-cases,
  Option-cases, List-cases, arith, length-erase, member-cons_self, member-cons_other, find-erase,
  subst,
}
use oasys.Storage.DurableObjectCache.{
  size_minus, is_empty, CacheElement, DurableObjectCache, tick, is_over_capacity, is_evictable,
  evict, evict_first, evict_last, make_room,
}
use oasys.Storage.DurableObjectCache.Coherent.{idle, IsConsistent, IsSound, erase-Coherent}

-- `c'` is `c` without the elements of the first `n` keys of the LRU list.
pub record Evicted (n : ℕ) (c c' : DurableObjectCache) : Type 0 where
  pub lru_left : c'.lru ≡ drop n c.lru
  pub left : (i : ℕ) → find i c'.cache ≡ (if member i (take n c.lru) then none else find i c.cache)
  pub count_left : length c.cache ≡ length c'.cache + n
  pub same_capacity : c'.capacity ≡ c.capacity
  pub same_policy : c'.policy ≡ c.policy

pub Evicted-nothing : (c : DurableObjectCache) → Evicted 0 c c
unfolding take drop member
Evicted-nothing c = record {
  lru_left = refl;
  left = λ i. refl;
  count_left = omega arith;
  same_capacity = refl;
  same_policy = refl;
}

pub Evicted-first :
    (n : ℕ) (k : ℕ) (lru : List ℕ) (c c' c'' : DurableObjectCache)
    → c.lru ≡ k ∷ lru
    → Evicted 1 c c'
    → Evicted n c' c''
    → Evicted (suc n) c c''
unfolding take drop member
Evicted-first n k lru c c' c'' e x y = record {
  lru_left = y.lru_left ∙ (ap (drop n) x.lru_left ∙ rw e refl);
  left = λ i. y.left i ∙ rw (x.left i, x.lru_left, e) (ground arith);
  count_left = omega (arith, x.count_left, y.count_left);
  same_capacity = y.same_capacity ∙ x.same_capacity;
  same_policy = y.same_policy ∙ x.same_policy;
}

is_evictable-true :
    (k : ℕ) (e : CacheElement) → IsSound k e → e.live ≡ false → is_evictable k e ≡ true
unfolding is_evictable
is_evictable-true k e s l = rw (s.1 l, l) (ground (arith, s.0))

-- The first key of the list has an element that is not live.
first_idle :
    (c : DurableObjectCache) (k : ℕ) (lru : List ℕ)
    → IsConsistent c
    → c.lru ≡ k ∷ lru
    → (e : CacheElement) × (find k c.cache ≡ some e) × (e.live ≡ false)
first_idle c k lru x el =
    let m : idle (find k c.cache) ≡ true =
      sym (x.listed k) ∙ (ap (member k) el ∙ member-cons_self k lru) in
    elim (Option-cases (find k c.cache)) [
      | inl f ↦ absurd (false≢true (ap idle (sym f) ∙ m))
      | inr (e, f) ↦ (e, f, ground (arith, ap idle (sym f) ∙ m))
    ]

-- `evict_last` passes its assertions if there is a key in the LRU list, and takes out the first.
pub evict_last-Evicted :
    (c : DurableObjectCache) (k : ℕ) (lru : List ℕ)
    → IsConsistent c
    → c.lru ≡ k ∷ lru
    → (c' : DurableObjectCache) × (evict_last c ≡ some c') × IsConsistent c' × Evicted 1 c c'
unfolding evict_first evict take drop
evict_last-Evicted c k lru x el =
    let (e, f, l) = first_idle c k lru x el in
    let u : Unique (k ∷ lru) = subst (λ l. Unique l) el x.unique in
    (
      record c {
        size = size_minus c.size e.object_size;
        evictions = tick c.evictions;
        lru = lru;
        cache = erase k c.cache;
      },
      rw (el, f, is_evictable-true k e (x.sound k e f) l),
      erase-Coherent k c.cache c.lru c.size x e lru f u.1 u.0
          (λ i h. sym (ap (member i) el ∙ member-cons_other i k lru h)),
      record {
        lru_left = rw el refl;
        left = λ i. rw el (find-erase i k c.cache x.distinct);
        count_left = length-erase k e c.cache f;
        same_capacity = refl;
        same_policy = refl;
      },
    )

-- One eviction shortens the LRU list by its first key.
pub lru_shorter :
    (c c' : DurableObjectCache) (k : ℕ) (lru : List ℕ)
    → c.lru ≡ k ∷ lru
    → Evicted 1 c c'
    → length c.lru ≡ length c'.lru + 1
unfolding drop
lru_shorter c c' k lru el v =
    let e : length c'.lru ≡ length lru = ap length (v.lru_left ∙ ap (drop 1) el) in
    let f : length c.lru ≡ suc (length lru) = ap length el in omega (arith, e, f)

make_room-empty :
    (fuel size : ℕ) (c : DurableObjectCache) → c.lru ≡ [] → make_room (suc fuel) size c ≡ some c
unfolding make_room
make_room-empty fuel size c el = elim (Bool-cases (is_over_capacity size c)) [
  | inl o ↦ rw (o, ap is_empty el) refl
  | inr o ↦ rw o refl
]

make_room-next :
    (fuel size k : ℕ) (lru : List ℕ) (c c1 : DurableObjectCache)
    → is_over_capacity size c ≡ true
    → c.lru ≡ k ∷ lru
    → evict_last c ≡ some c1
    → make_room (suc fuel) size c ≡ make_room fuel size c1
unfolding make_room
make_room-next fuel size k lru c c1 o el e = rw (o, ap is_empty el, e) refl

-- The loop of `put` takes the oldest keys out of the LRU list, until the new object fits or the list
-- is empty.
pub make_room-Evicted :
    (fuel size : ℕ) (c : DurableObjectCache)
    → IsConsistent c
    → length c.lru < fuel
    → (c' : DurableObjectCache) × (make_room fuel size c ≡ some c')
      × IsConsistent c'
      × ((n : ℕ) × Evicted n c c')
      × ((is_over_capacity size c' ≡ false) ⊎ (c'.lru ≡ []))
unfolding make_room
make_room-Evicted zero size c x h = absurd (omega arith)
make_room-Evicted (suc fuel) size c x h = elim (Bool-cases (is_over_capacity size c)) [
  | inr o ↦ (c, rw o refl, x, (0, Evicted-nothing c), inl o)
  | inl o ↦ elim (List-cases c.lru) [
    | inl el ↦ (c, make_room-empty fuel size c el, x, (0, Evicted-nothing c), inr el)
    | inr (k, lru, el) ↦
        let (c1, e1, x1, v1) = evict_last-Evicted c k lru x el in
        let (c2, e2, x2, (n, v2), done) =
          make_room-Evicted fuel size c1 x1 (omega (arith, lru_shorter c c1 k lru el v1)) in
        (
          c2,
          make_room-next fuel size k lru c c1 o el e1 ∙ e2,
          x2,
          (suc n, Evicted-first n k lru c c1 c2 el v1 v2),
          done,
        )
  ]
]
