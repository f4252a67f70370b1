-- ===== src/Storage/DurableObjectCache/Flush.antt =====
-- storage/DurableObjectCache.tcc: flush, and what an eviction leaves alone.
use oasys.Base.{
  ℕ, zero, suc, ◌+◌, ◌<◌, ◌≡◌, inl, inr, refl, ap, ◌∙◌, true, false, not, List, [], ◌∷◌, Option,
  none, some, if◌then◌else◌, length, find, Bool-cases, List-cases, arith, member-take, take_self,
  drop_self, subst,
}
use oasys.Storage.DurableObjectCache.{CacheElement, DurableObjectCache, is_empty, evict_last}
use oasys.Storage.DurableObjectCache.Operations.{flush_loop, flush, live_of}
use oasys.Storage.DurableObjectCache.Coherent.{idle, IsConsistent}
use oasys.Storage.DurableObjectCache.Evict.{
  Evicted, Evicted-nothing, Evicted-first, evict_last-Evicted, lru_shorter,
}

pub live-idle : (o : Option CacheElement) → live_of o ≡ true → idle o ≡ false
live-idle none h = refl
live-idle (some e) h = ap not h

-- An eviction leaves the live elements alone.
pub Evicted-live :
    (n : ℕ) (c c' : DurableObjectCache) (i : ℕ)
    → IsConsistent c
    → Evicted n c c'
    → live_of (find i c.cache) ≡ true
    → find i c'.cache ≡ find i c.cache
Evicted-live n c c' i x v l =
    let m = member-take i n c.lru (x.listed i ∙ live-idle (find i c.cache) l) in
    v.left i ∙ rw m refl

flush_loop-next :
    (fuel n k : ℕ) (lru : List ℕ) (c c1 : DurableObjectCache)
    → c.lru ≡ k ∷ lru
    → evict_last c ≡ some c1
    → flush_loop (suc fuel) n c ≡ flush_loop fuel (n + 1) c1
unfolding flush_loop
flush_loop-next fuel n k lru c c1 el e = rw (ap is_empty el, e) refl

flush_loop-empty :
    (fuel n : ℕ) (c : DurableObjectCache) → c.lru ≡ [] → flush_loop (suc fuel) n c ≡ some (c, n)
unfolding flush_loop
flush_loop-empty fuel n c el = rw (ap is_empty el) refl

flush_loop-Evicted :
    (fuel n : ℕ) (c : DurableObjectCache)
    → IsConsistent c
    → length c.lru < fuel
    → (c' : DurableObjectCache) × (flush_loop fuel n c ≡ some (c', n + length c.lru))
      × IsConsistent c'
      × Evicted (length c.lru) c c'
flush_loop-Evicted zero n c x h = absurd (omega arith)
flush_loop-Evicted (suc fuel) n c x h = elim (List-cases c.lru) [
  | inl el ↦
      let z : length c.lru ≡ 0 = ap length el in
      (
        c,
        flush_loop-empty fuel n c el ∙ rw z (ap (λ m. some (c, m)) (omega arith)),
        x,
        rw z (Evicted-nothing c),
      )
  | inr (k, lru, el) ↦
      let (c1, e1, x1, v1) = evict_last-Evicted c k lru x el in
      let s = lru_shorter c c1 k lru el v1 in
      let (c2, e2, x2, v2) = flush_loop-Evicted fuel (n + 1) c1 x1 (omega (arith, s)) in
      (
        c2,
        flush_loop-next fuel n k lru c c1 el e1 ∙ (e2 ∙ ap (λ m. some (c2, m)) (omega (arith, s))),
        x2,
        subst (λ m. Evicted m c c2) (omega (arith, s))
            (Evicted-first (length c1.lru) k lru c c1 c2 el v1 v2),
      )
]

-- What `flush` leaves of an entry.
abbrev pub if_live : Option CacheElement → Option CacheElement
if_live none = none
if_live (some e) = if e.live then some e else none

if_idle : (o : Option CacheElement) → (if idle o then none else o) ≡ if_live o
if_idle none = refl
if_idle (some e) = elim (Bool-cases e.live) [ inl l ↦ rw l refl | inr l ↦ rw l refl ]

-- On a consistent cache `flush` comes to its end with no assertion failed, returns how many keys the
-- LRU list had, and leaves just the live elements, and an empty LRU list.
pub flush-live :
    (c : DurableObjectCache)
    → IsConsistent c
    → (c' : DurableObjectCache) × (flush c ≡ some (c', length c.lru))
      × IsConsistent c'
      × (c'.lru ≡ [])
      × (length c.cache ≡ length c'.cache + length c.lru)
      × ((i : ℕ) → find i c'.cache ≡ if_live (find i c.cache))
unfolding flush
flush-live c x =
    let (c', e, x', v) = flush_loop-Evicted (suc (length c.lru)) 0 c x (omega arith) in
    (
      c',
      e ∙ ap (λ m. some (c', m)) (omega arith),
      x',
      v.lru_left ∙ drop_self c.lru,
      v.count_left,
      λ i. v.left i ∙ rw (take_self c.lru, x.listed i) (if_idle (find i c.cache)),
    )
