-- ===== src/Storage/DurableObjectCache/Calls.antt =====
-- storage/DurableObjectCache.tcc: each call passes its assertions.
use oasys.Base.{
  false≢true, ℕ, ◌≡◌, ◌≢◌, inl, inr, refl, sym, ap, ◌∙◌, Bool, true, false, not, Option, none, some,
  ◌==◌, Option-cases, find, update, erase, remove_from, Bool-cases, ==_cases, ==_refl,
  member-remove_from_self, member-remove_from_other, remove_from-Unique, find-erase_other,
  member-take, find-update_other,
}
use oasys.Storage.DurableObjectCache.{
  Object, CacheElement, DurableObjectCache, tick, size_minus, put, put_found, points_to,
}
use oasys.Storage.DurableObjectCache.Operations.{
  live_of, unlink, get, get_found, release, release_found, del, del_found, remove, remove_found,
  drop_element, flush,
}
use oasys.Storage.DurableObjectCache.Coherent.{
  idle, Coherent, IsConsistent, update-Coherent, erase-Coherent,
}
use oasys.Storage.DurableObjectCache.Flush.{Evicted-live, flush-live, if_live, live-idle}
use oasys.Storage.DurableObjectCache.Put.{put-Fits}
use oasys.Storage.DurableObjectCache.Release.{
  surplus, release-Evicted, release-moved, retired, retired-IsConsistent, moved, moved-IsConsistent,
}

-- A call ends with its assertions passed and the cache consistent, and the live elements that the
-- call is not about are still there.
abbrev pub Runs : (ℕ → Bool) → DurableObjectCache → Option DurableObjectCache → Type 0
Runs about c o =
    (c' : DurableObjectCache) × (o ≡ some c')
    × IsConsistent c'
    × ((i : ℕ)
        → about i ≡ false
        → live_of (find i c.cache) ≡ true
        → find i c'.cache ≡ find i c.cache)

if_live-live : (o : Option CacheElement) → live_of o ≡ true → if_live o ≡ o
if_live-live none h = refl
if_live-live (some e) h = rw h refl

-- An element that is not live leaves its key's place in the LRU list.
unlinked :
    (k : ℕ) (e : CacheElement) (c : DurableObjectCache)
    → IsConsistent c
    → find k c.cache ≡ some e
    → e.live ≡ false
    → unlink e.lru_iter c.lru ≡ remove_from k c.lru
unfolding unlink
unlinked k e c x f l = rw ((x.sound k e f).1 l) refl

-- The cache behind a result.
abbrev pub after {ℓ} : {A : Type ℓ} → Option (DurableObjectCache × A) → Option DurableObjectCache
after none = none
after (some (c, r)) = some c

unchanged : (about : ℕ → Bool) (c : DurableObjectCache) → IsConsistent c → Runs about c (some c)
unchanged about c x = (c, refl, x, λ i a l. refl)

module _ (k : ℕ) (e : CacheElement) (c : DurableObjectCache) (x : IsConsistent c)
    (f : find k c.cache ≡ some e) where
  erased-live : e.live ≡ true → Coherent (erase k c.cache) c.lru (size_minus c.size e.object_size)
  erased-live l =
      erase-Coherent k c.cache c.lru c.size x e c.lru f x.unique
        (x.listed k ∙ (ap idle f ∙ ap not l)) (λ i h. refl)

  erased-idle : Coherent (erase k c.cache) (remove_from k c.lru) (size_minus c.size e.object_size)
  erased-idle =
      erase-Coherent k c.cache c.lru c.size x e (remove_from k c.lru) f
        (remove_from-Unique k c.lru x.unique) (member-remove_from_self k c.lru x.unique)
        (λ i h. member-remove_from_other i k c.lru h)

  revived : Coherent (update k (record e { live = true }) c.cache) (remove_from k c.lru) c.size
  revived =
      update-Coherent k c.cache c.lru c.size x e (record e { live = true }) (remove_from k c.lru) f
        refl ((x.sound k e f).0, λ n. cc) (remove_from-Unique k c.lru x.unique)
        (member-remove_from_self k c.lru x.unique) (λ i h. member-remove_from_other i k c.lru h)

  -- A key with a live element is another one than a key with an idle element.
  live_other : (i : ℕ) → e.live ≡ false → live_of (find i c.cache) ≡ true → (i == k) ≡ false
  live_other i l h = elim (==_cases i k) [
    | inl p ↦ absurd (false≢true (sym (ap live_of (ap (λ j. find j c.cache) p ∙ f) ∙ l) ∙ h))
    | inr p ↦ p
  ]

pub get-Runs :
    (k : ℕ) (c : DurableObjectCache) → IsConsistent c → Runs (λ i. false) c (after (get k c))
unfolding get get_found
get-Runs k c x = elim (Option-cases (find k c.cache)) [
  | inl f ↦ (record c { misses = tick c.misses }, rw f refl, x, λ i a l. refl)
  | inr (e, f) ↦ elim (Bool-cases e.live) [
    | inl l ↦ (record c { hits = tick c.hits }, rw (f, l) refl, x, λ i a m. refl)
    | inr l ↦ (
      record c {
        hits = tick c.hits;
        cache = update k (record e { live = true }) c.cache;
        lru = remove_from k c.lru;
      },
      let p : points_to e.lru_iter k ≡ true =
            ap (λ o. points_to o k) ((x.sound k e f).1 l) ∙ ==_refl k in
          rw (f, l, p, unlinked k e c x f l) refl,
      revived k e c x f,
      λ i a m.
          find-update_other i k (record e { live = true }) c.cache (live_other k e c x f i l m),
    )
  ]
]

pub del-Runs :
    (k : ℕ) (c : DurableObjectCache) → IsConsistent c → Runs (λ i. false) c (after (del k c))
unfolding del del_found drop_element
del-Runs k c x = elim (Option-cases (find k c.cache)) [
  | inl f ↦ rw f (unchanged (λ i. false) c x)
  | inr (e, f) ↦ elim (Bool-cases e.live) [
    | inl l ↦ rw (f, l) (unchanged (λ i. false) c x)
    | inr l ↦ (
      record c {
        lru = remove_from k c.lru;
        cache = erase k c.cache;
        size = size_minus c.size e.object_size;
      },
      rw (f, l, unlinked k e c x f l) refl,
      erased-idle k e c x f,
      λ i a m. find-erase_other i k c.cache (live_other k e c x f i l m),
    )
  ]
]

pub remove-Runs :
    (k : ℕ) (c : DurableObjectCache) → IsConsistent c → Runs (λ i. i == k) c (after (remove k c))
unfolding remove remove_found drop_element
remove-Runs k c x = elim (Option-cases (find k c.cache)) [
  | inl f ↦ rw f (unchanged (λ i. i == k) c x)
  | inr (e, f) ↦ elim (Bool-cases e.live) [
    | inl l ↦ (
      record c { cache = erase k c.cache; size = size_minus c.size e.object_size },
      rw (f, l) refl,
      erased-live k e c x f l,
      λ i a m. find-erase_other i k c.cache a,
    )
    | inr l ↦ (
      record c {
        lru = remove_from k c.lru;
        cache = erase k c.cache;
        size = size_minus c.size e.object_size;
      },
      rw (f, l, unlinked k e c x f l) refl,
      erased-idle k e c x f,
      λ i a m. find-erase_other i k c.cache a,
    )
  ]
]

pub flush-Runs : (c : DurableObjectCache) → IsConsistent c → Runs (λ i. false) c (after (flush c))
flush-Runs c x =
    let (c', e, x', empty, counted, left) = flush-live c x in
    (c', rw e refl, x', λ i a l. left i ∙ if_live-live (find i c.cache) l)

absent_other :
    (k i : ℕ) (c : DurableObjectCache)
    → find k c.cache ≡ none
    → live_of (find i c.cache) ≡ true
    → (i == k) ≡ false
absent_other k i c f l = elim (==_cases i k) [
  | inl p ↦ absurd (false≢true (sym (ap live_of (ap (λ j. find j c.cache) p ∙ f)) ∙ l))
  | inr p ↦ p
]

pub put-Runs :
    (excl : Bool) (k : ℕ) (object : Object) (c : DurableObjectCache)
    → IsConsistent c
    → object.address ≢ 0
    → ((e : CacheElement) → find k c.cache ≡ some e → e.object.address ≡ object.address)
    → Runs (λ i. false) c (after (put excl k object c))
unfolding put put_found
put-Runs excl k object c x a same = elim (Option-cases (find k c.cache)) [
  | inl f ↦
      let (n, c', e, x', lru, left, fits) = put-Fits excl k object c x f a in
      (
        c',
        rw e refl,
        x',
        λ i b l.
            let m = member-take i n c.lru (x.listed i ∙ live-idle (find i c.cache) l) in
            left i ∙ rw (absent_other k i c f l, m) refl,
      )
  | inr (e, f) ↦
      let t : (e.object.address == object.address) ≡ true =
        rw (same e f) (==_refl object.address) in
      elim (Bool-cases excl) [
        | inl l ↦ rw (f, l) (unchanged (λ i. false) c x)
        | inr l ↦ rw (f, l, t) (unchanged (λ i. false) c x)
      ]
]

pub release-Runs :
    (k : ℕ) (object : Object) (c : DurableObjectCache)
    → IsConsistent c
    → ((e : CacheElement) → find k c.cache ≡ some e → e.object.address ≡ object.address)
    → Runs (λ i. i == k) c (after (release k object c))
release-Runs k object c x same = elim (Option-cases (find k c.cache)) [
  | inl f ↦ unfold release release_found in rw f (unchanged (λ i. i == k) c x)
  | inr (e, f) ↦ elim (Bool-cases e.live) [
    | inl l ↦
        let (c', r, x', v) = release-Evicted k object e c x f (same e f) l in
        (
          c',
          rw r refl,
          x',
          unfold retired in
              λ i b m.
                let other =
                  find-update_other i k (record e { live = false; lru_iter = some k }) c.cache b in
                Evicted-live (surplus (retired k e c)) (retired k e c) c' i
                  (retired-IsConsistent k e c x f l) v (ap live_of other ∙ m)
                ∙ other,
        )
    | inr l ↦
        let (c', r, x', v) = release-moved k object e c x f (same e f) l in
        (
          c',
          rw r refl,
          x',
          unfold moved in
              λ i b m.
                Evicted-live (surplus (moved k c)) (moved k c) c' i (moved-IsConsistent k e c x f l)
                  v m,
        )
  ]
]
