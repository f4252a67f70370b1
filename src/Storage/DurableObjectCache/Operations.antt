-- ===== src/Storage/DurableObjectCache/Operations.antt =====
-- storage/DurableObjectCache.tcc: get, is_live, release, del, remove and flush.
use oasys.Base.{
  ℕ, zero, suc, ◌+◌, Bool, true, false, List, [], ◌∷◌, ◌++◌, Option, none, some, ◌==◌,
  if◌then◌else◌, length, find, erase, update, remove_from,
}
use oasys.Storage.DurableObjectCache.{
  size_minus, points_to, is_empty, DurableStoreResult, Object, CacheElement, DurableObjectCache,
  tick, is_over_capacity, evict_last, Result,
}

-- `lru_.erase(lru_iter_)`.
unfoldable pub unlink : Option ℕ → List ℕ → List ℕ
unlink none lru = lru
unlink (some k) lru = remove_from k lru

unfoldable pub get_found :
    ℕ → Option CacheElement → DurableObjectCache → Option (DurableObjectCache × Option Object)
get_found k none c = some (record c { misses = tick c.misses }, none)
get_found k (some e) c =
    if e.live
    then some (record c { hits = tick c.hits }, some e.object)
    else if points_to e.lru_iter k
    then some (
      record c {
        hits = tick c.hits;
        cache = update k (record e { live = true }) c.cache;
        lru = unlink e.lru_iter c.lru;
      },
      some e.object,
    )
    else none

-- The object is `none` where the source returns DS_NOTFOUND, and given with DS_OK.
unfoldable pub get : ℕ → DurableObjectCache → Option (DurableObjectCache × Option Object)
get k c = get_found k (find k c.cache) c

abbrev pub live_of : Option CacheElement → Bool
live_of none = false
live_of (some e) = e.live

unfoldable pub is_live : ℕ → DurableObjectCache → Bool
is_live k c = live_of (find k c.cache)

-- The end of `release`.
unfoldable pub trim : DurableObjectCache → Result
trim c =
    if is_over_capacity 0 c
    then elim (evict_last c) [ none ↦ none | some c' ↦ some (c', DurableStoreResult.ds_ok) ]
    else some (c, DurableStoreResult.ds_ok)

unfoldable pub release_found : ℕ → Object → Option CacheElement → DurableObjectCache → Result
release_found k object none c = some (c, DurableStoreResult.ds_err)
release_found k object (some e) c =
    if e.object.address == object.address
    then if e.live
      then trim (record c {
        lru = c.lru ++ k ∷ [];
        cache = update k (record e { live = false; lru_iter = some k }) c.cache;
      })
      else elim e.lru_iter [
        | none ↦ none
        | some i ↦ trim (record c { lru = remove_from i c.lru ++ i ∷ [] })
      ]
    else none

unfoldable pub release : ℕ → Object → DurableObjectCache → Result
release k object c = release_found k object (find k c.cache) c

-- The common end of `del` and `remove`.
unfoldable pub drop_element : ℕ → CacheElement → List ℕ → DurableObjectCache → Result
drop_element k e lru c = some (
  record c { lru = lru; cache = erase k c.cache; size = size_minus c.size e.object_size },
  DurableStoreResult.ds_ok,
)

unfoldable pub del_found : ℕ → Option CacheElement → DurableObjectCache → Result
del_found k none c = some (c, DurableStoreResult.ds_notfound)
del_found k (some e) c =
    if e.live
    then some (c, DurableStoreResult.ds_err)
    else drop_element k e (unlink e.lru_iter c.lru) c

unfoldable pub del : ℕ → DurableObjectCache → Result
del k c = del_found k (find k c.cache) c

unfoldable pub remove_found : ℕ → Option CacheElement → DurableObjectCache → Result
remove_found k none c = some (c, DurableStoreResult.ds_notfound)
remove_found k (some e) c = drop_element k e (if e.live then c.lru else unlink e.lru_iter c.lru) c

unfoldable pub remove : ℕ → DurableObjectCache → Result
remove k c = remove_found k (find k c.cache) c

-- The loop of `flush`, with the elements that it has evicted so far.
unfoldable pub flush_loop : ℕ → ℕ → DurableObjectCache → Option (DurableObjectCache × ℕ)
flush_loop zero n c = none
flush_loop (suc fuel) n c =
    if is_empty c.lru
    then some (c, n)
    else elim (evict_last c) [ none ↦ none | some c' ↦ flush_loop fuel (n + 1) c' ]

unfoldable pub flush : DurableObjectCache → Option (DurableObjectCache × ℕ)
flush c = flush_loop (suc (length c.lru)) 0 c
