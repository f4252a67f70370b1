-- ===== src/Storage/DurableObjectCache.antt =====
-- storage/DurableObjectCache.tcc. A cache key, a string, is a number, of which only equality is
-- used; an iterator of the LRU list is the key that it points to, of which the list has one place.
-- An assertion that fails and PANIC are `none`.

pub mod Operations
pub mod Coherent
pub mod Evict
pub mod Put
pub mod Release
pub mod Flush
pub mod Calls
pub mod Steps
mod Tests
use oasys.Base.{
  ℕ, zero, suc, ◌+◌, ◌-◌, ◌%◌, ◌^◌, Bool, true, false, not, ◌&&◌, ◌||◌, List, [], ◌∷◌, ◌++◌, Option,
  none, some, ltb, leb, ◌==◌, if◌then◌else◌, length, Table, find, erase, update, member,
  remove_from,
}
use oasys.Serialize.Field.{Field}
use oasys.Serialize.Marshal.{marshal_size}

abbrev pub size_mod : ℕ
size_mod = 2 ^ 64

-- `size_ -= size`.
abbrev pub size_minus : ℕ → ℕ → ℕ
size_minus a b = (a + size_mod - b % size_mod) % size_mod

pub data CachePolicy : Type 0 where
  cap_by_size : CachePolicy
  cap_by_count : CachePolicy

pub data DurableStoreResult : Type 0 where
  ds_ok : DurableStoreResult
  ds_notfound : DurableStoreResult
  ds_exists : DurableStoreResult
  ds_err : DurableStoreResult

-- An object at its address, with the fields that it serializes; NULL is address 0.
pub record Object : Type 0 where
  pub address : ℕ
  pub fields : List Field

-- `lru_iter` is `none` until the object is released.
pub record CacheElement : Type 0 where
  pub object : Object
  pub object_size : ℕ
  pub live : Bool
  pub lru_iter : Option ℕ

pub record DurableObjectCache : Type 0 where
  pub size : ℕ
  pub capacity : ℕ
  pub hits : ℕ
  pub misses : ℕ
  pub evictions : ℕ
  pub lru : List ℕ
  pub cache : Table CacheElement
  pub policy : CachePolicy

abbrev pub init : ℕ → CachePolicy → DurableObjectCache
init capacity policy = record {
  size = 0;
  capacity = capacity;
  hits = 0;
  misses = 0;
  evictions = 0;
  lru = [];
  cache = [];
  policy = policy;
}

abbrev pub count : DurableObjectCache → ℕ
count c = length c.cache

-- `++hits_`, and the other counters.
abbrev pub tick : ℕ → ℕ
tick n = (n + 1) % 2 ^ 32

unfoldable pub over : CachePolicy → ℕ → DurableObjectCache → Bool
over CachePolicy.cap_by_size size c = ltb c.capacity ((c.size + size) % size_mod)
over CachePolicy.cap_by_count size c = ltb c.capacity ((count c + 1) % size_mod)

abbrev pub is_over_capacity : ℕ → DurableObjectCache → Bool
is_over_capacity size c = over c.policy size c

abbrev pub points_to : Option ℕ → ℕ → Bool
points_to none k = false
points_to (some i) k = i == k

-- The assertions of `evict_last` on the element of the first key.
unfoldable pub is_evictable : ℕ → CacheElement → Bool
is_evictable k e = not (e.object.address == 0) && points_to e.lru_iter k && not e.live

unfoldable pub evict :
    ℕ → List ℕ → Option CacheElement → DurableObjectCache → Option DurableObjectCache
evict k lru none c = none
evict k lru (some e) c =
    if is_evictable k e
    then some record c {
      size = size_minus c.size e.object_size;
      evictions = tick c.evictions;
      lru = lru;
      cache = erase k c.cache;
    }
    else none

unfoldable pub evict_first : List ℕ → DurableObjectCache → Option DurableObjectCache
evict_first [] c = none
evict_first (k ∷ lru) c = evict k lru (find k c.cache) c

abbrev pub evict_last : DurableObjectCache → Option DurableObjectCache
evict_last c = evict_first c.lru c

-- `lru_.empty()`.
abbrev pub is_empty : List ℕ → Bool
is_empty [] = true
is_empty (k ∷ lru) = false

-- The loop of `put`; the fuel runs out with `none`.
unfoldable pub make_room : ℕ → ℕ → DurableObjectCache → Option DurableObjectCache
make_room zero object_size c = none
make_room (suc fuel) object_size c =
    if not (is_over_capacity object_size c)
    then some c
    else if is_empty c.lru
    then some c
    else elim (evict_last c) [ none ↦ none | some c' ↦ make_room fuel object_size c' ]

abbrev pub Result : Type 0
Result = Option (DurableObjectCache × DurableStoreResult)

abbrev pub new_element : Object → ℕ → CacheElement
new_element object object_size = record {
  object = object;
  object_size = object_size;
  live = true;
  lru_iter = none;
}

unfoldable pub insert_new : ℕ → Object → ℕ → Option DurableObjectCache → Result
insert_new k object object_size none = none
insert_new k object object_size (some c) = some (
  record c {
    size = (c.size + object_size) % size_mod;
    cache = (k, new_element object object_size) ∷ c.cache;
  },
  DurableStoreResult.ds_ok,
)

unfoldable pub put_found : Bool → ℕ → Object → Option CacheElement → DurableObjectCache → Result
put_found excl k object none c =
    let object_size = marshal_size object.fields 0 in
    insert_new k object object_size (make_room (suc (length c.lru)) object_size c)
put_found excl k object (some e) c =
    if excl
    then some (c, DurableStoreResult.ds_exists)
    else if e.object.address == object.address
    then some (c, DurableStoreResult.ds_ok)
    else none

-- `excl` is the flag DS_EXCL.
unfoldable pub put : Bool → ℕ → Object → DurableObjectCache → Result
put excl k object c = put_found excl k object (find k c.cache) c
