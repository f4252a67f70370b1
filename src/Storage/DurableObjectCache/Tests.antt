-- ===== src/Storage/DurableObjectCache/Tests.antt =====
-- Concrete runs of storage/DurableObjectCache.tcc, and the theorems at concrete inputs.
use oasys.Base.{
  ℕ, ◌+◌, ◌<◌, ◌≡◌, ◌≢◌, ◌⊎◌, refl, true, false, [], ◌∷◌, none, some, ◌==◌, if◌then◌else◌, length,
  take, drop, find, update, erase, member, remove_from, arith,
}
use oasys.Serialize.Field.{Field}
use oasys.Serialize.Marshal.{get_size, marshal_size}
use oasys.Storage.DurableObjectCache.{
  size_mod, CachePolicy, DurableStoreResult, Object, CacheElement, DurableObjectCache, init, count,
  over, is_evictable, evict, evict_first, make_room, insert_new, new_element, put_found, put,
}
use oasys.Storage.DurableObjectCache.Operations.{
  unlink, get_found, get, live_of, is_live, trim, release_found, release, drop_element, del_found,
  del, remove_found, remove, flush_loop, flush,
}
use oasys.Storage.DurableObjectCache.Coherent.{total, IsConsistent, insert-Coherent}
use oasys.Storage.DurableObjectCache.Evict.{Evicted}
use oasys.Storage.DurableObjectCache.Put.{Fits, with_new, put-Fits}
use oasys.Storage.DurableObjectCache.Release.{
  surplus, retired, retired-IsConsistent, release-Evicted,
}
use oasys.Storage.DurableObjectCache.Flush.{if_live, flush-live}
use oasys.Storage.DurableObjectCache.Calls.{Runs, after}
use oasys.Storage.DurableObjectCache.Steps.{
  Operation, step, gives_up, Allowed, Reaches, done, call, given_up, init-IsConsistent, step-Runs,
  Reaches-live, get-put,
}

program : Unit {0}
unfolding find update erase member remove_from take drop get_size marshal_size over is_evictable
    evict evict_first make_room insert_new put_found put unlink get_found get is_live trim
    release_found release drop_element del_found del remove_found remove flush_loop flush total
    with_new retired step gives_up Allowed
program = tt

abbrev object : ℕ → Object
object n = record { address = n; fields = Field.u64 n ∷ Field.bool true ∷ [] }

abbrev element : ℕ → CacheElement
element n = record { object = object n; object_size = 9; live = true; lru_iter = none }

-- Object 1 was put and released, then object 2 was put.
abbrev one : DurableObjectCache
one = with_new 1 (object 1) (init 2 CachePolicy.cap_by_count)

abbrev two : DurableObjectCache
two = with_new 2 (object 2) (retired 1 (element 1) one)

two_example : two ≡ record {
  size = 18;
  capacity = 2;
  hits = 0;
  misses = 0;
  evictions = 0;
  lru = 1 ∷ [];
  cache = (2, element 2) ∷ (1, record (element 1) { live = false; lru_iter = some 1 }) ∷ [];
  policy = CachePolicy.cap_by_count;
}
unfolding program
two_example = refl

not_null : (n : ℕ) → 0 < n → (object n).address ≢ 0
not_null n h = omega arith

one-IsConsistent : IsConsistent one
unfolding program
one-IsConsistent =
    insert-Coherent 1 [] [] 0 (init-IsConsistent 2 CachePolicy.cap_by_count) (element 1) refl
      (not_null 1 (omega arith)) refl

two-IsConsistent : IsConsistent two
unfolding program
two-IsConsistent =
    let r : DurableObjectCache = retired 1 (element 1) one in
    insert-Coherent 2 r.cache r.lru r.size
      (retired-IsConsistent 1 (element 1) one one-IsConsistent refl refl) (element 2) refl
      (not_null 2 (omega arith)) refl

-- The third object takes the place of the released one.
put_example :
    after (put false 3 (object 3) two)
    ≡ some (record two {
      size = 18;
      evictions = 1;
      lru = [];
      cache = (3, element 3) ∷ (2, element 2) ∷ [];
    })
unfolding program
put_example = refl

del_example : del 2 two ≡ some (two, DurableStoreResult.ds_err)
unfolding program
del_example = refl

not_found : get 5 two ≡ some (record two { misses = 1 }, none)
unfolding program
not_found = refl

absent : find 3 two.cache ≡ none
unfolding program
absent = refl

present : find 2 two.cache ≡ some (element 2)
unfolding program
present = refl

put-Fits_example :
    (n : ℕ) × (c' : DurableObjectCache) × (put false 3 (object 3) two
      ≡ some (c', DurableStoreResult.ds_ok))
    × IsConsistent c'
    × (c'.lru ≡ drop n two.lru)
    × ((i : ℕ)
        → find i c'.cache ≡ (
            if i == 3
            then some (new_element (object 3) (marshal_size (object 3).fields 0))
            else if member i (take n two.lru)
            then none
            else find i two.cache))
    × (Fits two.policy c' ⊎ (c'.lru ≡ []))
put-Fits_example =
    put-Fits false 3 (object 3) two two-IsConsistent absent (not_null 3 (omega arith))

release-Evicted_example :
    (c' : DurableObjectCache) × (release 2 (object 2) two ≡ some (c', DurableStoreResult.ds_ok))
    × IsConsistent c'
    × Evicted (surplus (retired 2 (element 2) two)) (retired 2 (element 2) two) c'
release-Evicted_example =
    release-Evicted 2 (object 2) (element 2) two two-IsConsistent present refl refl

full : count two ≡ two.capacity
unfolding program
full = refl

by_count : two.policy ≡ CachePolicy.cap_by_count
unfolding program
by_count = refl

room : two.capacity + 1 < size_mod
unfolding program
room = omega arith

flush-live_example :
    (c' : DurableObjectCache) × (flush two ≡ some (c', length two.lru))
    × IsConsistent c'
    × (c'.lru ≡ [])
    × (length two.cache ≡ length c'.cache + length two.lru)
    × ((i : ℕ) → find i c'.cache ≡ if_live (find i two.cache))
flush-live_example = flush-live two two-IsConsistent

get-Allowed : (k : ℕ) (c : DurableObjectCache) → Allowed (Operation.get_object k) c
unfolding program
get-Allowed k c = tt

del-Allowed : (k : ℕ) (c : DurableObjectCache) → Allowed (Operation.del_object k) c
unfolding program
del-Allowed k c = tt

step-Runs_example : Runs (gives_up (Operation.get_object 1)) two (step (Operation.get_object 1) two)
step-Runs_example = step-Runs (Operation.get_object 1) two two-IsConsistent (get-Allowed 1 two)

-- Object 1 is deleted, object 2 is looked up.
abbrev without_one : DurableObjectCache
without_one = record two { size = 9; lru = []; cache = (2, element 2) ∷ [] }

del_step : step (Operation.del_object 1) two ≡ some without_one
unfolding program
del_step = refl

get_step : step (Operation.get_object 2) without_one ≡ some (record without_one { hits = 1 })
unfolding program
get_step = refl

calls :
    Reaches two
      (Operation.del_object 1 ∷ Operation.get_object 2 ∷ [])
      (record without_one { hits = 1 })
calls = call (del-Allowed 1 two) del_step (call (get-Allowed 2 without_one) get_step done)

Reaches-live_example :
    IsConsistent (record without_one { hits = 1 })
    × ((i : ℕ)
        → given_up (Operation.del_object 1 ∷ Operation.get_object 2 ∷ []) i ≡ false
        → live_of (find i two.cache) ≡ true
        → find i without_one.cache ≡ find i two.cache)
Reaches-live_example =
    Reaches-live two (record without_one { hits = 1 })
      (Operation.del_object 1 ∷ Operation.get_object 2 ∷ []) calls two-IsConsistent

put-two : after (put false 2 (object 2) (retired 1 (element 1) one)) ≡ some two
unfolding program
put-two = refl

first_released : IsConsistent (retired 1 (element 1) one)
unfolding program
first_released = retired-IsConsistent 1 (element 1) one one-IsConsistent refl refl

two_absent : find 2 (retired 1 (element 1) one).cache ≡ none
unfolding program
two_absent = refl

kept : given_up (Operation.del_object 1 ∷ Operation.get_object 2 ∷ []) 2 ≡ false
unfolding program
kept = refl

get-put_example :
    get 2 (record without_one { hits = 1 })
    ≡ some (record without_one { hits = 2 }, some (object 2))
get-put_example =
    get-put false 2 (object 2) (retired 1 (element 1) one) two (record without_one { hits = 1 })
      (Operation.del_object 1 ∷ Operation.get_object 2 ∷ []) first_released two_absent
      (not_null 2 (omega arith)) put-two calls kept
