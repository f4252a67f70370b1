-- ===== src/Util/Cache.antt =====
-- util/Cache.h, util/CacheCapacityHelper.h and util/LRUList.h. The keys are numbers. The entries stand in
-- the order of cache_list_, and cache_map_.find is the lookup of a key in them. A handle is the key of
-- its entry. `none` is a failed assertion, or the use of a handle without an entry.
pub mod Lookup
pub mod Room
pub mod Accounts
pub mod Calls
pub mod Bound
mod Tests
use oasys.Base.{
  ℕ, zero, suc, ◌+◌, ◌-◌, ◌%◌, ◌^◌, Bool, true, false, not, ◌&&◌, List, [], ◌∷◌, ◌++◌, Option, none,
  some, ltb, ◌==◌, if◌then◌else◌, ◌>>=◌, is_some, Table, find, erase, update, length,
}

-- The helper, a template parameter.
pub record Helper (V : Type 0) : Type 1 where
  pub State : Type 0
  pub over_limit : ℕ → V → State → Bool
  pub put : ℕ → V → State → State
  pub cleanup : ℕ → V → State → State

-- LRUListEnt; pin_count_ is an int of 32 bits.
pub record Entry (V : Type 0) : Type 0 where
  pub val : V
  pub pin_count : ℕ

abbrev pub plus_one : ℕ → ℕ
plus_one n = (n + 1) % 2 ^ 32

abbrev pub minus_one : ℕ → ℕ
minus_one n = (n + (2 ^ 32 - 1)) % 2 ^ 32

abbrev pub is_positive : ℕ → Bool
is_positive n = not (n == 0) && ltb n (2 ^ 31)

pub record Cache {V : Type 0} (h : Helper V) : Type 0 where
  pub entries : Table (Entry V)
  pub helper : h.State
  pub reorder_on_access : Bool

module _ {V : Type 0} where
  -- LRUList::move_to_back.
  unfoldable pub move_to_back : ℕ → Entry V → Table (Entry V) → Table (Entry V)
  move_to_back k e t = erase k t ++ (k, e) ∷ []

  -- The first entry that is not pinned.
  unfoldable pub first_unpinned : Table (Entry V) → Option (ℕ × Entry V)
  first_unpinned [] = none
  first_unpinned ((k, e) ∷ t) =
      let rest = first_unpinned t in if e.pin_count == 0 then some (k, e) else rest

  unfoldable pub cleanup_all : (h : Helper V) → Table (Entry V) → h.State → h.State
  cleanup_all h [] s = s
  cleanup_all h ((k, e) ∷ t) s = cleanup_all h t (h.cleanup k e.val s)

  module _ {h : Helper V} where
    abbrev pub get_found : ℕ → Bool → Cache h → Option (Entry V) → Option V × Cache h
    get_found k pin c none = (none, c)
    get_found k pin c (some e) =
        let pinned : Entry V = if pin then record e { pin_count = plus_one e.pin_count } else e in
        let moved =
          if c.reorder_on_access
          then move_to_back k pinned c.entries
          else update k pinned c.entries in
        (some e.val, record c { entries = moved })

    unfoldable pub get : ℕ → Bool → Cache h → Option V × Cache h
    get k pin c = get_found k pin c (find k c.entries)

    -- Both forms of pin, with the new count.
    unfoldable pub pin : ℕ → Cache h → Option (ℕ × Cache h)
    pin k c = find k c.entries >>= λ e. some (
      plus_one e.pin_count,
      record c { entries = update k (record e { pin_count = plus_one e.pin_count }) c.entries },
    )

    -- unpin of a handle, and of a key, which has an assertion.
    unfoldable pub unpin_handle : ℕ → Cache h → Option (ℕ × Cache h)
    unpin_handle k c = find k c.entries >>= λ e. some (
      minus_one e.pin_count,
      record c { entries = update k (record e { pin_count = minus_one e.pin_count }) c.entries },
    )

    unfoldable pub unpin : ℕ → Cache h → Option (ℕ × Cache h)
    unpin k c = find k c.entries >>= λ e. if is_positive e.pin_count then unpin_handle k c else none

    -- An entry leaves the cache.
    abbrev pub drop_entry : ℕ → Entry V → Cache h → Cache h
    drop_entry k e c = record c { helper = h.cleanup k e.val c.helper; entries = erase k c.entries }

    -- `none` where all entries are busy.
    unfoldable pub evict_last : Cache h → Option (Cache h)
    evict_last c = first_unpinned c.entries >>= λ p. some (drop_entry p.0 p.1 c)

    -- One turn of the loop of put_and_pin goes on with what is left, if an entry was evicted.
    abbrev pub or_stop :
        Cache h → Option (Cache h) → (Cache h → Option (Cache h)) → Option (Cache h)
    or_stop c none next = some c
    or_stop c (some c') next = next c'

    -- The loop of put_and_pin; the first line is out of fuel.
    unfoldable pub make_room : ℕ → ℕ → V → Cache h → Option (Cache h)
    make_room zero k v c = none
    make_room (suc fuel) k v c =
        if h.over_limit k v c.helper then or_stop c (evict_last c) (make_room fuel k v) else some c

    abbrev pub add_entry : ℕ → V → Cache h → Cache h
    add_entry k v c = record c {
      entries = c.entries ++ (k, record { val = v; pin_count = 1 }) ∷ [];
      helper = h.put k v c.helper;
    }

    -- put_and_pin of a key that was found or not. Each turn of the loop takes an entry.
    abbrev pub put_found : ℕ → V → Cache h → Bool → Option (Bool × Cache h)
    put_found k v c found =
        if found
        then some (false, c)
        else make_room (suc (length c.entries)) k v c >>= λ c'. some (true, add_entry k v c')

    unfoldable pub put_and_pin : ℕ → V → Cache h → Option (Bool × Cache h)
    put_and_pin k v c = put_found k v c (is_some (find k c.entries))

    abbrev pub evict_found : ℕ → Cache h → Option (Entry V) → Cache h
    evict_found k c none = c
    evict_found k c (some e) = drop_entry k e c

    unfoldable pub evict : ℕ → Cache h → Cache h
    evict k c = evict_found k c (find k c.entries)

    unfoldable pub evict_all : Cache h → Cache h
    evict_all c = record c { entries = []; helper = cleanup_all h c.entries c.helper }

-- CacheCapacityHelper, with count_ of 64 bits.
pub record Capacity : Type 0 where
  pub capacity : ℕ
  pub count : ℕ

abbrev pub capacity_helper : (V : Type 0) → Helper V
capacity_helper V = record {
  State = Capacity;
  over_limit = λ k v s. ltb s.capacity ((s.count + 1) % 2 ^ 64);
  put = λ k v s. record s { count = (s.count + 1) % 2 ^ 64 };
  cleanup = λ k v s. record s { count = (s.count + (2 ^ 64 - 1)) % 2 ^ 64 };
}
