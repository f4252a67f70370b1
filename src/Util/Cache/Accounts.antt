-- ===== src/Util/Cache/Accounts.antt =====
-- What util/Cache.h relies on in its helper, and that util/CacheCapacityHelper.h provides it.
use oasys.Base.{
  ℕ, ◌%◌, ◌^◌, [], ◌∷◌, ◌++◌, some, ◌≡◌, ◌↔◌, arith, Table, find, erase, update, length,
  length-erase, length-update,
}
use oasys.Util.Cache.{Helper, Entry, Capacity, capacity_helper, move_to_back}
use oasys.Util.Cache.Lookup.{length-append_one}

-- The state of the helper stands for the entries of the cache, when each is put and cleaned up.
pub record Accounts {V : Type 0} (h : Helper V) : Type 1 where
  pub Holds : h.State → Table (Entry V) → Type 0
  pub put-Holds :
      (k : ℕ) (v : V) (n : ℕ) (s : h.State) (t : Table (Entry V))
      → Holds s t
      → Holds (h.put k v s) (t ++ (k, record { val = v; pin_count = n }) ∷ [])
  pub cleanup-Holds :
      (k : ℕ) (e : Entry V) (s : h.State) (t : Table (Entry V))
      → find k t ≡ some e
      → Holds s t
      → Holds (h.cleanup k e.val s) (erase k t)
  pub update-Holds :
      (k : ℕ) (e : Entry V) (n : ℕ) (s : h.State) (t : Table (Entry V))
      → find k t ≡ some e
      → Holds s t
      → Holds s (update k (record e { pin_count = n }) t)
  pub move-Holds :
      (k : ℕ) (e : Entry V) (n : ℕ) (s : h.State) (t : Table (Entry V))
      → find k t ≡ some e
      → Holds s t
      → Holds s (move_to_back k (record e { pin_count = n }) t)

abbrev pub Counts : {V : Type 0} → ℕ → Capacity → Table (Entry V) → Type 0
Counts n s t = (s.capacity ≡ n) × (s.count ≡ length t % 2 ^ 64)

-- CacheCapacityHelper of a capacity counts the entries.
unfoldable pub capacity_accounts : (V : Type 0) → ℕ → Accounts (capacity_helper V)
unfolding move_to_back
capacity_accounts V capacity = record {
  Holds = Counts capacity;
  put-Holds = λ k v n s t c.
      (c.0, omega (arith, c.1, length-append_one k (record { val = v; pin_count = n }) t));
  cleanup-Holds = λ k e s t f c. (c.0, omega (arith, c.1, length-erase k e t f));
  update-Holds =
      λ k e n s t f c. (c.0, omega (arith, c.1, length-update k (record e { pin_count = n }) t));
  move-Holds = λ k e n s t f c. (
    c.0,
    omega (
      arith,
      c.1,
      length-erase k e t f,
      length-append_one k (record e { pin_count = n }) (erase k t),
    ),
  );
}

pub capacity_accounts-Counts :
    (V : Type 0) (capacity : ℕ) (s : Capacity) (t : Table (Entry V))
    → (capacity_accounts V capacity).Holds s t ↔ Counts capacity s t
unfolding capacity_accounts
capacity_accounts-Counts V capacity s t = (λ c. c, λ c. c)
