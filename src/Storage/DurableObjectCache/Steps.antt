-- ===== src/Storage/DurableObjectCache/Steps.antt =====
-- storage/DurableObjectCache.tcc: sequences of calls.
use oasys.Base.{
  none≢some, some_injective, ℕ, ◌≡◌, ◌≢◌, refl, sym, ap, ◌∙◌, Bool, true, false, List, [], ◌∷◌,
  Option, none, some, ◌==◌, ◌||◌, find, member, subst, ==_refl, arith,
}
use oasys.Serialize.Marshal.{marshal_size}
use oasys.Storage.DurableObjectCache.Put.{put-Fits}
use oasys.Storage.DurableObjectCache.{
  new_element, tick, CachePolicy, Object, CacheElement, DurableObjectCache, init, put,
}
use oasys.Storage.DurableObjectCache.Operations.{
  live_of, get, get_found, release, del, remove, flush,
}
use oasys.Storage.DurableObjectCache.Coherent.{total, IsConsistent}
use oasys.Storage.DurableObjectCache.Calls.{
  Runs, after, get-Runs, del-Runs, remove-Runs, flush-Runs, put-Runs, release-Runs,
}

pub data Operation : Type 0 where
  put_object : Bool → ℕ → Object → Operation
  get_object : ℕ → Operation
  release_object : ℕ → Object → Operation
  del_object : ℕ → Operation
  remove_object : ℕ → Operation
  flush_objects : Operation

unfoldable pub step : Operation → DurableObjectCache → Option DurableObjectCache
step (Operation.put_object excl k object) c = after (put excl k object c)
step (Operation.get_object k) c = after (get k c)
step (Operation.release_object k object) c = after (release k object c)
step (Operation.del_object k) c = after (del k c)
step (Operation.remove_object k) c = after (remove k c)
step Operation.flush_objects c = after (flush c)

-- The user releases or removes the object of a key.
unfoldable pub gives_up : Operation → ℕ → Bool
gives_up (Operation.release_object k object) i = i == k
gives_up (Operation.remove_object k) i = i == k
gives_up _ i = false

abbrev pub SameObject : ℕ → Object → DurableObjectCache → Type 0
SameObject k object c =
    (e : CacheElement) → find k c.cache ≡ some e → e.object.address ≡ object.address

-- What the callers owe: an object is not NULL, and is the one that the cache has for the key, if it
-- has one.
unfoldable pub Allowed : Operation → DurableObjectCache → Type 0
Allowed (Operation.put_object excl k object) c = (object.address ≢ 0) × SameObject k object c
Allowed (Operation.release_object k object) c = SameObject k object c
Allowed _ c = Unit {0}

-- From a consistent cache each call that keeps the callers' promise ends with no assertion failed and
-- the cache consistent, and every live element whose key it does not release or remove stays.
pub step-Runs :
    (operation : Operation) (c : DurableObjectCache)
    → IsConsistent c
    → Allowed operation c
    → Runs (gives_up operation) c (step operation c)
unfolding step gives_up Allowed
step-Runs (Operation.put_object excl k object) c x (a, same) = put-Runs excl k object c x a same
step-Runs (Operation.get_object k) c x a = get-Runs k c x
step-Runs (Operation.release_object k object) c x same = release-Runs k object c x same
step-Runs (Operation.del_object k) c x a = del-Runs k c x
step-Runs (Operation.remove_object k) c x a = remove-Runs k c x
step-Runs Operation.flush_objects c x a = flush-Runs c x

-- Sequences of calls that keep the promise.
pub data Reaches : DurableObjectCache → List Operation → DurableObjectCache → Type 0 where
  done : {c : DurableObjectCache} → Reaches c [] c
  call :
      {c c' c'' : DurableObjectCache} {operation : Operation} {operations : List Operation}
      → Allowed operation c
      → step operation c ≡ some c'
      → Reaches c' operations c''
      → Reaches c (operation ∷ operations) c''

abbrev pub given_up : List Operation → ℕ → Bool
given_up [] i = false
given_up (operation ∷ operations) i = gives_up operation i || given_up operations i

-- A new cache is consistent.
pub init-IsConsistent : (capacity : ℕ) (policy : CachePolicy) → IsConsistent (init capacity policy)
unfolding find member total
init-IsConsistent capacity policy = record {
  distinct = tt;
  unique = tt;
  listed = λ k. refl;
  sound = λ k e f. absurd (none≢some f);
  sized = refl;
}

Keeps : List Operation → DurableObjectCache → DurableObjectCache → Type 0
Keeps operations c c' =
    (i : ℕ)
    → given_up operations i ≡ false
    → live_of (find i c.cache) ≡ true
    → find i c'.cache ≡ find i c.cache

Keeps-call :
    (operation : Operation) (operations : List Operation) (c c' c'' : DurableObjectCache)
    → ((i : ℕ)
        → gives_up operation i ≡ false
        → live_of (find i c.cache) ≡ true
        → find i c'.cache ≡ find i c.cache)
    → Keeps operations c' c''
    → Keeps (operation ∷ operations) c c''
unfolding Keeps
Keeps-call operation operations c c' c'' s r i g l =
    let h : gives_up operation i ≡ false = ground (arith, g) in
    let h' : given_up operations i ≡ false = ground (arith, g) in
    r i h' (ap live_of (s i h l) ∙ l) ∙ s i h l

-- Whatever sequence of allowed calls a consistent cache goes through, it stays consistent, and an
-- element that is live at the beginning stays in the cache, as it is, while its key is neither
-- released nor removed.
pub Reaches-live :
    (c c' : DurableObjectCache) (operations : List Operation)
    → Reaches c operations c'
    → IsConsistent c
    → IsConsistent c'
      × ((i : ℕ)
          → given_up operations i ≡ false
          → live_of (find i c.cache) ≡ true
          → find i c'.cache ≡ find i c.cache)
unfolding Keeps
Reaches-live c c' operations done x = (x, λ i g l. refl)
Reaches-live c c'' (operation ∷ operations) (call {c' = c'} a e r) x =
    let (c1, e1, x1, s) = step-Runs operation c x a in
    let same : c1 ≡ c' = some_injective (sym e1 ∙ e) in
    let (x2, k) = Reaches-live c' c'' operations r (subst IsConsistent same x1) in
    (
      x2,
      Keeps-call operation operations c c' c''
          (λ i g l. ap (λ d. find i d.cache) (sym same) ∙ s i g l) k,
    )

get-live :
    (k : ℕ) (e : CacheElement) (c : DurableObjectCache)
    → find k c.cache ≡ some e
    → e.live ≡ true
    → get k c ≡ some (record c { hits = tick c.hits }, some e.object)
unfolding get get_found
get-live k e c f l = rw (f, l) refl

-- An object that `put` has stored under a new key is what `get` returns for the key, after any
-- sequence of allowed calls that neither release nor remove the key.
pub get-put :
    (excl : Bool) (k : ℕ) (object : Object) (c c' c'' : DurableObjectCache)
    (operations : List Operation)
    → IsConsistent c
    → find k c.cache ≡ none
    → object.address ≢ 0
    → after (put excl k object c) ≡ some c'
    → Reaches c' operations c''
    → given_up operations k ≡ false
    → get k c'' ≡ some (record c'' { hits = tick c''.hits }, some object)
get-put excl k object c c' c'' operations x f a e r g =
    let (n, c1, e1, x1, lru, left, fits) = put-Fits excl k object c x f a in
    let same : c1 ≡ c' = some_injective (sym (ap after e1) ∙ e) in
    let stored = ap (λ d. find k d.cache) (sym same) ∙ (left k ∙ rw (==_refl k) refl) in
    let (x2, keeps) = Reaches-live c' c'' operations r (subst IsConsistent same x1) in
    get-live k (new_element object (marshal_size object.fields 0)) c''
      (keeps k g (ap live_of stored) ∙ stored) refl
