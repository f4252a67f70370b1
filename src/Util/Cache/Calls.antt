-- ===== src/Util/Cache/Calls.antt =====
-- Calls of the methods of util/Cache.h in any order.
use oasys.Base.{
  ℕ, Bool, true, false, List, [], ◌∷◌, Option, none, some, if◌then◌else◌, ◌≡◌, sym, ap, ◌∙◌, inl,
  inr, ◌>>=◌, subst, Table, find, erase, update, update-Distinct, Bool-cases, Option-cases,
  none≢some, some_injective, bind-some, find-cons_self, ==_refl,
}
use oasys.Util.Cache.{
  Helper, Entry, Cache, plus_one, minus_one, is_positive, get, get_found, pin, unpin, unpin_handle,
  put_and_pin, evict, evict_found, evict_all, cleanup_all, move_to_back,
}
use oasys.Util.Cache.Lookup.{move_to_back-Distinct}
use oasys.Util.Cache.Accounts.{Accounts}
use oasys.Util.Cache.Room.{Coherent, drop_entry-Coherent, put_and_pin-Put}

pub data Call (V : Type 0) : Type 0 where
  get_call : ℕ → Bool → Call V
  pin_call unpin_call unpin_handle_call evict_call : ℕ → Call V
  put_call : ℕ → V → Call V
  evict_all_call : Call V

module _ {V : Type 0} {h : Helper V} where
  unfoldable pub run_call : Call V → Cache h → Option (Cache h)
  run_call (get_call k pinned) c = some (get k pinned c).1
  run_call (pin_call k) c = pin k c >>= λ r. some r.1
  run_call (unpin_call k) c = unpin k c >>= λ r. some r.1
  run_call (unpin_handle_call k) c = unpin_handle k c >>= λ r. some r.1
  run_call (evict_call k) c = some (evict k c)
  run_call (put_call k v) c = put_and_pin k v c >>= λ r. some r.1
  run_call evict_all_call c = some (evict_all c)

  unfoldable pub run_calls : List (Call V) → Cache h → Option (Cache h)
  run_calls [] c = some c
  run_calls (call ∷ calls) c = run_call call c >>= run_calls calls

  module _ (accounts : Accounts h) where
    repin-Coherent :
        (k n : ℕ) (e : Entry V) (c : Cache h)
        → find k c.entries ≡ some e
        → Coherent accounts c
        → Coherent accounts (record c { entries = update k (record e { pin_count = n }) c.entries })
    repin-Coherent k n e c f r = record {
      distinct = update-Distinct k (record e { pin_count = n }) c.entries r.distinct;
      held = accounts.update-Holds k e n c.helper c.entries f r.held;
    }

    move-Coherent :
        (k n : ℕ) (e : Entry V) (c : Cache h)
        → find k c.entries ≡ some e
        → Coherent accounts c
        → Coherent accounts
            (record c { entries = move_to_back k (record e { pin_count = n }) c.entries })
    move-Coherent k n e c f r = record {
      distinct = move_to_back-Distinct k (record e { pin_count = n }) c.entries r.distinct;
      held = accounts.move-Holds k e n c.helper c.entries f r.held;
    }

    placed-Coherent :
        (reorder : Bool) (k n : ℕ) (e : Entry V) (c : Cache h)
        → find k c.entries ≡ some e
        → Coherent accounts c
        → Coherent accounts (record c {
          entries =
              if reorder
              then move_to_back k (record e { pin_count = n }) c.entries
              else update k (record e { pin_count = n }) c.entries;
        })
    placed-Coherent true k n e c f r = move-Coherent k n e c f r
    placed-Coherent false k n e c f r = repin-Coherent k n e c f r

    found-Coherent :
        (k : ℕ) (pinned : Bool) (e : Entry V) (c : Cache h)
        → find k c.entries ≡ some e
        → Coherent accounts c
        → Coherent accounts (get_found k pinned c (some e)).1
    found-Coherent k true e c f r =
        placed-Coherent c.reorder_on_access k (plus_one e.pin_count) e c f r
    found-Coherent k false e c f r = placed-Coherent c.reorder_on_access k e.pin_count e c f r

    get-Coherent :
        (k : ℕ) (pinned : Bool) (c : Cache h)
        → Coherent accounts c
        → Coherent accounts (get k pinned c).1
    unfolding get
    get-Coherent k pinned c r = elim (Option-cases (find k c.entries)) [
      | inl f ↦ subst (λ o. Coherent accounts (get_found k pinned c o).1) (sym f) r
      | inr (e, f) ↦
          subst (λ o. Coherent accounts (get_found k pinned c o).1) (sym f)
            (found-Coherent k pinned e c f r)
    ]

    -- pin and unpin, where `bump` is the change of the count.
    bump-Coherent :
        (bump : ℕ → ℕ) (k : ℕ) (c : Cache h) (r : ℕ × Cache h)
        → (find k c.entries >>= λ e. some (
          bump e.pin_count,
          record c { entries = update k (record e { pin_count = bump e.pin_count }) c.entries },
        ))
          ≡ some r
        → Coherent accounts c
        → Coherent accounts r.1
    bump-Coherent bump k c r e b =
        let u = bind-some (find k c.entries) _ r e in
        subst (λ x. Coherent accounts x.1) (some_injective u.2)
          (repin-Coherent k (bump u.0.pin_count) u.0 c u.1 b)

    unpin-Coherent :
        (k : ℕ) (c : Cache h) (r : ℕ × Cache h)
        → unpin k c ≡ some r
        → Coherent accounts c
        → Coherent accounts r.1
    unfolding unpin unpin_handle
    unpin-Coherent k c r e b =
        let u = bind-some (find k c.entries) _ r e in
        elim (Bool-cases (is_positive u.0.pin_count)) [
          | inl p ↦
              bump-Coherent minus_one k c r
                (sym (ap (λ x. if x then unpin_handle k c else none) p) ∙ u.2) b
          | inr p ↦
              absurd (none≢some (sym (ap (λ x. if x then unpin_handle k c else none) p) ∙ u.2))
        ]

    evict-Coherent : (k : ℕ) (c : Cache h) → Coherent accounts c → Coherent accounts (evict k c)
    unfolding evict
    evict-Coherent k c r = elim (Option-cases (find k c.entries)) [
      | inl f ↦ subst (λ o. Coherent accounts (evict_found k c o)) (sym f) r
      | inr (e, f) ↦
          subst (λ o. Coherent accounts (evict_found k c o)) (sym f)
            (drop_entry-Coherent accounts k e c f r)
    ]

    put-Coherent :
        (k : ℕ) (v : V) (c : Cache h) (r : Bool × Cache h)
        → put_and_pin k v c ≡ some r
        → Coherent accounts c
        → Coherent accounts r.1
    put-Coherent k v c r e b = elim (put_and_pin-Put accounts k v c b) [
      | inl (found, d) ↦ subst (λ x. Coherent accounts x.1) (some_injective (sym d ∙ e)) b
      | inr (c', d, p) ↦ subst (λ x. Coherent accounts x.1) (some_injective (sym d ∙ e)) p.coherent
    ]

    cleanup_all-Holds :
        (t : Table (Entry V)) (s : h.State)
        → accounts.Holds s t
        → accounts.Holds (cleanup_all h t s) []
    unfolding cleanup_all erase
    cleanup_all-Holds [] s b = b
    cleanup_all-Holds ((k, e) ∷ t) s b =
        let one = accounts.cleanup-Holds k e s ((k, e) ∷ t) (find-cons_self k e t) b in
        cleanup_all-Holds t (h.cleanup k e.val s) (
          subst (λ x. accounts.Holds (h.cleanup k e.val s) (if x then t else (k, e) ∷ erase k t))
            (==_refl k) one)

    run_call-Coherent :
        (call : Call V) (c c' : Cache h)
        → run_call call c ≡ some c'
        → Coherent accounts c
        → Coherent accounts c'
    unfolding run_call pin unpin_handle evict_all
    run_call-Coherent (get_call k pinned) c c' e b =
        subst (Coherent accounts) (some_injective e) (get-Coherent k pinned c b)
    run_call-Coherent (pin_call k) c c' e b =
        let u = bind-some (pin k c) _ c' e in
        subst (Coherent accounts) (some_injective u.2) (bump-Coherent plus_one k c u.0 u.1 b)
    run_call-Coherent (unpin_call k) c c' e b =
        let u = bind-some (unpin k c) _ c' e in
        subst (Coherent accounts) (some_injective u.2) (unpin-Coherent k c u.0 u.1 b)
    run_call-Coherent (unpin_handle_call k) c c' e b =
        let u = bind-some (unpin_handle k c) _ c' e in
        subst (Coherent accounts) (some_injective u.2) (bump-Coherent minus_one k c u.0 u.1 b)
    run_call-Coherent (evict_call k) c c' e b =
        subst (Coherent accounts) (some_injective e) (evict-Coherent k c b)
    run_call-Coherent (put_call k v) c c' e b =
        let u = bind-some (put_and_pin k v c) _ c' e in
        subst (Coherent accounts) (some_injective u.2) (put-Coherent k v c u.0 u.1 b)
    run_call-Coherent evict_all_call c c' e b =
        subst (Coherent accounts) (some_injective e)
          (record { distinct = tt; held = cleanup_all-Holds c.entries c.helper b.held })

    -- Calls that fail no assertion leave the entries with distinct keys, and the state of the helper
    -- stands for just the entries that the cache has.
    pub run_calls-Coherent :
        (calls : List (Call V)) (c c' : Cache h)
        → run_calls calls c ≡ some c'
        → Coherent accounts c
        → Coherent accounts c'
    unfolding run_calls
    run_calls-Coherent [] c c' e b = subst (Coherent accounts) (some_injective e) b
    run_calls-Coherent (call ∷ calls) c c' e b =
        let u = bind-some (run_call call c) (run_calls calls) c' e in
        run_calls-Coherent calls u.0 c' u.2 (run_call-Coherent call c u.0 u.1 b)
